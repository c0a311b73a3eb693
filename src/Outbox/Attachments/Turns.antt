-- ===== src/Outbox/Attachments/Turns.antt =====
-- The send states of messages over a whole drain of the lane of single sends.
use resend_conversation_serv.Prelude.{
  ◌≡◌, refl, sym, subst, Bool, Option, none, some, List, [], ◌∷◌, Action, Within, Within-bind,
  Within-transaction, All₂,
}
use resend_conversation_serv.Prelude.Text.{Text}
use resend_conversation_serv.Database.{Db, AttachmentEntry, Sink, Fault}
use resend_conversation_serv.Attachments.Claim.{Storage, build_send_attachments}
use resend_conversation_serv.Attachments.Reaper.{LeaseInput}
use resend_conversation_serv.Outbox.Attachments.Progress.{deliver-Advances}
use resend_conversation_serv.Prelude.{All}
use resend_conversation_serv.Outbox.Batches.Progress.{
  Progress, Advances, Advances-refl, Advances-trans,
}
use resend_conversation_serv.Outbox.Attachments.{
  ClaimedEntry, SingleProvider, deliver_entry, claim_entry, lease_first, due_entries, clean,
}
use resend_conversation_serv.Outbox.Attachments.Drain.{
  DrainResult, empty_result, add_outcome, Turn, deliver_turn, drain_claimed, drain_turns,
  drain_attachment_outbox,
}

lease_first-messages :
    (i : LeaseInput) (es : List AttachmentEntry) (db : Db)
    → (lease_first i es db).1.messages ≡ db.messages
lease_first-messages i [] db = refl
lease_first-messages i (e ∷ es) db = refl

claim-Advances : (i : LeaseInput) → Within Advances (claim_entry i)
unfolding claim_entry
claim-Advances i =
    Within-transaction Advances (λ db. lease_first i (due_entries i (clean db)) (clean db))
      Advances-refl
      (λ db.
        subst (All₂ Progress db.messages)
          (sym (lease_first-messages i (due_entries i (clean db)) (clean db))) (Advances-refl db))

-- What other transactions do after the claims of the turns.
abbrev Others : Turn → Type 0
Others t = (db : Db) → All₂ Progress db.messages (t.meanwhile db).messages

module _ (sinks : List Sink) (name : Fault → Text) (provider : SingleProvider) (enabled : Bool)
    (storage : Storage) where
  turn-Advances :
      (t : Turn) (entry : ClaimedEntry)
      → ((db : Db) → Advances db (t.meanwhile db))
      → Within Advances (deliver_turn sinks name provider enabled storage t entry)
  unfolding deliver_turn
  turn-Advances t entry others db =
      Advances-trans db (t.meanwhile db)
        (deliver_entry sinks name provider
          (build_send_attachments enabled storage entry.message.id (t.meanwhile db)) t.at entry
          (t.meanwhile db)).1
        (others db)
        (deliver-Advances entry sinks name provider
          (build_send_attachments enabled storage entry.message.id (t.meanwhile db)) t.at
          (t.meanwhile db))

  claimed-Advances :
      (t : Turn) (continue : DrainResult → Action Db Fault DrainResult) (r : DrainResult)
      → ((db : Db) → Advances db (t.meanwhile db))
      → ((r : DrainResult) → Within Advances (continue r))
      → (o : Option ClaimedEntry)
      → Within Advances (drain_claimed sinks name provider enabled storage t continue r o)
  claimed-Advances t continue r others next none = Advances-refl
  claimed-Advances t continue r others next (some entry) =
      Within-bind Advances Advances-trans (deliver_turn sinks name provider enabled storage t entry)
        (λ e. continue (add_outcome r e)) (turn-Advances t entry others)
        (λ e. next (add_outcome r e))

  turns-Advances :
      (turns : List Turn) (r : DrainResult)
      → All Others turns
      → Within Advances (drain_turns sinks name provider enabled storage turns r)
  unfolding drain_turns
  turns-Advances [] r h = Advances-refl
  turns-Advances (t ∷ ts) r h =
      Within-bind Advances Advances-trans (claim_entry t.claim)
        (drain_claimed sinks name provider enabled storage t
          (λ r'. drain_turns sinks name provider enabled storage ts r') r)
        (claim-Advances t.claim)
        (claimed-Advances t (λ r'. drain_turns sinks name provider enabled storage ts r') r h.0
          (λ r'. turns-Advances ts r' h.1))

-- Over a whole drain of the attachment outbox, whatever the attachments, the provider's answers and
-- the time, and even if the drain throws, every message row is either untouched but for its delivery
-- report, or was PENDING and is now ACCEPTED, FAILED or INDETERMINATE. It is assumed that the
-- transactions that run between each claim and its settlement change message rows only in that way
-- too.
pub drain_turns-Advances :
    (sinks : List Sink) (name : Fault → Text) (provider : SingleProvider) (enabled : Bool)
    (storage : Storage) (turns : List Turn)
    → All (λ t. (db : Db) → All₂ Progress db.messages (t.meanwhile db).messages) turns
    → (db : Db)
    → All₂ Progress db.messages
        (drain_attachment_outbox sinks name provider enabled storage turns db).1.messages
unfolding drain_attachment_outbox
drain_turns-Advances sinks name provider enabled storage turns others =
    turns-Advances sinks name provider enabled storage turns empty_result others
