-- ===== src/Outbox/Attachments/Drain.antt =====
-- src/lib/attachment-outbox-service.ts: drainAttachmentOutbox, one turn for each message up to the
-- limit.
use resend_conversation_serv.Prelude.{
  ℕ, suc, ◌+◌, Bool, Option, none, some, List, [], ◌∷◌, ◌++◌, Action, pure, ◌>>=◌,
}
use resend_conversation_serv.Prelude.Text.{Text}
use resend_conversation_serv.Database.{Db, Sink, Fault}
use resend_conversation_serv.Attachments.Claim.{Storage, build_send_attachments}
use resend_conversation_serv.Attachments.Reaper.{LeaseInput}
use resend_conversation_serv.Outbox.Batches.Settle.{
  DrainState, accepted, failed, pending, indeterminate, DrainEntry, Readings,
}
use resend_conversation_serv.Outbox.Attachments.{
  ClaimedEntry, SingleProvider, claim_entry, deliver_entry,
}

pub record DrainResult : Type 0 where
  pub claimed : ℕ
  pub accepted : ℕ
  pub failed : ℕ
  pub retry_scheduled : ℕ
  pub indeterminate : ℕ
  pub results : List DrainEntry

abbrev pub empty_result : DrainResult
empty_result = record {
  claimed = 0;
  accepted = 0;
  failed = 0;
  retry_scheduled = 0;
  indeterminate = 0;
  results = [];
}

abbrev pub one_if_accepted : DrainState → ℕ
one_if_accepted accepted = 1
one_if_accepted _ = 0

abbrev pub one_if_failed : DrainState → ℕ
one_if_failed failed = 1
one_if_failed _ = 0

abbrev pub one_if_pending : DrainState → ℕ
one_if_pending pending = 1
one_if_pending _ = 0

abbrev pub one_if_indeterminate : DrainState → ℕ
one_if_indeterminate indeterminate = 1
one_if_indeterminate _ = 0

unfoldable pub add_outcome : DrainResult → DrainEntry → DrainResult
add_outcome r e = record {
  claimed = suc r.claimed;
  accepted = r.accepted + one_if_accepted e.state;
  failed = r.failed + one_if_failed e.state;
  retry_scheduled = r.retry_scheduled + one_if_pending e.state;
  indeterminate = r.indeterminate + one_if_indeterminate e.state;
  results = r.results ++ e ∷ [];
}

-- A turn of the loop: its lease and clock, and what other transactions do after its claim.
pub record Turn : Type 0 where
  pub claim : LeaseInput
  pub at : Readings
  pub meanwhile : Db → Db

module _ (sinks : List Sink) (name : Fault → Text) (provider : SingleProvider) (enabled : Bool)
    (storage : Storage) where
  unfoldable pub deliver_turn : Turn → ClaimedEntry → Action Db Fault DrainEntry
  deliver_turn turn entry db =
      let db' = turn.meanwhile db in
      deliver_entry sinks name provider
        (build_send_attachments enabled storage entry.message.id db') turn.at entry db'

  -- After a claim: the loop ends where nothing is due; `continue` is its next turn.
  abbrev pub drain_claimed :
      Turn
      → (DrainResult → Action Db Fault DrainResult)
      → DrainResult
      → Option ClaimedEntry
      → Action Db Fault DrainResult
  drain_claimed turn continue r none = pure r
  drain_claimed turn continue r (some entry) =
      deliver_turn turn entry >>= λ e. continue (add_outcome r e)

  -- `limit` turns at most; the list has one for each.
  unfoldable pub drain_turns : List Turn → DrainResult → Action Db Fault DrainResult
  drain_turns [] r = pure r
  drain_turns (turn ∷ turns) r =
      claim_entry turn.claim >>= drain_claimed turn (λ r'. drain_turns turns r') r

  unfoldable pub drain_attachment_outbox : List Turn → Action Db Fault DrainResult
  drain_attachment_outbox turns = drain_turns turns empty_result
