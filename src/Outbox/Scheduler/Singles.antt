-- ===== src/Outbox/Scheduler/Singles.antt =====
-- A drain of the lane of single sends that has claimed nothing.
use resend_conversation_serv.Prelude.{
  ℕ, suc, ◌≤◌, ◌≡◌, ◌≢◌, ◌⊎◌, inl, inr, refl, sym, subst, ◌∙◌, Bool, Option, none, some, List, [],
  ◌∷◌, arith, Outcome, done, threw, pure, Action, ◌>>=◌, find, transaction, transaction-same,
}
use resend_conversation_serv.Prelude.Text.{Text}
use resend_conversation_serv.Database.{Db, Message, AttachmentEntry, Sink, Fault}
use resend_conversation_serv.Attachments.Claim.{Storage}
use resend_conversation_serv.Attachments.Reaper.{LeaseInput}
use resend_conversation_serv.Outbox.Batches.{ClaimInput, queued_entries, message_has_id}
use resend_conversation_serv.Outbox.Batches.Settle.{DrainEntry}
use resend_conversation_serv.Outbox.Attachments.{
  ClaimedEntry, SingleProvider, claim_entry, lease_first, claimed_entry, due_entries, clean,
}
use resend_conversation_serv.Outbox.Attachments.Drain.{
  DrainResult, empty_result, add_outcome, Turn, deliver_turn, drain_claimed, drain_turns,
  drain_attachment_outbox,
}
use resend_conversation_serv.Outbox.Scheduler.Batches.{NoBatchDue}

-- Nothing is due for the first turn.
abbrev pub NoTurnDue : List Turn → Db → Type 0
NoTurnDue [] db = Unit {0}
NoTurnDue (turn ∷ turns) db = due_entries turn.claim db ≡ []

-- What holds after the stale entries of the lane were deleted, if they were.
abbrev pub MayClean : Db → Db → Type 0
MayClean a b = (b ≡ a) ⊎ (b ≡ clean a)

claim-NoTurnDue :
    (i : LeaseInput) (db : Db)
    → (claim_entry i db).0 ≡ done none
    → (due_entries i (claim_entry i db).1 ≡ []) × ((claim_entry i db).1 ≡ clean db)
unfolding claim_entry transaction
claim-NoTurnDue i db h = go (due_entries i (clean db)) refl h
  where
    run : List AttachmentEntry → Outcome Fault (Option ClaimedEntry) × Db
    run es = transaction (λ _. lease_first i es (clean db)) db

    found :
        (e : AttachmentEntry) (es : List AttachmentEntry) (o : Option Message)
        → claimed_entry i e o ≢ done none
    found e es none = λ q. cc
    found e es (some m) = λ q. cc

    go :
        (es : List AttachmentEntry)
        → due_entries i (clean db) ≡ es
        → (run es).0 ≡ done none
        → (due_entries i (run es).1 ≡ []) × ((run es).1 ≡ clean db)
    go [] e q = (e, refl)
    go (x ∷ es) e q = absurd (
        found x es (find (message_has_id x.message_id) db.messages)
          (sym (transaction-same (λ _. lease_first i (x ∷ es) (clean db)) db) ∙ q))

module _ (sinks : List Sink) (name : Fault → Text) (provider : SingleProvider) (enabled : Bool)
    (storage : Storage) where
  abbrev Claims : ℕ → Action Db Fault DrainResult → Type 0
  Claims n m = (db : Db) (r : DrainResult) → (m db).0 ≡ done r → n ≤ r.claimed

  bind-Claims :
      {A : Type 0} (n : ℕ) (m : Action Db Fault A) (f : A → Action Db Fault DrainResult)
      → ((a : A) → Claims n (f a))
      → Claims n (m >>= f)
  bind-Claims {A} n m f h db r q = go (m db).0 (m db).1 q
    where
      go : (o : Outcome Fault A) (s : Db) → (((λ _. (o, s)) >>= f) db).0 ≡ done r → n ≤ r.claimed
      go (done a) s q = h a s r q
      go (threw x) s q = absurd (ground arith)

  Claims-less : (n m : ℕ) (a : Action Db Fault DrainResult) → n ≤ m → Claims m a → Claims n a
  Claims-less n m a h k db r q = let c = k db r q in omega arith

  pure-Claims : (r : DrainResult) → Claims r.claimed (pure r)
  pure-Claims r db r' q =
      let e : r ≡ r' = ground arith in subst (λ x. r.claimed ≤ x.claimed) e (omega arith)

  outcome-claimed : (r : DrainResult) (e : DrainEntry) → (add_outcome r e).claimed ≡ suc r.claimed
  unfolding add_outcome
  outcome-claimed r e = refl

  -- Later turns only add to the count.
  turns-Claims :
      (turns : List Turn) (r : DrainResult)
      → Claims r.claimed (drain_turns sinks name provider enabled storage turns r)
  unfolding drain_turns
  turns-Claims [] r = pure-Claims r
  turns-Claims (turn ∷ turns) r =
      bind-Claims r.claimed (claim_entry turn.claim)
        (drain_claimed sinks name provider enabled storage turn
          (λ r'. drain_turns sinks name provider enabled storage turns r') r)
        (go (turns-Claims turns))
    where
      go :
          ((r' : DrainResult)
            → Claims r'.claimed (drain_turns sinks name provider enabled storage turns r'))
          → (o : Option ClaimedEntry)
          → Claims r.claimed (
              drain_claimed sinks name provider enabled storage turn
                (λ r'. drain_turns sinks name provider enabled storage turns r')
                r
                o)
      go k none = pure-Claims r
      go k (some entry) =
          bind-Claims r.claimed (deliver_turn sinks name provider enabled storage turn entry)
            (λ e. drain_turns sinks name provider enabled storage turns (add_outcome r e))
            (λ e.
              Claims-less r.claimed (add_outcome r e).claimed
                (drain_turns sinks name provider enabled storage turns (add_outcome r e))
                (let c = outcome-claimed r e in omega arith) (k (add_outcome r e)))

  -- A drain of the lane of single sends that has claimed no message.
  pub drain-NoTurnDue :
      (turns : List Turn) (db : Db) (r : DrainResult)
      → (drain_attachment_outbox sinks name provider enabled storage turns db).0 ≡ done r
      → r.claimed ≡ 0
      → NoTurnDue turns (drain_attachment_outbox sinks name provider enabled storage turns db).1
        × MayClean db (drain_attachment_outbox sinks name provider enabled storage turns db).1
  unfolding drain_attachment_outbox drain_turns
  drain-NoTurnDue [] db r h z = (tt, inl refl)
  drain-NoTurnDue (turn ∷ turns) db r h z = go (claim_entry turn.claim db).0 refl h
    where
      next : DrainResult → Action Db Fault DrainResult
      next r' = drain_turns sinks name provider enabled storage turns r'

      run : Outcome Fault (Option ClaimedEntry) → Outcome Fault DrainResult × Db
      run o =
          ((λ _. (o, (claim_entry turn.claim db).1))
              >>= drain_claimed sinks name provider enabled storage turn next empty_result)
            db

      go :
          (o : Outcome Fault (Option ClaimedEntry))
          → (claim_entry turn.claim db).0 ≡ o
          → (run o).0 ≡ done r
          → (due_entries turn.claim (run o).1 ≡ []) × MayClean db (run o).1
      go (threw e) k q = absurd (ground arith)
      go (done none) k q = let c = claim-NoTurnDue turn.claim db k in (c.0, inr c.1)
      go (done (some entry)) k q =
          let one : 1 ≤ r.claimed =
            bind-Claims 1 (deliver_turn sinks name provider enabled storage turn entry)
              (λ e. next (add_outcome empty_result e))
              (λ e.
                Claims-less 1 (add_outcome empty_result e).claimed
                  (next (add_outcome empty_result e))
                  (let c = outcome-claimed empty_result e in omega arith)
                  (turns-Claims turns (add_outcome empty_result e)))
              (claim_entry turn.claim db).1 r q in
          absurd (omega arith)

-- Deleting stale entries of the lane of single sends leaves the batch lane as it is.
pub clean-NoBatchDue : (i : ClaimInput) (a b : Db) → MayClean a b → NoBatchDue i a → NoBatchDue i b
unfolding queued_entries
clean-NoBatchDue i a b (inl e) h = subst (NoBatchDue i) (sym e) h
clean-NoBatchDue i a b (inr e) h = subst (NoBatchDue i) (sym e) (h.0, h.1)
