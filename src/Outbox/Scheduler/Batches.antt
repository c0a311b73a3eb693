-- ===== src/Outbox/Scheduler/Batches.antt =====
-- A drain of the batch lane that has claimed nothing.
use resend_conversation_serv.Prelude.{
  ℕ, ◌≡◌, ◌≢◌, ◌⊎◌, inl, inr, refl, sym, ◌∙◌, Option, none, some, List, [], ◌∷◌, arith, Outcome,
  done, threw, ◌>>=◌, any, find, not, length, Bool-cases,
}
use resend_conversation_serv.Database.{Db, Message, Batch, Entry, Sink, Fault, is_pending}
use resend_conversation_serv.Outbox.Batches.{
  ClaimedBatch, ClaimInput, retryable_batch, queued_entries, delete_stale, lease_existing_or_new,
  lease_tables, checked_batch, read_batch, read_claimed, claim_outbox_batch, batch_has_id,
}
use resend_conversation_serv.Outbox.Batches.Settle.{DrainEntry, Readings}
use resend_conversation_serv.Outbox.Batches.Settle as Settle
use resend_conversation_serv.Outbox.Batches.Drain.{Provider, settle_claimed, drain_email_outbox}
use resend_conversation_serv.Outbox.Batches.Accounting.{settle-Accounted}

-- No batch is ready to be sent again, and no message waits for its first batch.
abbrev pub NoBatchDue : ClaimInput → Db → Type 0
NoBatchDue i db = (retryable_batch i db.batches ≡ none) × (queued_entries i db ≡ [])

-- The claim takes a batch that has no messages.
abbrev pub EmptyBatch : ClaimInput → Db → Type 0
EmptyBatch i db =
    (b : ClaimedBatch) × ((claim_outbox_batch i db).0 ≡ done (some b)) × (b.messages ≡ [])

read_batch-some : (i : ClaimInput) (db : Db) (o : Option Batch) → read_batch i db o ≢ done none
read_batch-some i db none = λ q. cc
read_batch-some i db (some b) = first b.first_attempt_at _
  where
    first : (o : Option ℕ) (ms : List Message) → checked_batch i b o ms ≢ done none
    first none ms = λ q. cc
    first (some t) ms = elim (Bool-cases (any (λ m. not (is_pending m.state)) ms)) [
      | inl e ↦ λ q. let k : threw _ ≡ done none = rw e at q in cc
      | inr e ↦ λ q. let k : done (some _) ≡ done none = rw e at q in cc
    ]

leased-some : (i : ClaimInput) (id : ℕ) (db : Db) → read_claimed i (some id, db) ≢ done none
leased-some i id db = read_batch-some i db (find (batch_has_id id) db.batches)

-- A claim that takes nothing leaves nothing due.
claim-NoBatchDue :
    (i : ClaimInput) (db : Db)
    → (claim_outbox_batch i db).0 ≡ done none
    → NoBatchDue i (claim_outbox_batch i db).1
unfolding claim_outbox_batch lease_tables
claim-NoBatchDue i db h =
    go (retryable_batch i (delete_stale db).batches) (queued_entries i (delete_stale db)) refl refl
      h
  where
    go :
        (o : Option Batch) (es : List Entry)
        → retryable_batch i (delete_stale db).batches ≡ o
        → queued_entries i (delete_stale db) ≡ es
        → read_claimed i (lease_existing_or_new i o es (delete_stale db)) ≡ done none
        → NoBatchDue i (lease_existing_or_new i o es (delete_stale db)).1
    go none [] e f q = (e, f)
    go none (x ∷ es) e f q =
        let cleaned = delete_stale db in
        absurd (
          leased-some i (cleaned.uuid cleaned.drawn)
            (lease_existing_or_new i none (x ∷ es) cleaned).1 q)
    go (some b) es e f q =
        absurd (leased-some i b.id (lease_existing_or_new i (some b) es (delete_stale db)).1 q)

nil-messages : (ms : List Message) → length ms ≡ 0 → ms ≡ []
nil-messages [] h = refl
nil-messages (m ∷ ms) h = absurd (omega (arith, h))

-- A drain of the batch lane that has claimed no message.
pub drain-NoBatchDue :
    (sinks : List Sink) (provider : Provider) (i : ClaimInput) (at : Readings) (meanwhile : Db → Db)
    (db : Db) (r : Settle.DrainResult)
    → (drain_email_outbox sinks provider i at meanwhile db).0 ≡ done r
    → r.claimed ≡ 0
    → NoBatchDue i (drain_email_outbox sinks provider i at meanwhile db).1 ⊎ EmptyBatch i db
unfolding drain_email_outbox
drain-NoBatchDue sinks provider i at meanwhile db r h z = go (claim_outbox_batch i db).0 refl h
  where
    claimed : Outcome Fault (Option ClaimedBatch) → Outcome Fault Settle.DrainResult × Db
    claimed o =
        ((λ _. (o, (claim_outbox_batch i db).1)) >>= settle_claimed sinks provider at meanwhile) db

    go :
        (o : Outcome Fault (Option ClaimedBatch))
        → (claim_outbox_batch i db).0 ≡ o
        → (claimed o).0 ≡ done r
        → NoBatchDue i (claimed o).1 ⊎ EmptyBatch i db
    go (threw e) k q = absurd (ground arith)
    go (done none) k q = inl (claim-NoBatchDue i db k)
    go (done (some b)) k q =
        let counted =
          settle-Accounted sinks provider at b (meanwhile (claim_outbox_batch i db).1) r q in
        inr (b, k, nil-messages b.messages (sym counted.claimed ∙ z))
