-- ===== src/Outbox/Batches/Absorbed.antt =====
-- What settling a batch makes of the provider's errors.
use resend_conversation_serv.Prelude.{
  ℕ, ◌≡◌, refl, Bool, true, false, Option, none, some, List, [], ◌∷◌, arith, Bool-cases, inl, inr,
  Action, done, transaction, find, count, count-find, update, delete, is_null, if◌then◌else◌,
}
use resend_conversation_serv.Prelude.Text.{Text}
use resend_conversation_serv.Database.{Db, Batch, Sink, Fault}
use resend_conversation_serv.Outbox.Policy.{
  SendError, is_changed_payload, is_retryable_error, get_error_code, has_provider_window_expired,
}
use resend_conversation_serv.Outbox.Batches.{ClaimedBatch}
use resend_conversation_serv.Outbox.Batches.Settle.{
  DrainState, DrainResult, Readings, owned, assert_lease_owner, delete_owned_batch,
  terminal_drain_result, retry_result, finalize_failed_batch, finalize_indeterminate_batch,
  schedule_batch_retry, release_owned, release_batch, window_detail, changed_payload_detail,
}
use resend_conversation_serv.Outbox.Batches.Drain.{refused, settle_batch, settle_error, is_given_up}

-- The action returns a result, and the worker's lease is no more.
abbrev Settled : ClaimedBatch → Db → Action Db Fault DrainResult → Type 0
Settled batch db m =
    ((r : DrainResult) × ((m db).0 ≡ done r)) × (count (owned batch) (m db).1.batches ≡ 0)

count-delete : (p : Batch → Bool) (rows : List Batch) → count p (delete p rows) ≡ 0
count-delete p [] = refl
count-delete p (b ∷ rows) = elim (Bool-cases (p b)) [
  | inl e ↦ rw e (count-delete p rows)
  | inr e ↦ rw (e, e) (count-delete p rows)
]

count-update :
    (p : Batch → Bool) (f : Batch → Batch) (rows : List Batch)
    → ((b : Batch) → p (f b) ≡ false)
    → count p (update p f rows) ≡ 0
count-update p f [] h = refl
count-update p f (b ∷ rows) h = elim (Bool-cases (p b)) [
  | inl e ↦ rw (e, h b) (count-update p f rows h)
  | inr e ↦ rw (e, e) (count-update p f rows h)
]

module _ (batch : ClaimedBatch) (db : Db) (mine : count (owned batch) db.batches ≡ 1) where
  found : is_null (find (owned batch) db.batches) ≡ false
  found = go (find (owned batch) db.batches) refl
    where
      go : (o : Option Batch) → find (owned batch) db.batches ≡ o → is_null o ≡ false
      go none e = let z = count-find (owned batch) db.batches e in absurd (omega arith)
      go (some b) e = refl

  failed-Settled : (code : Text) → Settled batch db (finalize_failed_batch batch code)
  unfolding finalize_failed_batch transaction assert_lease_owner delete_owned_batch
  failed-Settled code =
      rw (found, mine)
        (
          (terminal_drain_result batch DrainState.failed, refl),
          count-delete (owned batch) db.batches,
        )

  indeterminate-Settled :
      (detail : Text) → Settled batch db (finalize_indeterminate_batch batch detail)
  unfolding finalize_indeterminate_batch transaction assert_lease_owner delete_owned_batch
  indeterminate-Settled detail =
      rw (found, mine)
        (
          (terminal_drain_result batch DrainState.indeterminate, refl),
          count-delete (owned batch) db.batches,
        )

  released-Settled : (now : ℕ) (code : Text) → Settled batch db (release_owned batch now code)
  released-Settled now code = rw mine (
    (retry_result batch, refl),
    count-update (owned batch) (release_batch _ code) db.batches (λ b. ground arith),
  )

  if-Settled :
      (b : Bool) (m n : Action Db Fault DrainResult)
      → Settled batch db m
      → Settled batch db n
      → Settled batch db (if b then m else n)
  if-Settled true m n h k = h
  if-Settled false m n h k = k

  retry-Settled :
      (at : Readings) (code : Text) → Settled batch db (schedule_batch_retry batch at code)
  unfolding schedule_batch_retry
  retry-Settled at code =
      if-Settled (has_provider_window_expired at.retry_checked_at batch.first_attempt_at)
        (finalize_indeterminate_batch batch window_detail) (release_owned batch at.retry_at code)
        (indeterminate-Settled window_detail) (released-Settled at.retry_at code)

  error-Settled :
      (at : Readings) (error : SendError) → Settled batch db (settle_error batch at error)
  error-Settled at error =
      if-Settled (is_changed_payload error)
        (finalize_indeterminate_batch batch changed_payload_detail) _
        (indeterminate-Settled changed_payload_detail)
        (if-Settled (is_retryable_error error)
          (schedule_batch_retry batch at (get_error_code error))
          (finalize_failed_batch batch (get_error_code error))
          (retry-Settled at (get_error_code error)) (failed-Settled (get_error_code error)))

-- If one batch row holds the worker's lease, then whatever error the provider throws and whatever the
-- time, settling the batch returns a result, and afterwards no batch row holds that lease.
pub settle-error_absorbed :
    (sinks : List Sink) (error : SendError) (at : Readings) (batch : ClaimedBatch) (db : Db)
    → count (owned batch) db.batches ≡ 1
    → ((r : DrainResult) × ((settle_batch sinks (λ id messages. refused error) at batch db).0
          ≡ done r))
      × (count
            (owned batch)
            (settle_batch sinks (λ id messages. refused error) at batch db).1.batches
          ≡ 0)
unfolding settle_batch
settle-error_absorbed sinks error at batch db mine =
    if-Settled batch db mine (is_given_up batch at)
      (finalize_indeterminate_batch batch window_detail) (settle_error batch at error)
      (indeterminate-Settled batch db mine window_detail) (error-Settled batch db mine at error)
