-- ===== src/Outbox/Batches/Endings.antt =====
-- The ways in which settling a batch ends.
use resend_conversation_serv.Prelude.{
  ℕ, String, Bool, true, false, Option, none, some, List, Action, length, ◌==◌, if◌then◌else◌,
}
use resend_conversation_serv.Prelude.Text.{Text}
use resend_conversation_serv.Database.{Db, Sink, Fault}
use resend_conversation_serv.Outbox.Policy.{
  SendError, is_changed_payload, is_retryable_error, get_error_code, has_provider_window_expired,
}
use resend_conversation_serv.Outbox.Batches.{ClaimedBatch}
use resend_conversation_serv.Outbox.Batches.Settle.{
  DrainResult, Readings, finalize_accepted_batch, finalize_failed_batch,
  finalize_indeterminate_batch, schedule_batch_retry, release_owned, window_detail,
  changed_payload_detail,
}
use resend_conversation_serv.Outbox.Batches.Drain.{
  BatchAnswer, response, refused, Provider, valid_ids, settle_batch, settle_answer, settle_response,
  settle_error, is_given_up, invalid_response,
}

-- What each of the four functions ensures.
pub record Endings (P : Action Db Fault DrainResult → Type 0) (sinks : List Sink)
    (batch : ClaimedBatch) : Type 0 where
  pub accepting : (ids : List String) → P (finalize_accepted_batch sinks batch ids)
  pub failing : (code : Text) → P (finalize_failed_batch batch code)
  pub giving_up : (detail : Text) → P (finalize_indeterminate_batch batch detail)
  pub releasing : (now : ℕ) (code : Text) → P (release_owned batch now code)

module _ (P : Action Db Fault DrainResult → Type 0) (sinks : List Sink) (batch : ClaimedBatch)
    (e : Endings P sinks batch) (at : Readings) where
  either : (b : Bool) (m n : Action Db Fault DrainResult) → P m → P n → P (if b then m else n)
  either true m n h k = h
  either false m n h k = k

  retry_ends : (code : Text) → P (schedule_batch_retry batch at code)
  unfolding schedule_batch_retry
  retry_ends code =
      either (has_provider_window_expired at.retry_checked_at batch.first_attempt_at)
        (finalize_indeterminate_batch batch window_detail) (release_owned batch at.retry_at code)
        (e.giving_up window_detail) (e.releasing at.retry_at code)

  response_ends : (b : Bool) (ids : Option (List String)) → P (settle_response sinks batch at b ids)
  response_ends true (some ids) = e.accepting ids
  response_ends true none = retry_ends invalid_response
  response_ends false ids = retry_ends invalid_response

  error_ends : (error : SendError) → P (settle_error batch at error)
  error_ends error = either (is_changed_payload error) _ _ (e.giving_up changed_payload_detail) (
      either (is_retryable_error error) _ _ (retry_ends (get_error_code error))
        (e.failing (get_error_code error)))

  answer_ends : (answer : BatchAnswer) → P (settle_answer sinks batch at answer)
  answer_ends (response items) =
      response_ends (length items == length batch.messages) (valid_ids items)
  answer_ends (refused error) = error_ends error

  -- What the four functions ensure, settling a batch ensures.
  pub settle_ends : (provider : Provider) → P (settle_batch sinks provider at batch)
  unfolding settle_batch
  settle_ends provider =
      either (is_given_up batch at) (finalize_indeterminate_batch batch window_detail)
        (settle_answer sinks batch at (provider batch.id batch.messages))
        (e.giving_up window_detail) (answer_ends (provider batch.id batch.messages))
