-- ===== src/Outbox/Batches/Drain.antt =====
-- src/lib/outbox-service.ts: drainEmailOutbox. The provider is an argument: what a call with an
-- idempotency key (the batch's identifier) and messages answers. `meanwhile` is what other
-- transactions do between the claim and the settlement.
use resend_conversation_serv.Prelude.{
  ℕ, ltb, String, Bool, true, ◌&&◌, Option, none, some, List, [], ◌∷◌, ◌==◌, str_eq, if◌then◌else◌,
  Action, done, ◌>>=◌, length,
}
use resend_conversation_serv.Prelude.Text.{Text, codes}
use resend_conversation_serv.Database.{Db, Message, Sink, Fault}
use resend_conversation_serv.Outbox.Policy.{
  SendError, is_changed_payload, is_retryable_error, get_error_code, has_provider_window_expired,
}
use resend_conversation_serv.Outbox.Batches.{ClaimedBatch, ClaimInput, claim_outbox_batch}
use resend_conversation_serv.Outbox.Batches.Settle.{
  DrainResult, Readings, empty_drain_result, finalize_accepted_batch, finalize_failed_batch,
  finalize_indeterminate_batch, schedule_batch_retry, window_detail, changed_payload_detail,
}

-- An item's `id` is `none` where it is not a string.
pub data BatchAnswer : Type 0 where
  response : List (Option String) → BatchAnswer
  refused : SendError → BatchAnswer

abbrev pub Provider : Type 0
Provider = ℕ → List Message → BatchAnswer

-- The identifiers of a response in which every item has a nonempty one.
abbrev pub add_id : Option String → Option (List String) → Option (List String)
add_id (some id) (some ids) = if str_eq id "" then none else some (id ∷ ids)
add_id _ _ = none

unfoldable pub valid_ids : List (Option String) → Option (List String)
valid_ids [] = some []
valid_ids (id ∷ items) = add_id id (valid_ids items)

unfoldable pub invalid_response : Text
invalid_response = codes "invalid_batch_response"

abbrev pub settle_response :
    List Sink → ClaimedBatch → Readings → Bool → Option (List String) → Action Db Fault DrainResult
settle_response sinks batch at true (some ids) = finalize_accepted_batch sinks batch ids
settle_response sinks batch at _ _ = schedule_batch_retry batch at invalid_response

abbrev pub settle_error : ClaimedBatch → Readings → SendError → Action Db Fault DrainResult
settle_error batch at error =
    if is_changed_payload error
    then finalize_indeterminate_batch batch changed_payload_detail
    else if is_retryable_error error
    then schedule_batch_retry batch at (get_error_code error)
    else finalize_failed_batch batch (get_error_code error)

abbrev pub settle_answer :
    List Sink → ClaimedBatch → Readings → BatchAnswer → Action Db Fault DrainResult
settle_answer sinks batch at (response items) =
    settle_response sinks batch at (length items == length batch.messages) (valid_ids items)
settle_answer sinks batch at (refused error) = settle_error batch at error

-- A batch that was sent before and whose window has passed is not sent again.
unfoldable pub is_given_up : ClaimedBatch → Readings → Bool
is_given_up batch at =
    ltb 1 batch.attempt_count && has_provider_window_expired at.checked_at batch.first_attempt_at

unfoldable pub settle_batch :
    List Sink → Provider → Readings → ClaimedBatch → Action Db Fault DrainResult
unfolding valid_ids invalid_response is_given_up
settle_batch sinks provider at batch =
    if is_given_up batch at
    then finalize_indeterminate_batch batch window_detail
    else settle_answer sinks batch at (provider batch.id batch.messages)

abbrev pub settle_claimed :
    List Sink → Provider → Readings → (Db → Db) → Option ClaimedBatch → Action Db Fault DrainResult
settle_claimed sinks provider at meanwhile none db = (done empty_drain_result, db)
settle_claimed sinks provider at meanwhile (some batch) db =
    settle_batch sinks provider at batch (meanwhile db)

unfoldable pub drain_email_outbox :
    List Sink → Provider → ClaimInput → Readings → (Db → Db) → Action Db Fault DrainResult
drain_email_outbox sinks provider i at meanwhile =
    claim_outbox_batch i >>= settle_claimed sinks provider at meanwhile
