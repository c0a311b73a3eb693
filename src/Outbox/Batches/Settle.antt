-- ===== src/Outbox/Batches/Settle.antt =====
-- src/lib/outbox-service.ts: the provider's answer, and the transaction that each outcome ends in.
use resend_conversation_serv.Prelude.{
  ℕ, ◌+◌, Bool, ◌&&◌, not, Option, none, some, List, [], ◌∷◌, ◌++◌, map, ◌==◌, String,
  if◌then◌else◌, holds, is_null, Action, done, threw, pure, transaction, ◌>>=◌, length, update,
  delete, count, find, any,
}
use resend_conversation_serv.Prelude.Text.{Text, codes}
use resend_conversation_serv.Database.{
  Db, Message, MessageState, unknown, Batch, is_pending, Sink, Fault, lease_lost_before_completion,
  lease_lost_before_cleanup, lease_lost_before_retry, message_changed_before_completion,
}
use resend_conversation_serv.Delivery.{project_outbound_delivery_state}
use resend_conversation_serv.Outbox.Policy.{has_provider_window_expired, retry_delay, short_code}
use resend_conversation_serv.Outbox.Batches.{ClaimedBatch, in_batch}

pub data DrainState : Type 0 where
  accepted failed pending indeterminate : DrainState

pub record DrainEntry : Type 0 where
  pub message_id : ℕ
  pub state : DrainState
  pub resend_email_id : Option String

pub record DrainResult : Type 0 where
  pub batch_id : Option ℕ
  pub claimed : ℕ
  pub accepted : ℕ
  pub failed : ℕ
  pub retry_scheduled : ℕ
  pub indeterminate : ℕ
  pub results : List DrainEntry

abbrev pub empty_drain_result : DrainResult
empty_drain_result = record {
  batch_id = none;
  claimed = 0;
  accepted = 0;
  failed = 0;
  retry_scheduled = 0;
  indeterminate = 0;
  results = [];
}

-- where: { id: batch.id, leaseToken: batch.leaseToken }
abbrev pub owned : ClaimedBatch → Batch → Bool
owned batch b = b.id == batch.id && holds b.lease_token batch.lease_token

unfoldable pub assert_lease_owner : ClaimedBatch → Action Db Fault (Unit {0})
assert_lease_owner batch db =
    if is_null (find (owned batch) db.batches)
    then (threw lease_lost_before_completion, db)
    else (done tt, db)

-- Deleting a batch deletes its entries (ON DELETE CASCADE).
unfoldable pub delete_owned_batch : ClaimedBatch → Action Db Fault (Unit {0})
delete_owned_batch batch db =
    let deleted = count (owned batch) db.batches in
    let db' = record db {
      batches = delete (owned batch) db.batches;
      entries = if deleted == 0 then db.entries else delete (in_batch batch.id) db.entries;
    } in
    if deleted == 1 then (done tt, db') else (threw lease_lost_before_cleanup, db')

abbrev pub is_message_of : List Message → Message → Bool
is_message_of messages m = any (λ x. x.id == m.id) messages

-- The VALUES list of accepted messages: the provider's identifier for a message.
abbrev pub accepted_id : List Message → List String → ℕ → Option String
accepted_id [] ids id = none
accepted_id (m ∷ ms) [] id = none
accepted_id (m ∷ ms) (r ∷ rs) id =
    let rest = accepted_id ms rs id in if m.id == id then some r else rest

abbrev pub is_accepted : List Message → List String → Message → Bool
is_accepted messages ids m = not (is_null (accepted_id messages ids m.id)) && is_pending m.state

abbrev pub accept_message : List Message → List String → Message → Message
accept_message messages ids m = record m {
  state = MessageState.accepted;
  state_detail = none;
  delivery_state = some unknown;
  resend_email_id = accepted_id messages ids m.id;
}

abbrev pub update_accepted : ClaimedBatch → List String → Action Db Fault (Unit {0})
update_accepted batch ids db =
    let p = is_accepted batch.messages ids in
    let db' = record db { messages = update p (accept_message batch.messages ids) db.messages } in
    if count p db.messages == length batch.messages
    then (done tt, db')
    else (threw message_changed_before_completion, db')

-- for (const resendEmailId of resendEmailIds) await reconcileOutboundDeliveryState(…)
unfoldable pub reconcile_all : List Sink → List String → Action Db Fault (Unit {0})
reconcile_all sinks [] = pure tt
reconcile_all sinks (id ∷ ids) =
    project_outbound_delivery_state sinks id >>= λ _. reconcile_all sinks ids

abbrev pub drain_entries : List Message → List String → List DrainEntry
drain_entries [] ids = []
drain_entries (m ∷ ms) [] =
    record { message_id = m.id; state = accepted; resend_email_id = none } ∷ drain_entries ms []
drain_entries (m ∷ ms) (r ∷ rs) =
    record { message_id = m.id; state = accepted; resend_email_id = some r } ∷ drain_entries ms rs

abbrev pub acceptance : List Sink → ClaimedBatch → List String → Action Db Fault (Unit {0})
acceptance sinks batch ids = assert_lease_owner batch >>= λ _.
    update_accepted batch ids >>= λ _. reconcile_all sinks ids >>= λ _. delete_owned_batch batch

abbrev pub accepted_result : ClaimedBatch → List String → DrainResult
accepted_result batch ids = record {
  batch_id = some batch.id;
  claimed = length batch.messages;
  accepted = length batch.messages;
  failed = 0;
  retry_scheduled = 0;
  indeterminate = 0;
  results = drain_entries batch.messages ids;
}

unfoldable pub finalize_accepted_batch :
    List Sink → ClaimedBatch → List String → Action Db Fault DrainResult
unfolding assert_lease_owner reconcile_all delete_owned_batch
finalize_accepted_batch sinks batch ids =
    transaction (acceptance sinks batch ids) >>= λ _. pure (accepted_result batch ids)

-- updateMany over the batch's messages that are still PENDING.
abbrev pub is_open : ClaimedBatch → Message → Bool
is_open batch m = is_message_of batch.messages m && is_pending m.state

abbrev pub close_message : MessageState → Text → Message → Message
close_message state detail m = record m { state = state; state_detail = some detail }

abbrev pub close_messages : ClaimedBatch → MessageState → Text → Action Db Fault (Unit {0})
close_messages batch state detail db = (
  done tt,
  record db { messages = update (is_open batch) (close_message state detail) db.messages },
)

abbrev pub entry_with : DrainState → Message → DrainEntry
entry_with state m = record { message_id = m.id; state = state; resend_email_id = none }

abbrev pub terminal_drain_result : ClaimedBatch → DrainState → DrainResult
terminal_drain_result batch state = record {
  batch_id = some batch.id;
  claimed = length batch.messages;
  accepted = 0;
  failed = elim state [ failed ↦ length batch.messages | _ ↦ 0 ];
  retry_scheduled = 0;
  indeterminate = elim state [ indeterminate ↦ length batch.messages | _ ↦ 0 ];
  results = map (entry_with state) batch.messages;
}

abbrev pub closure : ClaimedBatch → MessageState → Text → Action Db Fault (Unit {0})
closure batch state detail = assert_lease_owner batch >>= λ _.
    close_messages batch state detail >>= λ _. delete_owned_batch batch

unfoldable pub failed_detail : Text → Text
failed_detail error_code = codes "Resend batch request failed (" ++ error_code ++ codes ")"

unfoldable pub finalize_failed_batch : ClaimedBatch → Text → Action Db Fault DrainResult
unfolding assert_lease_owner delete_owned_batch failed_detail
finalize_failed_batch batch error_code =
    transaction (closure batch MessageState.failed (failed_detail error_code)) >>= λ _.
    pure (terminal_drain_result batch failed)

unfoldable pub finalize_indeterminate_batch : ClaimedBatch → Text → Action Db Fault DrainResult
unfolding assert_lease_owner delete_owned_batch
finalize_indeterminate_batch batch detail =
    transaction (closure batch MessageState.indeterminate detail) >>= λ _.
    pure (terminal_drain_result batch indeterminate)

unfoldable pub window_detail : Text
window_detail = codes "Outbox batch exceeded the provider idempotency window"

unfoldable pub changed_payload_detail : Text
changed_payload_detail = codes "Resend rejected a changed payload for the persisted batch key"

abbrev pub release_batch : ℕ → Text → Batch → Batch
release_batch next_attempt_at error_code b = record b {
  next_attempt_at = next_attempt_at;
  lease_token = none;
  lease_until = none;
  last_error_code = some (short_code error_code);
}

abbrev pub retry_result : ClaimedBatch → DrainResult
retry_result batch = record {
  batch_id = some batch.id;
  claimed = length batch.messages;
  accepted = 0;
  failed = 0;
  retry_scheduled = length batch.messages;
  indeterminate = 0;
  results = map (entry_with pending) batch.messages;
}

abbrev pub release_owned : ClaimedBatch → ℕ → Text → Action Db Fault DrainResult
release_owned batch now error_code db =
    let released = count (owned batch) db.batches in
    let db' = record db {
      batches =
          update (owned batch) (release_batch (now + retry_delay batch.attempt_count) error_code)
            db.batches;
    } in
    if released == 1 then (done (retry_result batch), db') else (threw lease_lost_before_retry, db')

-- The clock readings of a settlement: before sending, before a retry, and for its time; `answered_at`
-- is that of the retry of a single send after an invalid response, before anything is caught.
pub record Readings : Type 0 where
  pub checked_at : ℕ
  pub retry_checked_at : ℕ
  pub retry_at : ℕ
  pub answered_at : ℕ

unfoldable pub schedule_batch_retry : ClaimedBatch → Readings → Text → Action Db Fault DrainResult
unfolding finalize_indeterminate_batch window_detail
schedule_batch_retry batch at error_code =
    if has_provider_window_expired at.retry_checked_at batch.first_attempt_at
    then finalize_indeterminate_batch batch window_detail
    else release_owned batch at.retry_at error_code
