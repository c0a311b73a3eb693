-- ===== src/Outbox/Attachments.antt =====
-- src/lib/attachment-outbox-service.ts: the lane that sends messages with attachments one at a time.
-- The errors' classes, the retry delays and the window are those of Outbox.Policy, since the two
-- services declare them alike.
pub mod Drain
pub mod Lease
pub mod Progress
pub mod Turns
pub mod Accounting
use resend_conversation_serv.Prelude.{
  ℕ, suc, ◌+◌, String, Bool, true, false, ◌&&◌, ◌||◌, not, Option, none, some, List, [], ◌∷◌, ◌++◌,
  ◌==◌, ltb, leb, str_eq, if◌then◌else◌, holds, null_or_past, is_null, key_le, Action, Outcome,
  done, threw, pure, transaction, ◌>>=◌, length, select, update, delete, count, find, any, order_by,
  due,
}
use resend_conversation_serv.Prelude.Text.{Text, codes}
use resend_conversation_serv.Database.{
  Db, Message, MessageState, unknown, AttachmentEntry, is_pending, Sink, Fault,
  lease_lost_before_cleanup, lease_lost_before_retry, message_changed_before_completion,
  record_not_found,
}
use resend_conversation_serv.Delivery.{project_outbound_delivery_state}
use resend_conversation_serv.Attachments.Claim.{Storage, SendAttachment, build_send_attachments}
use resend_conversation_serv.Attachments.Reaper.{LeaseInput}
use resend_conversation_serv.Outbox.Policy.{
  SendError, named_error, is_changed_payload, is_retryable_error, get_error_code,
  has_provider_window_expired, retry_delay, short_code, outbox_lease_ms,
}
use resend_conversation_serv.Outbox.Batches.{message_has_id}
use resend_conversation_serv.Outbox.Batches.Settle.{
  DrainState, accepted, failed, pending, indeterminate, DrainEntry, Readings, close_message,
}

pub record ClaimedEntry : Type 0 where
  pub message : Message
  pub lease_token : ℕ
  pub attempt_count : ℕ
  pub first_attempt_at : ℕ

abbrev pub is_stale : List Message → AttachmentEntry → Bool
is_stale messages e = any (λ m. m.id == e.message_id && not (is_pending m.state)) messages

abbrev pub is_due : LeaseInput → List Message → AttachmentEntry → Bool
is_due i messages e =
    any (λ m. m.id == e.message_id && is_pending m.state) messages
    && leb e.next_attempt_at i.now
    && null_or_past e.lease_until i.now
    && not (i.locked e.message_id)

abbrev pub queued_first : AttachmentEntry → AttachmentEntry → Bool
queued_first a b = key_le (a.queued_at, a.message_id) (b.queued_at, b.message_id)

-- LIMIT 1
unfoldable pub due_entries : LeaseInput → Db → List AttachmentEntry
unfolding due
due_entries i db = due queued_first (is_due i db.messages) 1 db.attachment_entries

abbrev pub first_attempt : Option ℕ → ℕ → ℕ
first_attempt none now = now
first_attempt (some t) now = t

abbrev pub lease_entry : LeaseInput → AttachmentEntry → AttachmentEntry
lease_entry i e = record e {
  lease_token = some i.token;
  lease_until = some (i.now + outbox_lease_ms);
  attempt_count = suc e.attempt_count;
  last_error_code = none;
  first_attempt_at = some (first_attempt e.first_attempt_at i.now);
}

-- `include: { message: true }`
abbrev pub claimed_entry :
    LeaseInput → AttachmentEntry → Option Message → Outcome Fault (Option ClaimedEntry)
claimed_entry i e none = threw record_not_found
claimed_entry i e (some m) = done (
    some (record {
      message = m;
      lease_token = i.token;
      attempt_count = suc e.attempt_count;
      first_attempt_at = first_attempt e.first_attempt_at i.now;
    }))

abbrev pub lease_first : LeaseInput → List AttachmentEntry → Action Db Fault (Option ClaimedEntry)
lease_first i [] db = (done none, db)
lease_first i (e ∷ es) db = (
  claimed_entry i e (find (message_has_id e.message_id) db.messages),
  record db {
    attachment_entries =
        update (λ x. x.message_id == e.message_id) (lease_entry i) db.attachment_entries;
  },
)

abbrev pub clean : Db → Db
clean db = record db { attachment_entries = delete (is_stale db.messages) db.attachment_entries }

unfoldable pub claim_entry : LeaseInput → Action Db Fault (Option ClaimedEntry)
unfolding due_entries
claim_entry i = transaction (λ db. lease_first i (due_entries i (clean db)) (clean db))

abbrev pub owned : ClaimedEntry → AttachmentEntry → Bool
owned entry e = e.message_id == entry.message.id && holds e.lease_token entry.lease_token

unfoldable pub delete_owned_entry : ClaimedEntry → Action Db Fault (Unit {0})
delete_owned_entry entry db =
    let deleted = count (owned entry) db.attachment_entries in
    let db' = record db { attachment_entries = delete (owned entry) db.attachment_entries } in
    if deleted == 1 then (done tt, db') else (threw lease_lost_before_cleanup, db')

abbrev pub is_open : ClaimedEntry → Message → Bool
is_open entry m = m.id == entry.message.id && is_pending m.state

abbrev pub accept_message : String → Message → Message
accept_message resend_email_id m = record m {
  state = MessageState.accepted;
  state_detail = none;
  delivery_state = some unknown;
  resend_email_id = some resend_email_id;
}

abbrev pub update_accepted : ClaimedEntry → String → Action Db Fault (Unit {0})
update_accepted entry resend_email_id db =
    let db' = record db {
      messages = update (is_open entry) (accept_message resend_email_id) db.messages;
    } in
    if count (is_open entry) db.messages == 1
    then (done tt, db')
    else (threw message_changed_before_completion, db')

unfoldable pub accept : List Sink → ClaimedEntry → String → Action Db Fault (Unit {0})
unfolding delete_owned_entry
accept sinks entry resend_email_id = transaction (
    update_accepted entry resend_email_id >>= λ _.
    project_outbound_delivery_state sinks resend_email_id >>= λ _. delete_owned_entry entry)

abbrev pub close_messages : ClaimedEntry → MessageState → Text → Action Db Fault (Unit {0})
close_messages entry state detail db = (
  done tt,
  record db { messages = update (is_open entry) (close_message state detail) db.messages },
)

unfoldable pub finalize : ClaimedEntry → MessageState → Text → Action Db Fault (Unit {0})
unfolding delete_owned_entry
finalize entry state detail =
    transaction (close_messages entry state detail >>= λ _. delete_owned_entry entry)

abbrev pub release_entry : ℕ → Text → AttachmentEntry → AttachmentEntry
release_entry next_attempt_at error_code e = record e {
  next_attempt_at = next_attempt_at;
  lease_token = none;
  lease_until = none;
  last_error_code = some (short_code error_code);
}

unfoldable pub schedule_retry : ClaimedEntry → ℕ → Text → Action Db Fault (Unit {0})
schedule_retry entry now error_code db =
    let released = count (owned entry) db.attachment_entries in
    let db' = record db {
      attachment_entries =
          update (owned entry) (release_entry (now + retry_delay entry.attempt_count) error_code)
            db.attachment_entries;
    } in
    if released == 1 then (done tt, db') else (threw lease_lost_before_retry, db')

abbrev pub outcome : ClaimedEntry → DrainState → Option String → DrainEntry
outcome entry state id = record {
  message_id = entry.message.id;
  state = state;
  resend_email_id = id;
}

unfoldable pub window_detail : Text
window_detail = codes "Attachment outbox entry exceeded the provider idempotency window"

unfoldable pub changed_payload_detail : Text
changed_payload_detail = codes "Resend rejected a changed payload for the persisted entry key"

unfoldable pub failed_detail : Text → Text
failed_detail error_code = codes "Resend send request failed (" ++ error_code ++ codes ")"

abbrev pub give_up : ClaimedEntry → Text → Action Db Fault DrainEntry
give_up entry detail = finalize entry MessageState.indeterminate detail >>= λ _.
    pure (outcome entry indeterminate none)

abbrev pub retry : ClaimedEntry → ℕ → Text → Action Db Fault DrainEntry
retry entry now error_code =
    schedule_retry entry now error_code >>= λ _. pure (outcome entry pending none)

abbrev pub fail : ClaimedEntry → Text → Action Db Fault DrainEntry
fail entry detail =
    finalize entry MessageState.failed detail >>= λ _. pure (outcome entry failed none)

-- The `catch` block.
unfoldable pub handle_error : ClaimedEntry → Readings → SendError → Action Db Fault DrainEntry
unfolding finalize schedule_retry window_detail changed_payload_detail failed_detail
handle_error entry at error =
    if is_changed_payload error
    then give_up entry changed_payload_detail
    else if is_retryable_error error
    then (if has_provider_window_expired at.retry_checked_at entry.first_attempt_at
        then give_up entry window_detail
        else retry entry at.retry_at (get_error_code error))
    else fail entry (failed_detail (get_error_code error))

-- What the `try` block's own exceptions are to the `catch` block; `name` is their `error.name`.
abbrev pub handle_threw :
    (Fault → Text)
    → (SendError → Action Db Fault DrainEntry)
    → Outcome Fault DrainEntry × Db
    → Outcome Fault DrainEntry × Db
handle_threw name handler (done e, db) = (done e, db)
handle_threw name handler (threw f, db) = handler (named_error (name f)) db

abbrev pub catching :
    (Fault → Text)
    → (SendError → Action Db Fault DrainEntry)
    → Action Db Fault DrainEntry
    → Action Db Fault DrainEntry
catching name handler m db = handle_threw name handler (m db)

-- What a single send answers: an identifier (`none` where it is not a string), or an exception.
pub data SendAnswer : Type 0 where
  sent : Option String → SendAnswer
  refused : SendError → SendAnswer

-- The message, its attachments and the message's identifier, from which the idempotency key is made.
abbrev pub SingleProvider : Type 0
SingleProvider = Message → List SendAttachment → ℕ → SendAnswer

unfoldable pub invalid_response : Text
invalid_response = codes "invalid_send_response"

abbrev pub accept_sent : List Sink → ClaimedEntry → String → Action Db Fault DrainEntry
accept_sent sinks entry id = accept sinks entry id >>= λ _. pure (outcome entry accepted (some id))

abbrev pub settle_sent :
    List Sink
    → (Fault → Text)
    → ClaimedEntry
    → Readings
    → Option String
    → Action Db Fault DrainEntry
settle_sent sinks name entry at none =
    catching name (handle_error entry at) (retry entry at.answered_at invalid_response)
settle_sent sinks name entry at (some id) =
    if str_eq id ""
    then catching name (handle_error entry at) (retry entry at.answered_at invalid_response)
    else catching name (handle_error entry at) (accept_sent sinks entry id)

abbrev pub settle_answer :
    List Sink → (Fault → Text) → ClaimedEntry → Readings → SendAnswer → Action Db Fault DrainEntry
settle_answer sinks name entry at (sent id) = settle_sent sinks name entry at id
settle_answer sinks name entry at (refused error) = handle_error entry at error

abbrev pub send_prepared :
    List Sink
    → (Fault → Text)
    → SingleProvider
    → ClaimedEntry
    → Readings
    → Outcome SendError (List SendAttachment)
    → Action Db Fault DrainEntry
send_prepared sinks name provider entry at (threw error) = handle_error entry at error
send_prepared sinks name provider entry at (done attachments) =
    settle_answer sinks name entry at (provider entry.message attachments entry.message.id)

unfoldable pub is_given_up : ClaimedEntry → Readings → Bool
is_given_up entry at =
    ltb 1 entry.attempt_count && has_provider_window_expired at.checked_at entry.first_attempt_at

-- `prepared` are the attachments, which are read outside any transaction.
unfoldable pub deliver_entry :
    List Sink
    → (Fault → Text)
    → SingleProvider
    → Outcome SendError (List SendAttachment)
    → Readings
    → ClaimedEntry
    → Action Db Fault DrainEntry
unfolding is_given_up handle_error accept invalid_response
deliver_entry sinks name provider prepared at entry =
    if is_given_up entry at
    then give_up entry window_detail
    else send_prepared sinks name provider entry at prepared
