-- ===== src/Examples/Data.antt =====
-- A small database: two outbound messages, their batches, a conversation with two events, and files.
use resend_conversation_serv.Prelude.{ℕ, ◌+◌, false, none, some, List, [], ◌∷◌, String}
use resend_conversation_serv.Prelude.Text.{codes}
use resend_conversation_serv.Database.{
  Db, Message, pending, outbound, conversation_kind, Batch, Entry, AttachmentEntry, Attachment,
  AttachmentState, attachment, Conversation, awaiting_us, ConversationEvent, EventDelivery,
  message_received, nats, EmailEvent, empty_db, AttachmentSource,
}
use resend_conversation_serv.Outbox.Batches.{ClaimedBatch, ClaimInput}
use resend_conversation_serv.Outbox.Batches.Settle.{Readings}
use resend_conversation_serv.Attachments.Reaper.{LeaseInput}
use resend_conversation_serv.Outbox.Attachments.{ClaimedEntry}

abbrev pub message : ℕ → Message
message id = record {
  id = id;
  kind = conversation_kind;
  conversation_id = some 1;
  direction = outbound;
  state = pending;
  state_detail = none;
  delivery_state = none;
  delivery_state_detail = none;
  delivery_state_updated_at = none;
  delivered_at = none;
  resend_email_id = none;
  internet_message_id = none;
  idempotency_key = none;
  parent_message_id = none;
  in_reply_to_internet_message_id = none;
  email_created_at = 0;
  created_at = 0;
}

abbrev pub batch : ℕ → Batch
batch id = record {
  id = id;
  next_attempt_at = 500;
  first_attempt_at = some 400;
  attempt_count = 1;
  lease_token = none;
  lease_until = none;
  last_error_code = none;
}

abbrev pub entry : ℕ → ℕ → Entry
entry message_id batch_id = record {
  message_id = message_id;
  batch_id = some batch_id;
  batch_position = some 0;
  queued_at = 100;
}

abbrev pub generated : ℕ → ℕ
generated n = n + 100

-- Two batches of one message each, both to be tried again.
abbrev pub outbox_db : Db
outbox_db = record (empty_db generated 1000) {
  messages = message 1 ∷ message 2 ∷ [];
  batches = batch 10 ∷ batch 11 ∷ [];
  entries = entry 1 10 ∷ entry 2 11 ∷ [];
}

abbrev pub claim_at : ℕ → ℕ → ClaimInput
claim_at token now = record {
  limit = 10;
  token = token;
  now = now;
  batch_locked = λ _. false;
  entry_locked = λ _. false;
}

abbrev pub lease_at : ℕ → ℕ → LeaseInput
lease_at token now = record { token = token; now = now; locked = λ _. false }

abbrev pub claimed_batch : ℕ → ℕ → ℕ → ClaimedBatch
claimed_batch id token message_id = record {
  id = id;
  lease_token = token;
  attempt_count = 2;
  first_attempt_at = 400;
  messages = message message_id ∷ [];
}

abbrev pub clock : ℕ → Readings
clock t = record { checked_at = t; retry_checked_at = t; retry_at = t; answered_at = t }

abbrev pub claimed_entry : ClaimedEntry
claimed_entry = record {
  message = message 1;
  lease_token = 7;
  attempt_count = 1;
  first_attempt_at = 400;
}

-- The queue entry that another worker has taken over, with token 8.
abbrev pub taken_over : AttachmentEntry
taken_over = record {
  message_id = 1;
  queued_at = 100;
  first_attempt_at = some 400;
  attempt_count = 2;
  next_attempt_at = 100;
  lease_token = some 8;
  lease_until = some 200000;
  last_error_code = none;
}

abbrev pub file : ℕ → AttachmentSource → AttachmentState → Attachment
file id source state = record {
  id = id;
  message_id = none;
  source = source;
  state = state;
  state_detail = none;
  filename = "report.pdf";
  content_type = "application/pdf";
  content_disposition = attachment;
  content_id = none;
  size_bytes = 20;
  checksum = none;
  storage_key = "files/report";
  resend_email_id = some "email";
  resend_attachment_id = some "part";
  attempt_count = 0;
  next_attempt_at = 0;
  lease_token = none;
  lease_until = none;
  last_error_code = none;
  created_at = 10;
}

abbrev pub conversation : Conversation
conversation = record {
  id = 1;
  state = awaiting_us;
  state_changed_at = 50;
  topic_type = none;
  external_topic_id = none;
  event_sequence = 2;
  routing_token = codes "0123abcd-0123-4567-89ab-0123456789ab";
  api_version = none;
  participant_address = codes "cat@example.com";
  reply_to_base_address = none;
  reply_to_requires_allowlist = false;
  last_message_at = 0;
}

abbrev pub event : ℕ → ℕ → ConversationEvent
event id sequence = record {
  id = id;
  conversation_id = 1;
  sequence = sequence;
  type = message_received;
  occurred_at = 60;
  payload = none;
  created_at = 60 + sequence;
}

abbrev pub delivery : ℕ → EventDelivery
delivery event_id = record {
  event_id = event_id;
  sink = nats;
  attempt_count = 0;
  next_attempt_at = 0;
  lease_token = none;
  lease_until = none;
  published_at = none;
  last_error_code = none;
}

abbrev pub conversation_db : Db
conversation_db = record (empty_db generated 1000) {
  messages = message 1 ∷ [];
  conversations = conversation ∷ [];
  events = event 20 1 ∷ event 21 2 ∷ [];
  deliveries = delivery 20 ∷ delivery 21 ∷ [];
}

abbrev pub webhook : ℕ → String → ℕ → EmailEvent
webhook id type at = record {
  id = id;
  event_type = type;
  event_created_at = at;
  webhook_received_at = at;
  email_id = "email";
  delivery_detail = none;
}

abbrev pub webhooks : List EmailEvent
webhooks =
    webhook 1 "email.delivered" 70
    ∷ webhook 2 "email.delivery_delayed" 80
    ∷ webhook 3 "email.sent" 90
    ∷ []
