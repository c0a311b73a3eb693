-- ===== src/Database.antt =====
-- The rows of prisma/schema.prisma that the modelled code reads and writes, and the errors that it
-- throws. Identifiers (uuids) and times (milliseconds) are native numbers. The columns that only
-- the database maintains (created_at and updated_at defaults) are kept where some code reads them.
use resend_conversation_serv.Prelude.{ℕ, String, Bool, true, false, Option, List, []}
use resend_conversation_serv.Prelude.Text.{Text}

pub data Direction : Type 0 where
  inbound outbound : Direction

pub data MessageKind : Type 0 where
  conversation_kind direct_kind : MessageKind

pub data MessageState : Type 0 where
  received pending accepted failed indeterminate : MessageState

pub data DeliveryState : Type 0 where
  unknown delivered delivery_delayed bounced complained suppressed failed : DeliveryState

pub data ConversationState : Type 0 where
  awaiting_us awaiting_participant concluded terminated : ConversationState

-- `message.state = 'PENDING'`
abbrev pub is_pending : MessageState → Bool
is_pending pending = true
is_pending _ = false

abbrev pub is_outbound : Direction → Bool
is_outbound outbound = true
is_outbound inbound = false

pub data ApiVersion : Type 0 where
  v1 v2 : ApiVersion

pub record Message : Type 0 where
  pub id : ℕ
  pub kind : MessageKind
  pub conversation_id : Option ℕ
  pub direction : Direction
  pub state : MessageState
  pub state_detail : Option Text
  pub delivery_state : Option DeliveryState
  pub delivery_state_detail : Option String
  pub delivery_state_updated_at : Option ℕ
  pub delivered_at : Option ℕ
  pub resend_email_id : Option String
  pub internet_message_id : Option String
  pub idempotency_key : Option String
  pub parent_message_id : Option ℕ
  pub in_reply_to_internet_message_id : Option String
  pub email_created_at : ℕ
  pub created_at : ℕ

pub record Conversation : Type 0 where
  pub id : ℕ
  pub state : ConversationState
  pub state_changed_at : ℕ
  pub topic_type : Option String
  pub external_topic_id : Option String
  pub event_sequence : ℕ
  pub routing_token : Text
  pub api_version : Option ApiVersion
  pub participant_address : Text
  pub reply_to_base_address : Option Text
  pub reply_to_requires_allowlist : Bool
  pub last_message_at : ℕ

-- email_conversation_routing_aliases
pub record RoutingAlias : Type 0 where
  pub conversation_id : ℕ
  pub routing_token : Text
  pub base_address : Text

-- email_outbox_batches
pub record Batch : Type 0 where
  pub id : ℕ
  pub next_attempt_at : ℕ
  pub first_attempt_at : Option ℕ
  pub attempt_count : ℕ
  pub lease_token : Option ℕ
  pub lease_until : Option ℕ
  pub last_error_code : Option Text

-- email_outbox_entries
pub record Entry : Type 0 where
  pub message_id : ℕ
  pub batch_id : Option ℕ
  pub batch_position : Option ℕ
  pub queued_at : ℕ

-- email_attachment_outbox_entries
pub record AttachmentEntry : Type 0 where
  pub message_id : ℕ
  pub queued_at : ℕ
  pub first_attempt_at : Option ℕ
  pub attempt_count : ℕ
  pub next_attempt_at : ℕ
  pub lease_token : Option ℕ
  pub lease_until : Option ℕ
  pub last_error_code : Option Text

pub data AttachmentState : Type 0 where
  pending stored failed : AttachmentState

pub data AttachmentSource : Type 0 where
  inbound upload : AttachmentSource

pub data Disposition : Type 0 where
  attachment inline : Disposition

pub record Attachment : Type 0 where
  pub id : ℕ
  pub message_id : Option ℕ
  pub source : AttachmentSource
  pub state : AttachmentState
  pub state_detail : Option Text
  pub filename : String
  pub content_type : String
  pub content_disposition : Disposition
  pub content_id : Option String
  pub size_bytes : ℕ
  pub checksum : Option String
  pub storage_key : String
  pub resend_email_id : Option String
  pub resend_attachment_id : Option String
  pub attempt_count : ℕ
  pub next_attempt_at : ℕ
  pub lease_token : Option ℕ
  pub lease_until : Option ℕ
  pub last_error_code : Option Text
  pub created_at : ℕ

pub record Tombstone : Type 0 where
  pub id : ℕ
  pub storage_key : String
  pub attempt_count : ℕ
  pub next_attempt_at : ℕ
  pub lease_token : Option ℕ
  pub lease_until : Option ℕ
  pub last_error_code : Option Text

-- resend_wh_emails
pub record EmailEvent : Type 0 where
  pub id : ℕ
  pub event_type : String
  pub event_created_at : ℕ
  pub webhook_received_at : ℕ
  pub email_id : String
  pub delivery_detail : Option String

pub data EventKind : Type 0 where
  created message_received message_outbound_intended state_changed : EventKind
  assigned message_delivery_updated merged deleted : EventKind

pub data Actor : Type 0 where
  participant service operator system : Actor

pub data Sink : Type 0 where
  nats : Sink

pub record StateChange : Type 0 where
  pub from : Option Text
  pub to : Text

-- ConversationEventPayload; an absent property is `none`.
pub record Payload : Type 0 where
  pub schema_version : ℕ
  pub id : ℕ
  pub type : Text
  pub occurred_at : ℕ
  pub conversation_id : ℕ
  pub sequence : ℕ
  pub topic : Option (String × String)
  pub message_id : Option ℕ
  pub actor : Actor
  pub cause : String
  pub state : Option StateChange
  pub delivery_state : Option Text
  pub merged_into_conversation_id : Option ℕ
  pub attachment_count : Option ℕ

-- conversation_events; the payload `{}` that a row is created with is `none`.
pub record ConversationEvent : Type 0 where
  pub id : ℕ
  pub conversation_id : ℕ
  pub sequence : ℕ
  pub type : EventKind
  pub occurred_at : ℕ
  pub payload : Option Payload
  pub created_at : ℕ

-- conversation_event_deliveries
pub record EventDelivery : Type 0 where
  pub event_id : ℕ
  pub sink : Sink
  pub attempt_count : ℕ
  pub next_attempt_at : ℕ
  pub lease_token : Option ℕ
  pub lease_until : Option ℕ
  pub published_at : Option ℕ
  pub last_error_code : Option Text

-- `uuid n` is the n-th identifier that the database will generate, `drawn` how many it has
-- generated, and `now` its clock.
pub record Db : Type 0 where
  pub messages : List Message
  pub conversations : List Conversation
  pub routing_aliases : List RoutingAlias
  pub batches : List Batch
  pub entries : List Entry
  pub attachment_entries : List AttachmentEntry
  pub attachments : List Attachment
  pub tombstones : List Tombstone
  pub email_events : List EmailEvent
  pub events : List ConversationEvent
  pub deliveries : List EventDelivery
  pub uuid : ℕ → ℕ
  pub drawn : ℕ
  pub now : ℕ

abbrev pub empty_db : (ℕ → ℕ) → ℕ → Db
empty_db uuid now = record {
  messages = [];
  conversations = [];
  routing_aliases = [];
  batches = [];
  entries = [];
  attachment_entries = [];
  attachments = [];
  tombstones = [];
  email_events = [];
  events = [];
  deliveries = [];
  uuid = uuid;
  drawn = 0;
  now = now;
}

-- What the modelled functions throw themselves.
pub data Fault : Type 0 where
  record_not_found : Fault
  lease_lost_before_completion : Fault
  lease_lost_before_cleanup : Fault
  lease_lost_before_retry : Fault
  message_changed_before_completion : Fault
  invalid_message_state : Fault
  not_an_outbound_message : Fault
  hydration_incomplete : Fault
  attachment_claim_refused : Fault
  attachments_disabled : Fault
  attachments_too_large : Fault
