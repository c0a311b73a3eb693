-- ===== src/Conversation/Events.antt =====
-- src/lib/conversation-events.ts: the numbered history of each conversation, one row for each event
-- and one delivery for each enabled sink. The enabled sinks are an argument.
pub mod Numbering
pub mod Runtime
use resend_conversation_serv.Prelude.{
  ℕ, suc, ◌+◌, String, Bool, true, false, ◌&&◌, not, Option, none, some, List, [], ◌∷◌, ◌++◌, map,
  ◌==◌, str_eq, if◌then◌else◌, Action, Outcome, done, threw, update, find,
}
use resend_conversation_serv.Prelude.Text.{Text, codes, to_lower}
use resend_conversation_serv.Database.{
  Db, Conversation, ConversationEvent, EventDelivery, EventKind, created, message_received,
  message_outbound_intended, state_changed, assigned, message_delivery_updated, merged, deleted,
  Actor, Sink, StateChange, Payload, Fault, record_not_found,
}

pub record EventInput : Type 0 where
  pub conversation_id : ℕ
  pub type : EventKind
  pub occurred_at : ℕ
  pub actor : Actor
  pub cause : String
  pub message_id : Option ℕ
  pub state : Option StateChange
  pub delivery_state : Option Text
  pub merged_into_conversation_id : Option ℕ
  pub attachment_count : Option ℕ

abbrev pub event_schema_version : ℕ
event_schema_version = 1

-- JavaScript's truth of an optional string or number: absent, empty and zero are false.
abbrev pub truthy_text : Option Text → Option Text
truthy_text none = none
truthy_text (some []) = none
truthy_text (some (c ∷ s)) = some (c ∷ s)

abbrev pub truthy_count : Option ℕ → Option ℕ
truthy_count none = none
truthy_count (some n) = if n == 0 then none else some n

-- The names of the enum's values.
unfoldable pub kind_name : EventKind → Text
kind_name created = codes "CREATED"
kind_name message_received = codes "MESSAGE_RECEIVED"
kind_name message_outbound_intended = codes "MESSAGE_OUTBOUND_INTENDED"
kind_name state_changed = codes "STATE_CHANGED"
kind_name assigned = codes "ASSIGNED"
kind_name message_delivery_updated = codes "MESSAGE_DELIVERY_UPDATED"
kind_name merged = codes "MERGED"
kind_name deleted = codes "DELETED"

abbrev dotted : ℕ → ℕ
dotted c = if c == b'_' then b'.' else c

unfoldable pub serialize_event_type : EventKind → Text
unfolding kind_name to_lower
serialize_event_type type = map dotted (to_lower (kind_name type))

abbrev pub topic_of : Conversation → Option (String × String)
topic_of c = elim c.topic_type [
  | none ↦ none
  | some type ↦ elim c.external_topic_id [
    | none ↦ none
    | some external ↦
        if not (str_eq type "") && not (str_eq external "") then some (type, external) else none
  ]
]

unfoldable pub event_payload : EventInput → Conversation → ℕ → Payload
unfolding serialize_event_type
event_payload input c id = record {
  schema_version = event_schema_version;
  id = id;
  type = codes "conversation." ++ serialize_event_type input.type;
  occurred_at = input.occurred_at;
  conversation_id = c.id;
  sequence = c.event_sequence;
  topic = topic_of c;
  message_id = input.message_id;
  actor = input.actor;
  cause = input.cause;
  state = input.state;
  delivery_state = truthy_text input.delivery_state;
  merged_into_conversation_id = input.merged_into_conversation_id;
  attachment_count = truthy_count input.attachment_count;
}

-- `eventSequence: { increment: 1 }`
abbrev pub next_sequence : Conversation → Conversation
next_sequence c = record c { event_sequence = suc c.event_sequence }

abbrev pub event_row : EventInput → Conversation → ℕ → ℕ → ConversationEvent
event_row input c id now = record {
  id = id;
  conversation_id = c.id;
  sequence = c.event_sequence;
  type = input.type;
  occurred_at = input.occurred_at;
  payload = none;
  created_at = now;
}

abbrev pub delivery_row : ℕ → ℕ → Sink → EventDelivery
delivery_row event_id now sink = record {
  event_id = event_id;
  sink = sink;
  attempt_count = 0;
  next_attempt_at = now;
  lease_token = none;
  lease_until = none;
  published_at = none;
  last_error_code = none;
}

abbrev pub has_id : ℕ → Conversation → Bool
has_id id c = c.id == id

abbrev pub event_has_id : ℕ → ConversationEvent → Bool
event_has_id id e = e.id == id

abbrev pub set_payload : Payload → ConversationEvent → ConversationEvent
set_payload payload e = record e { payload = some payload }

-- The writes, once the conversation's row is found; `c` is the row after the increment.
unfoldable pub write_event : List Sink → EventInput → Conversation → Db → Payload × Db
unfolding event_payload
write_event sinks input c db =
    let id = db.uuid db.drawn in
    let payload = event_payload input c id in
    (
      payload,
      record db {
        conversations = update (has_id input.conversation_id) next_sequence db.conversations;
        events =
            update (event_has_id id) (set_payload payload)
              (db.events ++ event_row input c id db.now ∷ []);
        deliveries = db.deliveries ++ map (delivery_row id db.now) sinks;
        drawn = suc db.drawn;
      },
    )

abbrev pub record_event :
    List Sink → EventInput → Option Conversation → Action Db Fault (Option Payload)
record_event sinks input none db = (threw record_not_found, db)
record_event sinks input (some c) db =
    let (payload, db') = write_event sinks input (next_sequence c) db in (done (some payload), db')

unfoldable pub append_conversation_event : List Sink → EventInput → Action Db Fault (Option Payload)
unfolding write_event
append_conversation_event [] input db = (done none, db)
append_conversation_event (sink ∷ sinks) input db =
    record_event (sink ∷ sinks) input (find (has_id input.conversation_id) db.conversations) db
