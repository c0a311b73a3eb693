-- ===== src/Delivery.antt =====
-- src/lib/email/delivery.ts: what the provider's delivery webhooks say of an outbound message, and
-- its projection onto the message and its conversation.
pub mod Reduction
pub mod Projection
use resend_conversation_serv.Prelude.{
  ℕ, String, Bool, true, false, ◌&&◌, not, Option, none, some, List, [], ◌∷◌, leb, str_eq,
  text_holds, key₃_le, if◌then◌else◌, Action, Outcome, done, threw, pure, ◌>>=◌, ◌>>◌, select,
  update, find, order_by,
}
use resend_conversation_serv.Prelude.Text.{Text, codes, to_lower}
use resend_conversation_serv.Database.{
  Db, Message, Conversation, EmailEvent, DeliveryState, unknown, delivered, delivery_delayed,
  bounced, complained, suppressed, failed, is_outbound, message_delivery_updated, state_changed,
  system, Sink, StateChange, Payload, Fault,
}
use resend_conversation_serv.Conversation.State.{mark_terminated, serialize_conversation_state}
use resend_conversation_serv.Conversation.Events.{EventInput, append_conversation_event, has_id}

-- DELIVERY_STATE_BY_EVENT_TYPE; `none` for a type that is not in DELIVERY_EVENT_TYPES.
unfoldable pub delivery_state_of : String → Option DeliveryState
delivery_state_of type =
    if str_eq type "email.delivered"
    then some delivered
    else if str_eq type "email.delivery_delayed"
    then some delivery_delayed
    else if str_eq type "email.bounced"
    then some bounced
    else if str_eq type "email.complained"
    then some complained
    else if str_eq type "email.suppressed"
    then some suppressed
    else if str_eq type "email.failed"
    then some failed
    else none

unfoldable pub is_delivery_event_type : String → Bool
unfolding delivery_state_of
is_delivery_event_type type = elim (delivery_state_of type) [ none ↦ false | some state ↦ true ]

abbrev pub is_unreachable_state : DeliveryState → Bool
is_unreachable_state bounced = true
is_unreachable_state complained = true
is_unreachable_state suppressed = true
is_unreachable_state _ = false

abbrev pub is_delivered : DeliveryState → Bool
is_delivered delivered = true
is_delivered _ = false

abbrev pub is_delayed : DeliveryState → Bool
is_delayed delivery_delayed = true
is_delayed _ = false

abbrev pub delivery_state_eq : DeliveryState → DeliveryState → Bool
delivery_state_eq unknown unknown = true
delivery_state_eq delivered delivered = true
delivery_state_eq delivery_delayed delivery_delayed = true
delivery_state_eq bounced bounced = true
delivery_state_eq complained complained = true
delivery_state_eq suppressed suppressed = true
delivery_state_eq failed failed = true
delivery_state_eq _ _ = false

abbrev pub earlier_date : Option ℕ → ℕ → ℕ
earlier_date none right = right
earlier_date (some left) right = if leb left right then left else right

pub record Current : Type 0 where
  pub state : DeliveryState
  pub detail : Option String
  pub event_created_at : ℕ

pub record Reduced : Type 0 where
  pub current : Option Current
  pub delivered_at : Option ℕ

abbrev pub current_of : DeliveryState → EmailEvent → Current
current_of state event = record {
  state = state;
  detail = event.delivery_detail;
  event_created_at = event.event_created_at;
}

-- `state === 'DELIVERY_DELAYED' && current && current.state !== 'DELIVERY_DELAYED'`
abbrev pub is_ignored : DeliveryState → Option Current → Bool
is_ignored state none = false
is_ignored state (some current) = is_delayed state && not (is_delayed current.state)

abbrev pub reduce_state : DeliveryState → EmailEvent → Reduced → Reduced
reduce_state state event r = record {
  current = if is_ignored state r.current then r.current else some (current_of state event);
  delivered_at =
      if is_delivered state
      then some (earlier_date r.delivered_at event.event_created_at)
      else r.delivered_at;
}

abbrev pub reduce_event : Option DeliveryState → EmailEvent → Reduced → Reduced
reduce_event none event r = r
reduce_event (some state) event r = reduce_state state event r

abbrev pub reduce_from : Reduced → List EmailEvent → Reduced
reduce_from r [] = r
reduce_from r (event ∷ events) =
    reduce_from (reduce_event (delivery_state_of event.event_type) event r) events

unfoldable pub reduce_delivery_events : List EmailEvent → Reduced
reduce_delivery_events events = reduce_from (record { current = none; delivered_at = none }) events

unfoldable pub delivery_state_name : DeliveryState → Text
delivery_state_name unknown = codes "UNKNOWN"
delivery_state_name delivered = codes "DELIVERED"
delivery_state_name delivery_delayed = codes "DELIVERY_DELAYED"
delivery_state_name bounced = codes "BOUNCED"
delivery_state_name complained = codes "COMPLAINED"
delivery_state_name suppressed = codes "SUPPRESSED"
delivery_state_name failed = codes "FAILED"

-- where: { direction: 'OUTBOUND', resendEmailId }
abbrev pub sent_as : String → Message → Bool
sent_as email_id m = is_outbound m.direction && text_holds m.resend_email_id email_id

abbrev pub delivered_as : Current → Option ℕ → Message → Message
delivered_as current delivered_at m = record m {
  delivery_state = some current.state;
  delivery_state_detail = current.detail;
  delivery_state_updated_at = some current.event_created_at;
  delivered_at = delivered_at;
}

unfoldable pub delivery_events : String → List EmailEvent → List EmailEvent
unfolding is_delivery_event_type
delivery_events email_id events =
    order_by
      (λ a b.
        key₃_le (a.event_created_at, a.webhook_received_at, a.id)
          (b.event_created_at, b.webhook_received_at, b.id))
      (select (λ e. str_eq e.email_id email_id && is_delivery_event_type e.event_type) events)

abbrev pub had_state : Option DeliveryState → DeliveryState → Bool
had_state none state = false
had_state (some before) state = delivery_state_eq before state

unfoldable pub delivery_input : ℕ → ℕ → Current → EventInput
delivery_input conversation_id message_id current = record {
  conversation_id = conversation_id;
  type = message_delivery_updated;
  occurred_at = current.event_created_at;
  actor = system;
  cause = "resend_delivery_webhook";
  message_id = some message_id;
  state = none;
  delivery_state = some (to_lower (delivery_state_name current.state));
  merged_into_conversation_id = none;
  attachment_count = none;
}

unfoldable pub unreachable_input : ℕ → Option Conversation → Current → EventInput
unreachable_input conversation_id before current = record {
  conversation_id = conversation_id;
  type = state_changed;
  occurred_at = current.event_created_at;
  actor = system;
  cause = "unreachable_delivery";
  message_id = none;
  state = some (record {
    from = elim before [ none ↦ none | some c ↦ some (serialize_conversation_state c.state) ];
    to = codes "terminated";
  });
  delivery_state = none;
  merged_into_conversation_id = none;
  attachment_count = none;
}

abbrev pub update_messages : (Message → Bool) → (Message → Message) → Action Db Fault (Unit {0})
update_messages p f db = (done tt, record db { messages = update p f db.messages })

abbrev pub announce : List Sink → Current → Message → ℕ → Action Db Fault (Option Payload)
announce sinks current m conversation_id db =
    if had_state m.delivery_state current.state
    then (done none, db)
    else append_conversation_event sinks (delivery_input conversation_id m.id current) db

abbrev pub announce_terminated :
    List Sink → Current → Option Conversation → ℕ → Bool → Action Db Fault (Option Payload)
announce_terminated sinks current before conversation_id false db = (done none, db)
announce_terminated sinks current before conversation_id true db =
    append_conversation_event sinks (unreachable_input conversation_id before current) db

-- Everything after the message's update, for a message of a conversation. `before` is the
-- conversation's row as it was read before the update.
unfoldable pub project_onto_conversation :
    List Sink → Current → Option Conversation → Message → ℕ → Action Db Fault (Option Payload)
project_onto_conversation sinks current before m conversation_id = do
  announce sinks current m conversation_id
  if is_unreachable_state current.state
      then (do
        changed ← mark_terminated conversation_id current.event_created_at
        announce_terminated sinks current before conversation_id changed)
      else pure none

abbrev pub conversation_of : Option Message → Option ℕ
conversation_of none = none
conversation_of (some m) = m.conversation_id

abbrev pub project_addressed :
    List Sink
    → Current
    → List Conversation
    → Option Message
    → Option ℕ
    → Action Db Fault (Option Payload)
project_addressed sinks current conversations none cid = pure none
project_addressed sinks current conversations (some m) none = pure none
project_addressed sinks current conversations (some m) (some conversation_id) =
    project_onto_conversation sinks current (find (has_id conversation_id) conversations) m
      conversation_id

abbrev pub project_found :
    List Sink → Current → List Conversation → Option Message → Action Db Fault (Option Payload)
project_found sinks current conversations before =
    project_addressed sinks current conversations before (conversation_of before)

abbrev pub project_current :
    List Sink → String → Option ℕ → Option Current → Action Db Fault (Option Payload)
project_current sinks email_id delivered_at none db = (done none, db)
project_current sinks email_id delivered_at (some current) db =
    (update_messages (sent_as email_id) (delivered_as current delivered_at)
        >> project_found sinks current db.conversations (find (sent_as email_id) db.messages))
      db

-- projectOutboundDeliveryStateForResendEmail, inside a transaction that holds the message's lock.
unfoldable pub project_outbound_delivery_state :
    List Sink → String → Action Db Fault (Option Payload)
project_outbound_delivery_state sinks email_id db =
    let projected = reduce_delivery_events (delivery_events email_id db.email_events) in
    project_current sinks email_id projected.delivered_at projected.current db
