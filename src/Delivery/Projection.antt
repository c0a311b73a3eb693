-- ===== src/Delivery/Projection.antt =====
-- What a projection does to the messages and the queues.
use resend_conversation_serv.Prelude.{
  ℕ, String, ◌≡◌, refl, sym, ◌∙◌, Bool, true, false, Option, none, some, List, [], ◌∷◌, find, All₂,
  All₂-refl, All₂-trans, All₂-update, Within, Within-bind, Action, if◌then◌else◌, subst, Bool-cases,
  inl, inr,
}
use resend_conversation_serv.Database.{Db, Message, Conversation, Sink, Fault}
use resend_conversation_serv.Conversation.State.{mark_terminated}
use resend_conversation_serv.Conversation.Events.{
  EventInput, has_id, record_event, write_event, append_conversation_event,
}
use resend_conversation_serv.Delivery.{
  Current, sent_as, delivered_as, announce, announce_terminated, project_onto_conversation,
  project_addressed, project_found, conversation_of, project_current,
  project_outbound_delivery_state, update_messages, had_state, is_unreachable_state, delivery_input,
  unreachable_input,
}

-- The same message, sent or not as before: only its delivery state may differ.
pub record SameSend (a b : Message) : Type 0 where
  pub id : b.id ≡ a.id
  pub state : b.state ≡ a.state
  pub state_detail : b.state_detail ≡ a.state_detail
  pub resend_email_id : b.resend_email_id ≡ a.resend_email_id
  pub conversation_id : b.conversation_id ≡ a.conversation_id

pub SameSend-refl : (a : Message) → SameSend a a
SameSend-refl a = record {
  id = refl;
  state = refl;
  state_detail = refl;
  resend_email_id = refl;
  conversation_id = refl;
}

pub SameSend-trans : (a b c : Message) → SameSend a b → SameSend b c → SameSend a c
SameSend-trans a b c h k = record {
  id = k.id ∙ h.id;
  state = k.state ∙ h.state;
  state_detail = k.state_detail ∙ h.state_detail;
  resend_email_id = k.resend_email_id ∙ h.resend_email_id;
  conversation_id = k.conversation_id ∙ h.conversation_id;
}

pub record SameQueues (a b : Db) : Type 0 where
  pub messages : All₂ SameSend a.messages b.messages
  pub batches : b.batches ≡ a.batches
  pub entries : b.entries ≡ a.entries
  pub attachment_entries : b.attachment_entries ≡ a.attachment_entries
  pub attachments : b.attachments ≡ a.attachments
  pub tombstones : b.tombstones ≡ a.tombstones

pub SameQueues-refl : (a : Db) → SameQueues a a
SameQueues-refl a = record {
  messages = All₂-refl SameSend SameSend-refl a.messages;
  batches = refl;
  entries = refl;
  attachment_entries = refl;
  attachments = refl;
  tombstones = refl;
}

pub SameQueues-trans : (a b c : Db) → SameQueues a b → SameQueues b c → SameQueues a c
SameQueues-trans a b c h k = record {
  messages = All₂-trans SameSend SameSend-trans _ _ _ h.messages k.messages;
  batches = k.batches ∙ h.batches;
  entries = k.entries ∙ h.entries;
  attachment_entries = k.attachment_entries ∙ h.attachment_entries;
  attachments = k.attachments ∙ h.attachments;
  tombstones = k.tombstones ∙ h.tombstones;
}

-- Tables that stand in no queue may change.
SameQueues-others :
    (a b : Db)
    → b.messages ≡ a.messages
    → b.batches ≡ a.batches
    → b.entries ≡ a.entries
    → b.attachment_entries ≡ a.attachment_entries
    → b.attachments ≡ a.attachments
    → b.tombstones ≡ a.tombstones
    → SameQueues a b
SameQueues-others a b m p q r s t = record {
  messages = subst (All₂ SameSend a.messages) (sym m) (All₂-refl SameSend SameSend-refl a.messages);
  batches = p;
  entries = q;
  attachment_entries = r;
  attachments = s;
  tombstones = t;
}

record_event-SameQueues :
    (sinks : List Sink) (input : EventInput) (o : Option Conversation)
    → Within SameQueues (record_event sinks input o)
unfolding write_event
record_event-SameQueues sinks input none db = SameQueues-refl db
record_event-SameQueues sinks input (some c) db =
    SameQueues-others db _ refl refl refl refl refl refl

pub append-SameQueues :
    (sinks : List Sink) (input : EventInput)
    → Within SameQueues (append_conversation_event sinks input)
unfolding append_conversation_event
append-SameQueues [] input db = SameQueues-refl db
append-SameQueues (sink ∷ sinks) input db =
    record_event-SameQueues (sink ∷ sinks) input
      (find (has_id input.conversation_id) db.conversations) db

mark_terminated-SameQueues : (id at : ℕ) → Within SameQueues (mark_terminated id at)
unfolding mark_terminated
mark_terminated-SameQueues id at db = SameQueues-others db _ refl refl refl refl refl refl

if-Within :
    {A : Type 0} (b : Bool) (m n : Action Db Fault A)
    → Within SameQueues m
    → Within SameQueues n
    → Within SameQueues (if b then m else n)
if-Within true m n h k = h
if-Within false m n h k = k

module _ (sinks : List Sink) (current : Current) where
  announce-SameQueues : (m : Message) (id : ℕ) → Within SameQueues (announce sinks current m id)
  announce-SameQueues m id db = elim (Bool-cases (had_state m.delivery_state current.state)) [
    | inl e ↦ rw e (SameQueues-refl db)
    | inr e ↦ rw e (append-SameQueues sinks (delivery_input id m.id current) db)
  ]

  announce_terminated-SameQueues :
      (before : Option Conversation) (id : ℕ) (changed : Bool)
      → Within SameQueues (announce_terminated sinks current before id changed)
  announce_terminated-SameQueues before id false db = SameQueues-refl db
  announce_terminated-SameQueues before id true db =
      append-SameQueues sinks (unreachable_input id before current) db

  project_onto-SameQueues :
      (before : Option Conversation) (m : Message) (id : ℕ)
      → Within SameQueues (project_onto_conversation sinks current before m id)
  unfolding project_onto_conversation
  project_onto-SameQueues before m id =
      Within-bind SameQueues SameQueues-trans (announce sinks current m id) _
        (announce-SameQueues m id)
        λ _.
          if-Within (is_unreachable_state current.state) _ _
            (Within-bind SameQueues SameQueues-trans (mark_terminated id current.event_created_at) _
              (mark_terminated-SameQueues id current.event_created_at)
              λ changed. announce_terminated-SameQueues before id changed)
            SameQueues-refl

  project_message-SameQueues :
      (cs : List Conversation) (o : Option Message) (cid : Option ℕ)
      → Within SameQueues (project_addressed sinks current cs o cid)
  project_message-SameQueues cs none cid = SameQueues-refl
  project_message-SameQueues cs (some m) none = SameQueues-refl
  project_message-SameQueues cs (some m) (some id) =
      project_onto-SameQueues (find (has_id id) cs) m id

  update_messages-SameQueues :
      (email_id : String) (delivered_at : Option ℕ)
      → Within SameQueues (update_messages (sent_as email_id) (delivered_as current delivered_at))
  update_messages-SameQueues email_id delivered_at db = record {
    messages =
        All₂-update SameSend (sent_as email_id) (delivered_as current delivered_at) db.messages
          (λ m _. record {
            id = refl;
            state = refl;
            state_detail = refl;
            resend_email_id = refl;
            conversation_id = refl;
          })
          SameSend-refl;
    batches = refl;
    entries = refl;
    attachment_entries = refl;
    attachments = refl;
    tombstones = refl;
  }

project_current-SameQueues :
    (sinks : List Sink) (email_id : String) (delivered_at : Option ℕ) (o : Option Current)
    → Within SameQueues (project_current sinks email_id delivered_at o)
project_current-SameQueues sinks email_id delivered_at none db = SameQueues-refl db
project_current-SameQueues sinks email_id delivered_at (some current) db =
    Within-bind SameQueues SameQueues-trans
      (update_messages (sent_as email_id) (delivered_as current delivered_at))
      (λ _. project_found sinks current db.conversations (find (sent_as email_id) db.messages))
      (update_messages-SameQueues sinks current email_id delivered_at)
      (λ _.
        project_message-SameQueues sinks current db.conversations
          (find (sent_as email_id) db.messages)
          (conversation_of (find (sent_as email_id) db.messages)))
      db

-- A delivery webhook's projection, whether it succeeds or throws, keeps every message with its
-- identifier, its send state and detail, its provider identifier and its conversation, and leaves
-- both outboxes, the attachments and the tombstones unchanged.
pub project-SameQueues :
    (sinks : List Sink) (email_id : String)
    → Within SameQueues (project_outbound_delivery_state sinks email_id)
unfolding project_outbound_delivery_state
project-SameQueues sinks email_id db = project_current-SameQueues sinks email_id _ _ db
