-- ===== src/Email/Conversations/Kept.antt =====
-- Steps that keep every message, in its conversation or in the target.
use resend_conversation_serv.Prelude.{
  ℕ, ◌≡◌, ◌⊎◌, inl, inr, refl, ◌∙◌, Option, none, some, List, [], ◌∷◌, find, any, All₂, All₂-refl,
  All₂-trans, Within, Within-bind, Bool-cases,
}
use resend_conversation_serv.Database.{Db, Message, Conversation, Sink}
use resend_conversation_serv.Conversation.Events.{
  EventInput, has_id, record_event, write_event, append_conversation_event,
}
use resend_conversation_serv.Email.Conversations.{latest_of, set_last, refresh_last}
use resend_conversation_serv.Email.Merging.{
  update_conversation, move_aliases, preserve_from, unique_sources,
  preserve_merged_conversation_state, merged_columns, merged_input, record_conversation_merges,
}

-- The same message, in its conversation or in the target.
pub record Joined (target : Option ℕ) (a b : Message) : Type 0 where
  pub id : b.id ≡ a.id
  pub kind : b.kind ≡ a.kind
  pub direction : b.direction ≡ a.direction
  pub state : b.state ≡ a.state
  pub resend_email_id : b.resend_email_id ≡ a.resend_email_id
  pub idempotency_key : b.idempotency_key ≡ a.idempotency_key
  pub conversation : (b.conversation_id ≡ a.conversation_id) ⊎ (b.conversation_id ≡ target)

pub Joined-refl : (target : Option ℕ) (a : Message) → Joined target a a
Joined-refl target a = record {
  id = refl;
  kind = refl;
  direction = refl;
  state = refl;
  resend_email_id = refl;
  idempotency_key = refl;
  conversation = inl refl;
}

pub either_way :
    (target a b c : Option ℕ)
    → (b ≡ a) ⊎ (b ≡ target)
    → (c ≡ b) ⊎ (c ≡ target)
    → (c ≡ a) ⊎ (c ≡ target)
either_way target a b c (inl h) (inl k) = inl (k ∙ h)
either_way target a b c (inr h) (inl k) = inr (k ∙ h)
either_way target a b c h (inr k) = inr k

pub Joined-trans :
    (target : Option ℕ) (a b c : Message)
    → Joined target a b
    → Joined target b c
    → Joined target a c
Joined-trans target a b c h k = record {
  id = k.id ∙ h.id;
  kind = k.kind ∙ h.kind;
  direction = k.direction ∙ h.direction;
  state = k.state ∙ h.state;
  resend_email_id = k.resend_email_id ∙ h.resend_email_id;
  idempotency_key = k.idempotency_key ∙ h.idempotency_key;
  conversation =
      either_way target a.conversation_id b.conversation_id c.conversation_id h.conversation
        k.conversation;
}

-- Every message is still there, in its conversation or in the target.
abbrev pub Keeps : Option ℕ → Db → Db → Type 0
Keeps target a b = All₂ (Joined target) a.messages b.messages

pub Keeps-refl : (target : Option ℕ) (a : Db) → Keeps target a a
Keeps-refl target a = All₂-refl (Joined target) (Joined-refl target) a.messages

pub Keeps-trans :
    (target : Option ℕ) (a b c : Db) → Keeps target a b → Keeps target b c → Keeps target a c
Keeps-trans target a b c =
    All₂-trans (Joined target) (Joined-trans target) a.messages b.messages c.messages

-- Steps that write no message.
abbrev pub SameMessages : Db → Db → Type 0
SameMessages a b = b.messages ≡ a.messages

pub SameMessages-trans : (a b c : Db) → SameMessages a b → SameMessages b c → SameMessages a c
SameMessages-trans a b c h k = k ∙ h

pub record_event-SameMessages :
    (sinks : List Sink) (input : EventInput) (o : Option Conversation)
    → Within SameMessages (record_event sinks input o)
unfolding write_event
record_event-SameMessages sinks input none db = refl
record_event-SameMessages sinks input (some c) db = refl

pub append-SameMessages :
    (sinks : List Sink) (input : EventInput)
    → Within SameMessages (append_conversation_event sinks input)
unfolding append_conversation_event
append-SameMessages [] input db = refl
append-SameMessages (sink ∷ sinks) input db =
    record_event-SameMessages (sink ∷ sinks) input
      (find (has_id input.conversation_id) db.conversations) db

pub update_conversation-SameMessages :
    (id : ℕ) (f : Conversation → Conversation) → Within SameMessages (update_conversation id f)
update_conversation-SameMessages id f db = elim (Bool-cases (any (has_id id) db.conversations)) [
  | inl e ↦ rw e refl
  | inr e ↦ rw e refl
]

pub preserve-SameMessages :
    (target : Conversation) (sources : List Conversation)
    → Within SameMessages (preserve_merged_conversation_state target sources)
unfolding preserve_merged_conversation_state
preserve-SameMessages target sources = go (unique_sources target sources)
  where
    go : (unique : List Conversation) → Within SameMessages (preserve_from target unique)
    go [] = λ db. refl
    go (s ∷ unique) =
        Within-bind SameMessages SameMessages-trans (move_aliases target.id (s ∷ unique))
          (λ _. update_conversation target.id (merged_columns target (s ∷ unique))) (λ db. refl)
          (λ _. update_conversation-SameMessages target.id (merged_columns target (s ∷ unique)))

pub merges-SameMessages :
    (sinks : List Sink) (target : ℕ) (ids : List ℕ) (at : ℕ)
    → Within SameMessages (record_conversation_merges sinks target ids at)
unfolding record_conversation_merges
merges-SameMessages sinks target [] at = append-SameMessages sinks (merged_input target none at)
merges-SameMessages sinks target (id ∷ ids) at =
    Within-bind SameMessages SameMessages-trans
      (append_conversation_event sinks (merged_input id (some target) at)) _
      (append-SameMessages sinks (merged_input id (some target) at))
      (λ _. merges-SameMessages sinks target ids at)

pub refresh-SameMessages : (id : ℕ) → Within SameMessages (refresh_last id)
refresh-SameMessages id db = go (latest_of id db.messages)
  where
    go : (o : Option ℕ) → SameMessages db (set_last o id db).1
    go none = refl
    go (some at) = update_conversation-SameMessages id (λ c. record c { last_message_at = at }) db
