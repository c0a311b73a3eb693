-- ===== src/Conversation/State.antt =====
-- src/lib/email/conversation-state.ts: automatic transitions, merging, and the text form of a state.
pub mod Transitions
pub mod Merge
pub mod Names
use resend_conversation_serv.Prelude.{
  ℕ, Bool, true, false, ◌&&◌, not, Option, none, some, List, [], ◌∷◌, ◌==◌, ltb, leb, if◌then◌else◌,
  Action, pure, ◌>>=◌, Outcome, done, select, update, count, find, any,
}
use resend_conversation_serv.Prelude.Text.{Text, codes, text_eq, trim, to_upper, to_lower}
use resend_conversation_serv.Database.{
  Db, Conversation, ConversationState, awaiting_us, awaiting_participant, concluded, terminated,
  Fault,
}

abbrev pub state_eq : ConversationState → ConversationState → Bool
state_eq awaiting_us awaiting_us = true
state_eq awaiting_participant awaiting_participant = true
state_eq concluded concluded = true
state_eq terminated terminated = true
state_eq _ _ = false

abbrev pub conversation_states : List ConversationState
conversation_states = awaiting_us ∷ awaiting_participant ∷ concluded ∷ terminated ∷ []

-- SET state = …, state_changed_at = …
abbrev pub stamp : ConversationState → ℕ → Conversation → Conversation
stamp state changed_at c = record c { state = state; state_changed_at = changed_at }

-- The rows that an automatic transition of one conversation selects.
abbrev pub automatic_where : ℕ → ConversationState → Conversation → Bool
automatic_where id state c =
    c.id == id && not (state_eq c.state state) && not (state_eq c.state terminated)

abbrev pub terminated_where : ℕ → Conversation → Bool
terminated_where id c = c.id == id && not (state_eq c.state terminated)

-- An UPDATE of conversations that reports whether it changed a row.
abbrev pub update_conversations :
    (Conversation → Bool) → (Conversation → Conversation) → Action Db Fault Bool
update_conversations p f db = (
  done (ltb 0 (count p db.conversations)),
  record db { conversations = update p f db.conversations },
)

unfoldable pub apply_automatic_state : ℕ → ConversationState → ℕ → Action Db Fault Bool
apply_automatic_state id state changed_at =
    update_conversations (automatic_where id state) (stamp state changed_at)

unfoldable pub mark_awaiting_us : ℕ → ℕ → Action Db Fault Bool
unfolding apply_automatic_state
mark_awaiting_us id changed_at = apply_automatic_state id awaiting_us changed_at

unfoldable pub mark_awaiting_participant : ℕ → ℕ → Action Db Fault Bool
unfolding apply_automatic_state
mark_awaiting_participant id changed_at = apply_automatic_state id awaiting_participant changed_at

unfoldable pub mark_terminated : ℕ → ℕ → Action Db Fault Bool
mark_terminated id changed_at =
    update_conversations (terminated_where id) (stamp terminated changed_at)

abbrev pub merge_precedence : List ConversationState
merge_precedence = terminated ∷ awaiting_us ∷ awaiting_participant ∷ concluded ∷ []

pub record StateRow : Type 0 where
  pub state : ConversationState
  pub state_changed_at : ℕ

-- The reducer over the rows that hold the winning state.
abbrev pub earliest : Option ℕ → List StateRow → Option ℕ
earliest acc [] = acc
earliest none (row ∷ rows) = earliest (some row.state_changed_at) rows
earliest (some t) (row ∷ rows) =
    earliest (some (if leb t row.state_changed_at then t else row.state_changed_at)) rows

abbrev pub is_present : List StateRow → ConversationState → Bool
is_present rows candidate = any (λ row. state_eq row.state candidate) rows

abbrev pub stamp_winner : ConversationState → Option ℕ → Option StateRow
stamp_winner winner none = none
stamp_winner winner (some changed_at) =
    some (record { state = winner; state_changed_at = changed_at })

abbrev pub rows_in : ConversationState → List StateRow → List StateRow
rows_in winner rows = select (λ row. state_eq row.state winner) rows

abbrev pub merge_winner : List StateRow → Option ConversationState → Option StateRow
merge_winner rows none = none
merge_winner rows (some winner) = stamp_winner winner (earliest none (rows_in winner rows))

unfoldable pub merge_conversation_state : List StateRow → Option StateRow
merge_conversation_state rows = merge_winner rows (find (is_present rows) merge_precedence)

-- The spelling of the enum's values.
unfoldable pub state_name : ConversationState → Text
state_name awaiting_us = codes "AWAITING_US"
state_name awaiting_participant = codes "AWAITING_PARTICIPANT"
state_name concluded = codes "CONCLUDED"
state_name terminated = codes "TERMINATED"

-- A JSON value, as far as the function looks at it: a string or not.
unfoldable pub parse_conversation_state : Option Text → Option ConversationState
unfolding state_name
parse_conversation_state none = none
parse_conversation_state (some value) =
    let normalized = to_upper (trim value) in
    find (λ state. text_eq (state_name state) normalized) conversation_states

unfoldable pub serialize_conversation_state : ConversationState → Text
unfolding state_name to_lower
serialize_conversation_state state = to_lower (state_name state)
