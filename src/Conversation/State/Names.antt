-- ===== src/Conversation/State/Names.antt =====
-- The text form of a state: what `parse_conversation_state` accepts, by the names of the states and
-- by what `serialize_conversation_state` prints.
use resend_conversation_serv.Prelude.{
  ℕ, ◌<◌, sym, ap, ◌∙◌, subst, ◌≡◌, refl, some, [], ◌∷◌, arith, ◌↔◌, find, All,
}
use resend_conversation_serv.Prelude.Text.{
  Text, trim, upper, lower, to_upper, to_lower, text_eq, text_eq_sound,
}
use resend_conversation_serv.Database.{
  ConversationState, awaiting_us, awaiting_participant, concluded, terminated,
}
use resend_conversation_serv.Conversation.State.{
  state_name, parse_conversation_state, conversation_states, serialize_conversation_state,
}

named :
    (n : Text) (s : ConversationState)
    → find (λ x. text_eq (state_name x) n) conversation_states ≡ some s
    → n ≡ state_name s
named n s h = ground (
  arith,
  text_eq_sound (state_name awaiting_us) n,
  text_eq_sound (state_name awaiting_participant) n,
  text_eq_sound (state_name concluded) n,
  text_eq_sound (state_name terminated) n,
)

finds_name :
    (s : ConversationState)
    → find (λ x. text_eq (state_name x) (state_name s)) conversation_states ≡ some s
unfolding state_name
finds_name awaiting_us = refl
finds_name awaiting_participant = refl
finds_name concluded = refl
finds_name terminated = refl

parse_lem :
    (value : Text)
    → parse_conversation_state (some value)
      ≡ find (λ x. text_eq (state_name x) (to_upper (trim value))) conversation_states
unfolding parse_conversation_state
parse_lem value = refl

-- A text is read as a state exactly when, trimmed and in upper case, it is that state's name.
pub parse_iff :
    (value : Text) (s : ConversationState)
    → (parse_conversation_state (some value) ≡ some s) ↔ (to_upper (trim value) ≡ state_name s)
parse_iff value s = (
  λ h. named _ s (sym (parse_lem value) ∙ h),
  λ h. rw (parse_lem value) (
      subst (λ n. find (λ x. text_eq (state_name x) n) conversation_states ≡ some s) (sym h)
        (finds_name s)),
)

-- Of a character of ASCII, both cases determine the other.
lower-upper : (c : ℕ) → c < 128 → lower (upper c) ≡ lower c
unfolding lower upper
lower-upper c h = ground arith

upper-lower : (c : ℕ) → c < 128 → upper (lower c) ≡ upper c
unfolding lower upper
upper-lower c h = ground arith

to_lower-to_upper : (t : Text) → All (λ c. c < 128) t → to_lower (to_upper t) ≡ to_lower t
unfolding to_lower to_upper
to_lower-to_upper [] h = refl
to_lower-to_upper (c ∷ t) h = rw (lower-upper c h.0) (ap (◌∷◌ (lower c)) (to_lower-to_upper t h.1))

to_upper-to_lower : (t : Text) → All (λ c. c < 128) t → to_upper (to_lower t) ≡ to_upper t
unfolding to_lower to_upper
to_upper-to_lower [] h = refl
to_upper-to_lower (c ∷ t) h = rw (upper-lower c h.0) (ap (◌∷◌ (upper c)) (to_upper-to_lower t h.1))

serialize_lem : (s : ConversationState) → serialize_conversation_state s ≡ to_lower (state_name s)
unfolding serialize_conversation_state
serialize_lem s = refl

upper-serialize : (s : ConversationState) → to_upper (serialize_conversation_state s) ≡ state_name s
unfolding serialize_conversation_state to_lower to_upper lower upper state_name
upper-serialize awaiting_us = refl
upper-serialize awaiting_participant = refl
upper-serialize concluded = refl
upper-serialize terminated = refl

-- A text whose trimmed form is ASCII is read as a state exactly when that form, in lower case, is what
-- the service prints for the state.
pub parse-serialize_iff :
    (value : Text) (s : ConversationState)
    → All (λ c. c < 128) (trim value)
    → (parse_conversation_state (some value) ≡ some s)
      ↔ (to_lower (trim value) ≡ serialize_conversation_state s)
parse-serialize_iff value s h = (
  λ p.
      sym (to_lower-to_upper (trim value) h)
      ∙ ap to_lower ((parse_iff value s).0 p)
      ∙ sym (serialize_lem s),
  λ e.
      (parse_iff value s).1
        (sym (to_upper-to_lower (trim value) h) ∙ ap to_upper e ∙ upper-serialize s),
)
