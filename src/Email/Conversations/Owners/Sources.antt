-- ===== src/Email/Conversations/Owners/Sources.antt =====
-- The conversations that are merged into a target.
use resend_conversation_serv.Prelude.{
  ℕ, ◌≡◌, refl, arith, false, not, ◌==◌, List, [], ◌∷◌, map, select, select-holds, any, All,
  All-mono, All-update, All-append, Bool-cases, inl, inr,
}
use resend_conversation_serv.Database.{Conversation}
use resend_conversation_serv.Conversation.Events.{has_id}
use resend_conversation_serv.Email.Merging.{is_in, id_of, put, unique_from, unique_sources}

-- No source is the target.
put-Apart :
    (id : ℕ) (c : Conversation) (cs : List Conversation)
    → (c.id == id) ≡ false
    → All (λ s. (s.id == id) ≡ false) cs
    → All (λ s. (s.id == id) ≡ false) (put c cs)
put-Apart id c cs h k = elim (Bool-cases (any (has_id c.id) cs)) [
  | inl e ↦
      rw e (All-update {P = λ s. (s.id == id) ≡ false} (has_id c.id) (λ _. c) cs (λ s e k. h) k)
  | inr e ↦ rw e (All-append (λ s. (s.id == id) ≡ false) cs (c ∷ []) k (h, tt))
]

unique_from-Apart :
    (id : ℕ) (acc cs : List Conversation)
    → All (λ s. (s.id == id) ≡ false) acc
    → All (λ s. (s.id == id) ≡ false) cs
    → All (λ s. (s.id == id) ≡ false) (unique_from acc cs)
unique_from-Apart id acc [] h k = h
unique_from-Apart id acc (c ∷ cs) h k =
    unique_from-Apart id (put c acc) cs (put-Apart id c acc k.0 h) k.1

Apart-is_in :
    (id : ℕ) (cs : List Conversation)
    → All (λ s. (s.id == id) ≡ false) cs
    → is_in (map id_of cs) id ≡ false
Apart-is_in id [] h = refl
Apart-is_in id (c ∷ cs) h = rw (h.0, Apart-is_in id cs h.1) refl

pub unique_sources-is_in :
    (target : Conversation) (sources : List Conversation)
    → is_in (map id_of (unique_sources target sources)) target.id ≡ false
unfolding unique_sources
unique_sources-is_in target sources = Apart-is_in target.id _ (
    unique_from-Apart target.id [] (select (λ s. not (s.id == target.id)) sources) tt
      (All-mono (λ s h. ground arith) _ (select-holds (λ s. not (s.id == target.id)) sources)))
