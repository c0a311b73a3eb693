-- ===== src/Requests/Topics.antt =====
-- What the parts of an accepted new conversation are.
use resend_conversation_serv.Prelude.{
  ℕ, ◌≡◌, refl, sym, subst, arith, Bool, true, false, ◌&&◌, ◌||◌, not, Option, none, some, is_null,
  length, leb, Bool-cases, inl, inr,
}
use resend_conversation_serv.Prelude.Text.{Text, trim}
use resend_conversation_serv.Prelude.Text.Search.{is_empty}
use resend_conversation_serv.Requests.Json.{
  Json, text, null, boolean, number, array, object, Properties, get, as_text, is_nullish,
}
use resend_conversation_serv.Requests.Checks.{
  header_safe, is_header_safe_text, is_blank, is_email_address, if_email, max_name_length,
  max_title_length, max_subject_length, trimmed,
}
use resend_conversation_serv.Requests.Inputs.{TopicInput, CreateConversationInput}
use resend_conversation_serv.Requests.Bodies.{is_topic_type, topic_from, topic_of, subject_allowed}
use resend_conversation_serv.Requests.Texts.{IsTrimmed, IsName, trimmed-IsTrimmed, trim-IsTrimmed}
use resend_conversation_serv.Requests.Identities.{is_plain_name}
use resend_conversation_serv.Requests.Objects.{IsContent}

abbrev pub any_text : Text → Bool
any_text s = true

pub record IsTopic (t : TopicInput) : Type 0 where
  pub typed :
      (is_topic_type t.type && not (is_empty t.external_id) && leb (length t.external_id) 255)
      ≡ true
  pub titled : IsTrimmed max_title_length t.title

-- A new conversation as the validation returns it.
pub record IsCreate (c : CreateConversationInput) : Type 0 where
  pub topic_valid : IsTopic c.topic
  pub email_valid : is_email_address c.participant.email ≡ true
  pub named : IsName any_text max_name_length c.participant.name
  pub titled : IsName any_text max_subject_length c.subject
  pub content : IsContent c.message.text c.message.html
  pub answered : IsName is_plain_name max_name_length c.message.reply_to_name

pub topic_from-IsTopic :
    (title : Option Json) (type external_id o : Option Text) (t : TopicInput)
    → trimmed (header_safe title max_title_length) ≡ o
    → topic_from type external_id o ≡ some t
    → IsTopic t
topic_from-IsTopic title (some type) (some external_id) (some s) t e h =
    elim (Bool-cases
      (is_topic_type type && not (is_empty external_id) && leb (length external_id) 255)) [
        | inl f ↦
            subst IsTopic (made f)
              (record { typed = f; titled = trimmed-IsTrimmed max_title_length title s e })
        | inr f ↦ absurd (refusal f)
      ]
  where
    made :
        (is_topic_type type && not (is_empty external_id) && leb (length external_id) 255) ≡ true
        → record { type = type; external_id = external_id; title = s } ≡ t
    made f =
        let k : some (record { type = type; external_id = external_id; title = s }) ≡ some t =
          rw f at h in
        cc k

    refusal :
        (is_topic_type type && not (is_empty external_id) && leb (length external_id) 255) ≡ false
        → ⊥
    refusal f = let k : none ≡ some t = rw f at h in cc
topic_from-IsTopic title none external_id o t e h = cc
topic_from-IsTopic title (some type) none o t e h = cc
topic_from-IsTopic title (some type) (some external_id) none t e h = cc

pub topic_of-IsTopic : (fields : Properties) (t : TopicInput) → topic_of fields ≡ some t → IsTopic t
unfolding topic_of
topic_of-IsTopic fields t h =
    topic_from-IsTopic (get fields "title") (as_text (get fields "type"))
      (as_text (get fields "externalId")) _ t refl h

pub email_address-some :
    (o : Option Text) (s : Text) → if_email o ≡ some s → is_email_address s ≡ true
email_address-some none s h = cc
email_address-some (some t) s h = elim (Bool-cases (is_email_address t)) [
  | inl e ↦ subst (λ x. is_email_address x ≡ true) (ground arith) e
  | inr e ↦ absurd (ground arith)
]

-- A text that is let through is header-safe, and its trimmed form a name.
pub text-IsName :
    (max_length : ℕ) (s : Text)
    → not (is_null (header_safe (some (text s)) max_length)) ≡ true
    → IsName any_text max_length (trimmed (some s))
text-IsName max_length s h = elim (Bool-cases (is_header_safe_text s max_length)) [
  | inr e ↦ absurd (ground arith)
  | inl e ↦ elim (Bool-cases (is_blank s)) [
    | inl f ↦ subst (IsName any_text max_length) (sym (blank f)) tt
    | inr f ↦
        subst (IsName any_text max_length) (sym (filled f)) (trim-IsTrimmed max_length s e f, refl)
  ]
]
  where
    blank : is_blank s ≡ true → trimmed (some s) ≡ none
    blank f = rw f refl

    filled : is_blank s ≡ false → trimmed (some s) ≡ some (trim s)
    filled f = rw f refl

pub trimmed-IsName :
    (max_length : ℕ) (value : Option Json)
    → (is_nullish value || not (is_null (header_safe value max_length))) ≡ true
    → IsName any_text max_length (trimmed (as_text value))
trimmed-IsName max_length none h = tt
trimmed-IsName max_length (some (text s)) h = text-IsName max_length s h
trimmed-IsName max_length (some null) h = tt
trimmed-IsName max_length (some (boolean b)) h = tt
trimmed-IsName max_length (some (number n)) h = tt
trimmed-IsName max_length (some (array items)) h = tt
trimmed-IsName max_length (some (object fields)) h = tt

pub subject-nullish :
    (value : Option Json)
    → subject_allowed value ≡ true
    → (is_nullish value || not (is_null (header_safe value max_subject_length))) ≡ true
subject-nullish none h = refl
subject-nullish (some (text s)) h = h
subject-nullish (some null) h = refl
subject-nullish (some (boolean b)) h = h
subject-nullish (some (number n)) h = h
subject-nullish (some (array items)) h = h
subject-nullish (some (object fields)) h = h
