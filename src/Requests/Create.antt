-- ===== src/Requests/Create.antt =====
-- The accepted bodies that create a conversation, and the accepted replies of the first version.
use resend_conversation_serv.Requests.Topics.{
  any_text, IsTopic, IsCreate, topic_of-IsTopic, email_address-some, trimmed-IsName,
  subject-nullish,
}
use resend_conversation_serv.Prelude.{
  ◌≡◌, refl, subst, true, ◌&&◌, Option, none, some, List, [], ◌∷◌,
}
use resend_conversation_serv.Prelude.Text.{Text, codes}
use resend_conversation_serv.Requests.Json.{Json, text, object, get, as_text, as_record}
use resend_conversation_serv.Requests.Checks.{
  accepted, accepted-eq, guard-accepted, require-accepted, email_address, max_name_length,
  max_subject_length, trimmed,
}
use resend_conversation_serv.Requests.Inputs.{
  TopicInput, ParticipantInput, MessageInput, CreateConversationInput,
}
use resend_conversation_serv.Requests.Fields.{normalize_reply_to_name}
use resend_conversation_serv.Requests.Bodies.{
  within_limit, has_content, topic_and_participant, record_or_empty, topic_of, name_allowed,
  subject_allowed, validate_create_body,
}
use resend_conversation_serv.Requests.Texts.{IsName, name_json, trimmed-kept}
use resend_conversation_serv.Requests.Objects.{
  object_of, get-object_of, text_json, as_text-text_json, present-IsContent,
  normalize_reply_to_name-IsName, normalize_reply_to_name-json,
}

-- An accepted new conversation has a topic of the allowed form, a valid address of the participant,
-- names and a subject that are absent or trimmed and header-safe within their limits, and a text or
-- HTML within the limits.
pub validate_create_body-IsCreate :
    (value : Option Json) (c : CreateConversationInput)
    → validate_create_body value ≡ accepted c
    → IsCreate c
unfolding validate_create_body
validate_create_body-IsCreate value c h =
    let (parts, read, h₁) = require-accepted (topic_and_participant (as_record value)) _ _ c h in
    let (topic, typed, h₂) = require-accepted (topic_of parts.1) _ _ c h₁ in
    let (email, valid, h₃) = require-accepted (email_address (get parts.2 "email")) _ _ c h₂ in
    let (named, h₄) = guard-accepted (name_allowed (get parts.2 "name")) _ _ c h₃ in
    let message = record_or_empty (as_record (get parts.0 "message")) in
    let plain = as_text (get message "text") in
    let html = as_text (get message "html") in
    let (reply_to_name, answered, h₅) =
      require-accepted (normalize_reply_to_name (get message "replyToName")) _ _ c h₄ in
    let (filled, h₆) = guard-accepted (has_content plain html) _ _ c h₅ in
    let (within, h₇) = guard-accepted (within_limit plain && within_limit html) _ _ c h₆ in
    let (titled, made) = guard-accepted (subject_allowed (get parts.0 "subject")) _ _ c h₇ in
    subst IsCreate (accepted-eq made) (record {
      topic_valid = topic_of-IsTopic parts.1 topic typed;
      email_valid = email_address-some (as_text (get parts.2 "email")) email valid;
      named = trimmed-IsName max_name_length (get parts.2 "name") named;
      titled =
          trimmed-IsName max_subject_length (get parts.0 "subject")
            (subject-nullish (get parts.0 "subject") titled);
      content = present-IsContent plain html filled within;
      answered = normalize_reply_to_name-IsName (get message "replyToName") reply_to_name answered;
    })

abbrev topic_json : TopicInput → Json
topic_json t = object (
    object_of (
      (codes "type", some (text t.type))
      ∷ (codes "externalId", some (text t.external_id))
      ∷ (codes "title", some (text t.title))
      ∷ []))

abbrev participant_json : ParticipantInput → Json
participant_json p = object (
    object_of ((codes "email", some (text p.email)) ∷ (codes "name", some (name_json p.name)) ∷ []))

abbrev message_properties : MessageInput → List (Text × Option Json)
message_properties m =
    (codes "text", text_json m.text)
    ∷ (codes "html", text_json m.html)
    ∷ (codes "replyToName", text_json m.reply_to_name)
    ∷ []

-- A new conversation as a request.
abbrev create_properties : CreateConversationInput → List (Text × Option Json)
create_properties c =
    (codes "topic", some (topic_json c.topic))
    ∷ (codes "participant", some (participant_json c.participant))
    ∷ (codes "subject", text_json c.subject)
    ∷ (codes "message", some (object (object_of (message_properties c.message))))
    ∷ []

abbrev pub create_json : CreateConversationInput → Json
create_json c = object (object_of (create_properties c))

name_json-allowed :
    (o : Option Text) → IsName any_text max_name_length o → name_allowed (some (name_json o)) ≡ true
name_json-allowed none h = refl
name_json-allowed (some s) h = rw h.0.safe refl

name_json-trimmed :
    (o : Option Text)
    → IsName any_text max_name_length o
    → trimmed (as_text (some (name_json o))) ≡ o
name_json-trimmed none h = refl
name_json-trimmed (some s) h = trimmed-kept h.0

text_json-allowed :
    (o : Option Text) → IsName any_text max_subject_length o → subject_allowed (text_json o) ≡ true
text_json-allowed none h = refl
text_json-allowed (some s) h = rw h.0.safe refl

text_json-trimmed :
    (o : Option Text) → IsName any_text max_subject_length o → trimmed (as_text (text_json o)) ≡ o
text_json-trimmed none h = refl
text_json-trimmed (some s) h = trimmed-kept h.0

topic_json-accepted :
    (t : TopicInput)
    → IsTopic t
    → topic_of (record_or_empty (as_record (some (topic_json t)))) ≡ some t
unfolding topic_of
topic_json-accepted t v = rw (v.titled.safe, v.titled.filled, v.titled.same, v.typed) refl

create_json-accepted :
    (c : CreateConversationInput)
    → IsCreate c
    → validate_create_body (some (create_json c)) ≡ accepted c
unfolding validate_create_body
create_json-accepted c v =
    let l = create_properties c in
    let m = message_properties c.message in
    rw
      (
        topic_json-accepted c.topic v.topic_valid,
        v.email_valid,
        name_json-allowed c.participant.name v.named,
        get-object_of "message" l (some (object (object_of m))) refl,
        get-object_of "subject" l (text_json c.subject) refl,
        get-object_of "text" m (text_json c.message.text) refl,
        get-object_of "html" m (text_json c.message.html) refl,
        get-object_of "replyToName" m (text_json c.message.reply_to_name) refl,
        normalize_reply_to_name-json c.message.reply_to_name v.answered,
        as_text-text_json c.message.text,
        as_text-text_json c.message.html,
        v.content.filled,
        v.content.within,
        text_json-allowed c.subject v.titled,
        name_json-trimmed c.participant.name v.named,
        text_json-trimmed c.subject v.titled,
        v.content.plain_same,
        v.content.html_same,
      )
      refl

-- What is accepted as a new conversation is accepted again, as itself, when it is sent as a request.
pub validate_create_body-create_json :
    (value : Option Json) (c : CreateConversationInput)
    → validate_create_body value ≡ accepted c
    → validate_create_body (some (create_json c)) ≡ accepted c
validate_create_body-create_json value c h =
    create_json-accepted c (validate_create_body-IsCreate value c h)
