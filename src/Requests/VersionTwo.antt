-- ===== src/Requests/VersionTwo.antt =====
-- The accepted bodies of the second version, and what they have in common with the first.
use resend_conversation_serv.Prelude.{
  ℕ, ◌≡◌, refl, subst, Bool, true, false, Option, none, some, List, [], ◌∷◌, ◌++◌, ◌==◌, arith, any,
  Bool-cases, inl, inr,
}
use resend_conversation_serv.Prelude.Text.{Text, codes, some_char, text_eq, to_lower, trim}
use resend_conversation_serv.Prelude.Text.Search.{is_empty, includes}
use resend_conversation_serv.Requests.Json.{
  Json, text, object, property, end, get, as_record, is_undefined,
}
use resend_conversation_serv.Requests.Checks.{
  accepted, refused, accepted-eq, >>=-accepted, guard-accepted, require-accepted, is_uuid, is_blank,
  is_header_safe_text,
}
use resend_conversation_serv.Requests.Inputs.{
  EmailIdentityInput, EmailTagInput, EmailAttachmentRefInput, CreateConversationInput,
  CreateConversationV2Input, AttachmentSettings,
}
use resend_conversation_serv.Requests.Fields.{
  normalize_email_identity, normalize_email_identities, normalize_tags, normalize_attachment_refs,
  max_tags, attachment_ref, indexed, is_content_id_bracket, max_content_id_length,
}
use resend_conversation_serv.Requests.Bodies.{
  present, validate_create_body, optional_identities, message_of, validate_create_v2_body,
}
use resend_conversation_serv.Requests.Texts.{IsName}
use resend_conversation_serv.Requests.Identities.{
  IsIdentity, AreRecipients, normalize_email_identity-IsIdentity,
  normalize_email_identities-AreRecipients,
}
use resend_conversation_serv.Requests.Tags.{IsTag, IsFilled, normalize_tags-IsFilled}
use resend_conversation_serv.Requests.References.{
  AreAttachments, normalize_attachment_refs-AreAttachments,
}
use resend_conversation_serv.Requests.Create.{validate_create_body-IsCreate}

abbrev OptionalRecipients : Option (List EmailIdentityInput) → Type 0
OptionalRecipients none = Unit {0}
OptionalRecipients (some is) = AreRecipients is

optional_identities-OptionalRecipients :
    (value : Option Json) (field : Text) (to : Option (List EmailIdentityInput))
    → optional_identities value field ≡ accepted to
    → OptionalRecipients to
unfolding optional_identities
optional_identities-OptionalRecipients none field to h = subst OptionalRecipients (accepted-eq h) tt
optional_identities-OptionalRecipients (some value) field to h =
    let (is, receivers, made) =
      >>=-accepted (normalize_email_identities (some value) field) _ to h in
    subst OptionalRecipients (accepted-eq made)
      (normalize_email_identities-AreRecipients (some value) field is receivers)

-- What the second version adds to a message.
pub record IsAddressed (settings : AttachmentSettings) (from reply_to : EmailIdentityInput)
    (to : Option (List EmailIdentityInput)) (tags : Option (List EmailTagInput))
    (refs : Option (List EmailAttachmentRefInput)) : Type 0 where
  pub sender : IsIdentity false from
  pub answered : IsIdentity true reply_to
  pub recipients : OptionalRecipients to
  pub tagged : IsFilled IsTag max_tags tags
  pub attached : AreAttachments settings refs

-- A body that the second version accepts is one that the first version accepts, with the same topic,
-- participant, subject and content.
pub record ExtendsCreate (settings : AttachmentSettings) (value : Option Json)
    (c : CreateConversationV2Input) : Type 0 where
  pub base : CreateConversationInput
  pub base_accepted : validate_create_body value ≡ accepted base
  pub topic_same : c.topic ≡ base.topic
  pub participant_same : c.participant ≡ base.participant
  pub subject_same : c.subject ≡ base.subject
  pub text_same : c.message.text ≡ base.message.text
  pub html_same : c.message.html ≡ base.message.html
  pub addressed :
      IsAddressed settings c.message.from c.message.reply_to c.message.to c.message.tags
        c.message.attachments

filled-present :
    (ok : Text → Bool) (max_length : ℕ) (o : Option Text) → IsName ok max_length o → present o ≡ o
filled-present ok max_length none h = refl
filled-present ok max_length (some s) h = rw (filled s h.0.filled) refl
  where
    blank : is_blank [] ≡ true
    blank = unfold trim in refl

    filled : (t : Text) → is_blank t ≡ false → is_empty t ≡ false
    filled [] k = absurd (cc (blank, k))
    filled (c ∷ t) k = refl

-- A body that creates a conversation in the second version is accepted by the first version, with
-- the same topic, participant, subject, text and HTML; its sender and recipients are valid, the
-- Reply-To address is a valid base address, there are at most ten tags, and the references to
-- attachments are as the settings allow them, no id twice.
pub validate_create_v2_body-ExtendsCreate :
    (settings : AttachmentSettings) (value : Option Json) (c : CreateConversationV2Input)
    → validate_create_v2_body settings value ≡ accepted c
    → ExtendsCreate settings value c
unfolding validate_create_v2_body
validate_create_v2_body-ExtendsCreate settings value c h =
    let (base, first, h₁) = >>=-accepted (validate_create_body value) _ c h in
    let (message, read, h₂) = require-accepted (message_of (as_record value)) _ _ c h₁ in
    let (plain, h₃) = guard-accepted (is_undefined (get message "replyToName")) _ _ c h₂ in
    let (from, sender, h₄) =
      >>=-accepted (normalize_email_identity (get message "from") (codes "message.from") false) _ c
        h₃ in
    let (reply_to, answered, h₅) =
      >>=-accepted (normalize_email_identity (get message "replyTo") (codes "message.replyTo") true)
        _ c h₄ in
    let (tags, tagged, h₆) =
      >>=-accepted (normalize_tags (get message "tags") (codes "message.tags")) _ c h₅ in
    let (refs, attached, h₇) =
      >>=-accepted
        (normalize_attachment_refs settings (get message "attachments")
          (codes "message.attachments"))
        _ c h₆ in
    let (to, receivers, made) =
      >>=-accepted (optional_identities (get message "to") (codes "message.to")) _ c h₇ in
    let v = validate_create_body-IsCreate value base first in
    subst (ExtendsCreate settings value) (accepted-eq made) (record {
      base = base;
      base_accepted = first;
      topic_same = refl;
      participant_same = refl;
      subject_same = filled-present _ _ base.subject v.titled;
      text_same = v.content.plain_same;
      html_same = v.content.html_same;
      addressed = record {
        sender =
            normalize_email_identity-IsIdentity (get message "from") (codes "message.from") false
              from sender;
        answered =
            normalize_email_identity-IsIdentity (get message "replyTo") (codes "message.replyTo")
              true reply_to answered;
        recipients =
            optional_identities-OptionalRecipients (get message "to") (codes "message.to") to
              receivers;
        tagged = normalize_tags-IsFilled (get message "tags") (codes "message.tags") tags tagged;
        attached =
            normalize_attachment_refs-AreAttachments settings (get message "attachments")
              (codes "message.attachments") refs attached;
      };
    })

some_char-bracket : (s : Text) → includes b's' s ≡ true → some_char is_content_id_bracket s ≡ true
unfolding includes some_char
some_char-bracket [] h = cc
some_char-bracket (c ∷ s) h = elim (Bool-cases (c == b's')) [
  | inl e ↦ ground arith
  | inr e ↦ let ih = some_char-bracket s (ground arith) in ground arith
]

-- A reference whose id is a UUID that no reference before it has, and whose content id has the letter
-- s in it, is refused.
pub attachment_ref-letter_s :
    (index : ℕ) (field : Text) (seen : List Text) (id content_id : Text)
    → is_uuid id ≡ true
    → any (text_eq (to_lower id)) seen ≡ false
    → includes b's' content_id ≡ true
    → attachment_ref index field seen (
        some (
          object
            (property (codes "id") (text id) (property (codes "contentId") (text content_id) end))))
      ≡ refused (
          indexed field index
          ++ codes ".contentId must be a header-safe token of at most 255 characters")
unfolding attachment_ref
attachment_ref-letter_s index field seen id content_id u n h =
    elim (Bool-cases (is_header_safe_text content_id max_content_id_length)) [
      | inr e ↦ rw (u, n, e) refl
      | inl e ↦ elim (Bool-cases (is_blank content_id)) [
        | inl f ↦ rw (u, n, e, f) refl
        | inr f ↦ rw (u, n, e, f, some_char-bracket content_id h) refl
      ]
    ]
