-- ===== src/Requests/DirectEmail.antt =====
-- The accepted bodies of POST /api/emails/v2.
use resend_conversation_serv.Prelude.{
  ◌≡◌, refl, subst, true, false, ◌&&◌, Option, none, some, List, [], ◌∷◌,
}
use resend_conversation_serv.Prelude.Text.{Text, codes}
use resend_conversation_serv.Requests.Json.{
  Json, text, array, object, get, as_text, as_record, is_undefined,
}
use resend_conversation_serv.Requests.Checks.{
  accepted, accepted-eq, >>=-accepted, guard-accepted, require-accepted, header_safe,
  max_subject_length, trimmed,
}
use resend_conversation_serv.Requests.Inputs.{DirectEmailV2Input, AttachmentSettings}
use resend_conversation_serv.Requests.Fields.{
  normalize_email_identity, normalize_email_identities, normalize_tags, normalize_attachment_refs,
  max_tags,
}
use resend_conversation_serv.Requests.Bodies.{
  present, within_limit, has_content, absent_or_nonempty, validate_direct_email_v2_body,
}
use resend_conversation_serv.Requests.Texts.{IsTrimmed, trimmed-IsTrimmed}
use resend_conversation_serv.Requests.Identities.{
  IsIdentity, AreRecipients, identity_json, identities_json, normalize_email_identity-IsIdentity,
  normalize_email_identities-AreRecipients, identity_json-accepted, identities_json-accepted,
}
use resend_conversation_serv.Requests.Tags.{
  IsTag, IsFilled, tags_json, normalize_tags-IsFilled, tags_json-accepted,
}
use resend_conversation_serv.Requests.References.{
  AreAttachments, normalize_attachment_refs-AreAttachments,
}
use resend_conversation_serv.Requests.References.Kept.{attachments_json, attachments_json-accepted}
use resend_conversation_serv.Requests.Objects.{
  object_of, get-object_of, text_json, as_text-text_json, IsContent, present-IsContent,
}

-- A direct mail as the validation returns it.
pub record IsDirectEmail (settings : AttachmentSettings) (e : DirectEmailV2Input) : Type 0 where
  pub sender : IsIdentity false e.from
  pub recipients : AreRecipients e.to
  pub titled : IsTrimmed max_subject_length e.subject
  pub content : IsContent e.text e.html
  pub tagged : IsFilled IsTag max_tags e.tags
  pub attached : AreAttachments settings e.attachments

-- An accepted direct mail has a valid sender, one to fifty valid recipients, a nonempty trimmed
-- subject, a text or HTML within the limits, at most ten tags, and references to attachments as
-- the settings allow them, no id twice.
pub validate_direct_email_v2_body-IsDirectEmail :
    (settings : AttachmentSettings) (value : Option Json) (e : DirectEmailV2Input)
    → validate_direct_email_v2_body settings value ≡ accepted e
    → IsDirectEmail settings e
unfolding validate_direct_email_v2_body
validate_direct_email_v2_body-IsDirectEmail settings value e h =
    let (fields, read, h₁) = require-accepted (as_record value) _ _ e h in
    let (plain, h₂) = guard-accepted (is_undefined (get fields "replyTo")) _ _ e h₁ in
    let (from, sender, h₃) =
      >>=-accepted (normalize_email_identity (get fields "from") (codes "from") false) _ e h₂ in
    let (to, receivers, h₄) =
      >>=-accepted (normalize_email_identities (get fields "to") (codes "to")) _ e h₃ in
    let (tags, tagged, h₅) =
      >>=-accepted (normalize_tags (get fields "tags") (codes "tags")) _ e h₄ in
    let (refs, attached, h₆) =
      >>=-accepted
        (normalize_attachment_refs settings (get fields "attachments") (codes "attachments")) _ e
        h₅ in
    let (subject, titled, h₇) =
      require-accepted (trimmed (header_safe (get fields "subject") max_subject_length)) _ _ e h₆ in
    let (text_there, h₈) = guard-accepted (absent_or_nonempty (get fields "text")) _ _ e h₇ in
    let (html_there, h₉) = guard-accepted (absent_or_nonempty (get fields "html")) _ _ e h₈ in
    let plain_text = as_text (get fields "text") in
    let html = as_text (get fields "html") in
    let (filled, h₁₀) = guard-accepted (has_content plain_text html) _ _ e h₉ in
    let (within, made) = guard-accepted (within_limit plain_text && within_limit html) _ _ e h₁₀ in
    subst (IsDirectEmail settings) (accepted-eq made) (record {
      sender =
          normalize_email_identity-IsIdentity (get fields "from") (codes "from") false from sender;
      recipients =
          normalize_email_identities-AreRecipients (get fields "to") (codes "to") to receivers;
      titled = trimmed-IsTrimmed max_subject_length (get fields "subject") subject titled;
      content = present-IsContent plain_text html filled within;
      tagged = normalize_tags-IsFilled (get fields "tags") (codes "tags") tags tagged;
      attached =
          normalize_attachment_refs-AreAttachments settings (get fields "attachments")
            (codes "attachments") refs attached;
    })

-- A direct mail as a request.
abbrev direct_properties : DirectEmailV2Input → List (Text × Option Json)
direct_properties e =
    (codes "from", some (identity_json e.from))
    ∷ (codes "to", some (array (identities_json e.to)))
    ∷ (codes "subject", some (text e.subject))
    ∷ (codes "text", text_json e.text)
    ∷ (codes "html", text_json e.html)
    ∷ (codes "tags", tags_json e.tags)
    ∷ (codes "attachments", attachments_json e.attachments)
    ∷ []

abbrev pub direct_json : DirectEmailV2Input → Json
direct_json e = object (object_of (direct_properties e))

present-absent_or_nonempty :
    (o : Option Text) → present o ≡ o → absent_or_nonempty (text_json o) ≡ true
present-absent_or_nonempty none h = refl
present-absent_or_nonempty (some s) h = rw h refl

direct_json-accepted :
    (settings : AttachmentSettings) (e : DirectEmailV2Input)
    → IsDirectEmail settings e
    → validate_direct_email_v2_body settings (some (direct_json e)) ≡ accepted e
unfolding validate_direct_email_v2_body
direct_json-accepted settings e v =
    let l = direct_properties e in
    rw
      (
        get-object_of "replyTo" l none refl,
        get-object_of "tags" l (tags_json e.tags) refl,
        get-object_of "attachments" l (attachments_json e.attachments) refl,
        get-object_of "text" l (text_json e.text) refl,
        get-object_of "html" l (text_json e.html) refl,
        identity_json-accepted (codes "from") false e.from v.sender,
        identities_json-accepted (codes "to") e.to v.recipients,
        tags_json-accepted (codes "tags") e.tags v.tagged,
        attachments_json-accepted settings (codes "attachments") e.attachments v.attached,
        v.titled.safe,
        v.titled.filled,
        v.titled.same,
        present-absent_or_nonempty e.text v.content.plain_same,
        present-absent_or_nonempty e.html v.content.html_same,
        as_text-text_json e.text,
        as_text-text_json e.html,
        v.content.filled,
        v.content.within,
        v.content.plain_same,
        v.content.html_same,
      )
      refl

-- What is accepted as a direct mail is accepted again, as itself, when it is sent as a request.
pub validate_direct_email_v2_body-direct_json :
    (settings : AttachmentSettings) (value : Option Json) (e : DirectEmailV2Input)
    → validate_direct_email_v2_body settings value ≡ accepted e
    → validate_direct_email_v2_body settings (some (direct_json e)) ≡ accepted e
validate_direct_email_v2_body-direct_json settings value e h =
    direct_json-accepted settings e (validate_direct_email_v2_body-IsDirectEmail settings value e h)
