-- ===== src/Requests/Bodies.antt =====
-- src/lib/send-validation.ts: the bodies of the requests.
use resend_conversation_serv.Prelude.{
  ℕ, Bool, true, false, ◌&&◌, ◌||◌, not, Option, none, some, List, [], ◌∷◌, leb, ◌==◌,
  if◌then◌else◌, length, is_null,
}
use resend_conversation_serv.Prelude.Text.{Text, codes, every}
use resend_conversation_serv.Prelude.Text.Search.{is_empty}
use resend_conversation_serv.Requests.Json.{
  Json, Properties, end, get, as_record, as_text, is_undefined, is_nullish,
}
use resend_conversation_serv.Requests.Checks.{
  Checked, accepted, ◌>>=◌, ◌>>◌, guard, require, max_title_length, max_subject_length,
  max_name_length, max_body_length, header_safe, email_address, is_uuid, trimmed,
}
use resend_conversation_serv.Requests.Inputs.{
  EmailIdentityInput, TopicInput, CreateConversationInput, ReplyInput, CreateConversationV2Input,
  MessageV2Input, DirectEmailV2Input, AttachmentSettings,
}
use resend_conversation_serv.Requests.Fields.{
  normalize_reply_to_name, normalize_email_identity, normalize_email_identities, normalize_tags,
  normalize_attachment_refs,
}

-- `text ? { text } : {}`
abbrev pub present : Option Text → Option Text
present none = none
present (some s) = if is_empty s then none else some s

-- `(text?.length ?? 0) > MAX_BODY_LENGTH`, negated
abbrev pub within_limit : Option Text → Bool
within_limit none = true
within_limit (some s) = leb (length s) max_body_length

abbrev pub has_content : Option Text → Option Text → Bool
has_content text html = not (is_null (present text)) || not (is_null (present html))

abbrev pub topic_and_participant : Option Properties → Option (Properties × Properties × Properties)
topic_and_participant none = none
topic_and_participant (some value) =
    both (as_record (get value "topic")) (as_record (get value "participant"))
  where
    both : Option Properties → Option Properties → Option (Properties × Properties × Properties)
    both (some topic) (some participant) = some (value, topic, participant)
    both (some topic) none = none
    both none participant = none

abbrev pub record_or_empty : Option Properties → Properties
record_or_empty none = end
record_or_empty (some fields) = fields

abbrev pub is_type_start : ℕ → Bool
is_type_start c = leb b'a' c && leb c b'z'

abbrev pub is_type_char : ℕ → Bool
is_type_char c = is_type_start c || (leb b'0' c && leb c b'9') || c == b'_' || c == b'-'

-- /^[a-z][a-z0-9_-]{0,63}$/
unfoldable pub is_topic_type : Text → Bool
is_topic_type [] = false
is_topic_type (c ∷ s) = is_type_start c && every is_type_char s && leb (length s) 63

abbrev pub topic_from : Option Text → Option Text → Option Text → Option TopicInput
topic_from (some type) (some external_id) (some title) =
    if is_topic_type type && not (is_empty external_id) && leb (length external_id) 255
    then some (record { type = type; external_id = external_id; title = title })
    else none
topic_from none external_id title = none
topic_from (some type) none title = none
topic_from (some type) (some external_id) none = none

unfoldable pub topic_of : Properties → Option TopicInput
unfolding is_topic_type
topic_of topic =
    topic_from (as_text (get topic "type")) (as_text (get topic "externalId"))
      (trimmed (header_safe (get topic "title") max_title_length))

abbrev pub name_allowed : Option Json → Bool
name_allowed name = is_nullish name || not (is_null (header_safe name max_name_length))

abbrev pub subject_allowed : Option Json → Bool
subject_allowed subject =
    is_undefined subject || not (is_null (header_safe subject max_subject_length))

unfoldable pub validate_create_body : Option Json → Checked CreateConversationInput
unfolding topic_of normalize_reply_to_name
validate_create_body value = do
  parts ←
      require (topic_and_participant (as_record value))
        (codes "topic and participant objects are required")
  topic ← require (topic_of parts.1) (codes "topic type, externalId, and title are invalid")
  email ←
      require (email_address (get parts.2 "email"))
        (codes "participant.email must be a valid email address")
  guard (name_allowed (get parts.2 "name")) (codes "participant.name is invalid")
  let message = record_or_empty (as_record (get parts.0 "message"))
  let text = as_text (get message "text")
  let html = as_text (get message "html")
  reply_to_name ←
      require (normalize_reply_to_name (get message "replyToName"))
        (codes "message.replyToName must be a header-safe string of at most 256 characters")
  guard (has_content text html) (codes "message.text or message.html is required")
  guard (within_limit text && within_limit html)
      (codes "message.text and message.html are limited to 1 MiB each")
  guard (subject_allowed (get parts.0 "subject"))
      (codes "subject must be a header-safe string of at most 255 characters")
  accepted (record {
    topic = topic;
    participant = record { email = email; name = trimmed (as_text (get parts.2 "name")) };
    subject = trimmed (as_text (get parts.0 "subject"));
    message = record { text = present text; html = present html; reply_to_name = reply_to_name };
  })

abbrev pub is_uuid_text : Option Text → Bool
is_uuid_text none = false
is_uuid_text (some s) = is_uuid s

unfoldable pub validate_message_body : Option Json → Checked ReplyInput
unfolding normalize_reply_to_name
validate_message_body value = do
  fields ← require (as_record value) (codes "Request body must be an object")
  let text = as_text (get fields "text")
  let html = as_text (get fields "html")
  let reply_to_message_id = get fields "replyToMessageId"
  reply_to_name ←
      require (normalize_reply_to_name (get fields "replyToName"))
        (codes "replyToName must be a header-safe string of at most 256 characters")
  guard (has_content text html) (codes "text or html is required")
  guard (within_limit text && within_limit html) (codes "text and html are limited to 1 MiB each")
  guard (is_undefined reply_to_message_id || is_uuid_text (as_text reply_to_message_id))
      (codes "replyToMessageId must be a UUID")
  accepted (record {
    text = present text;
    html = present html;
    reply_to_message_id = as_text reply_to_message_id;
    reply_to_name = reply_to_name;
  })

-- `value === undefined ? undefined : normalizeEmailIdentities(…)`
unfoldable pub optional_identities : Option Json → Text → Checked (Option (List EmailIdentityInput))
unfolding normalize_email_identities
optional_identities none field = accepted none
optional_identities (some value) field = do
  to ← normalize_email_identities (some value) field
  accepted (some to)

abbrev pub message_of : Option Properties → Option Properties
message_of none = none
message_of (some fields) = as_record (get fields "message")

unfoldable pub validate_create_v2_body :
    AttachmentSettings → Option Json → Checked CreateConversationV2Input
unfolding validate_create_body normalize_email_identity normalize_tags normalize_attachment_refs
    optional_identities
validate_create_v2_body settings value = do
  base ← validate_create_body value
  message ← require (message_of (as_record value)) (codes "message is required")
  guard (is_undefined (get message "replyToName"))
      (codes "message.replyToName is not supported in API v2")
  from ← normalize_email_identity (get message "from") (codes "message.from") false
  reply_to ← normalize_email_identity (get message "replyTo") (codes "message.replyTo") true
  tags ← normalize_tags (get message "tags") (codes "message.tags")
  attachments ←
      normalize_attachment_refs settings (get message "attachments") (codes "message.attachments")
  to ← optional_identities (get message "to") (codes "message.to")
  accepted (record {
    topic = base.topic;
    participant = base.participant;
    subject = present base.subject;
    message = record {
      text = present base.message.text;
      html = present base.message.html;
      from = from;
      to = to;
      reply_to = reply_to;
      tags = tags;
      attachments = attachments;
    };
  })

unfoldable pub validate_message_v2_body : AttachmentSettings → Option Json → Checked MessageV2Input
unfolding validate_message_body normalize_email_identity normalize_tags normalize_attachment_refs
    optional_identities
validate_message_v2_body settings value = do
  base ← validate_message_body value
  fields ← require (as_record value) (codes "Request body must be an object")
  guard (is_undefined (get fields "replyToName")) (codes "replyToName is not supported in API v2")
  from ← normalize_email_identity (get fields "from") (codes "from") false
  reply_to ← normalize_email_identity (get fields "replyTo") (codes "replyTo") true
  tags ← normalize_tags (get fields "tags") (codes "tags")
  attachments ← normalize_attachment_refs settings (get fields "attachments") (codes "attachments")
  to ← optional_identities (get fields "to") (codes "to")
  accepted (record {
    text = present base.text;
    html = present base.html;
    reply_to_message_id = present base.reply_to_message_id;
    from = from;
    to = to;
    reply_to = reply_to;
    tags = tags;
    attachments = attachments;
  })

-- `value.text !== undefined && (typeof value.text !== 'string' || !value.text)`, negated
abbrev pub absent_or_nonempty : Option Json → Bool
absent_or_nonempty value = is_undefined value || not (is_null (present (as_text value)))

unfoldable pub validate_direct_email_v2_body :
    AttachmentSettings → Option Json → Checked DirectEmailV2Input
unfolding normalize_email_identity normalize_email_identities normalize_tags
    normalize_attachment_refs
validate_direct_email_v2_body settings value = do
  fields ← require (as_record value) (codes "Request body must be an object")
  guard (is_undefined (get fields "replyTo")) (codes "replyTo is not supported for direct email")
  from ← normalize_email_identity (get fields "from") (codes "from") false
  to ← normalize_email_identities (get fields "to") (codes "to")
  tags ← normalize_tags (get fields "tags") (codes "tags")
  attachments ← normalize_attachment_refs settings (get fields "attachments") (codes "attachments")
  subject ←
      require (trimmed (header_safe (get fields "subject") max_subject_length))
        (codes "subject must be a nonempty header-safe string of at most 255 characters")
  guard (absent_or_nonempty (get fields "text"))
      (codes "text must be a nonempty string when provided")
  guard (absent_or_nonempty (get fields "html"))
      (codes "html must be a nonempty string when provided")
  let text = as_text (get fields "text")
  let html = as_text (get fields "html")
  guard (has_content text html) (codes "text or html is required")
  guard (within_limit text && within_limit html) (codes "text and html are limited to 1 MiB each")
  accepted (record {
    from = from;
    to = to;
    subject = subject;
    text = present text;
    html = present html;
    tags = tags;
    attachments = attachments;
  })
