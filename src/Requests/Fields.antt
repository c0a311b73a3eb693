-- ===== src/Requests/Fields.antt =====
-- src/lib/send-validation.ts: names, identities, tags and references to attachments.
use resend_conversation_serv.Prelude.{
  ℕ, suc, Bool, false, ◌&&◌, ◌||◌, not, Option, none, some, List, [], ◌∷◌, ◌++◌, leb, ◌==◌,
  if◌then◌else◌, length, any,
}
use resend_conversation_serv.Prelude.Text.{Text, codes, decimal, some_char, text_eq, to_lower, trim}
use resend_conversation_serv.Email.Routing.{is_valid_reply_to_base_address}
use resend_conversation_serv.Requests.Json.{
  Json, Properties, get, as_record, as_text, as_array, is_undefined, is_nullish,
}
use resend_conversation_serv.Requests.Checks.{
  Checked, accepted, refused, ◌>>=◌, ◌>>◌, guard, require, max_name_length, header_safe,
  is_email_address, is_uuid, is_bracket, is_blank, trimmed,
}
use resend_conversation_serv.Requests.Inputs.{
  EmailIdentityInput, EmailTagInput, EmailAttachmentRefInput, AttachmentSettings,
}

abbrev pub max_tag_length : ℕ
max_tag_length = 256

abbrev pub max_content_id_length : ℕ
max_content_id_length = 255

abbrev pub max_recipients : ℕ
max_recipients = 50

abbrev pub max_tags : ℕ
max_tags = 10

-- `none` for undefined, `some none` for null.
abbrev pub unbracketed : Option Text → Option (Option Text)
unbracketed none = some none
unbracketed (some s) = if some_char is_bracket s then none else some (some s)

abbrev pub reply_to_name_of : Option Text → Option (Option Text)
reply_to_name_of none = none
reply_to_name_of (some s) = unbracketed (trimmed (some s))

unfoldable pub normalize_reply_to_name : Option Json → Option (Option Text)
normalize_reply_to_name value =
    let checked = reply_to_name_of (header_safe value max_name_length) in
    if is_nullish value then some none else checked

abbrev pub identity_name_safe : Option Text → Bool
identity_name_safe none = false
identity_name_safe (some s) = not (some_char is_bracket s)

abbrev pub address_message : Text → Bool → Text
address_message field reply_to =
    field
    ++ (if reply_to
        then codes ".address must be an untagged Reply-To base address"
        else codes ".address must be a valid email address")

abbrev pub address_accepted : Bool → Text → Bool
address_accepted reply_to address =
    is_email_address address && (not reply_to || is_valid_reply_to_base_address address)

abbrev pub identity_of : Option Json → Text → Bool → Text → Checked EmailIdentityInput
identity_of name field reply_to address = do
  guard (address_accepted reply_to address) (address_message field reply_to)
  guard (is_nullish name || identity_name_safe (header_safe name max_name_length))
      (field ++ codes ".name must be a header-safe string of at most 256 characters")
  accepted (record { address = address; name = trimmed (as_text name) })

abbrev pub address_and_name : Option Properties → Option (Text × Option Json)
address_and_name none = none
address_and_name (some fields) = with_name (as_text (get fields "address"))
  where
    with_name : Option Text → Option (Text × Option Json)
    with_name none = none
    with_name (some address) = some (address, get fields "name")

unfoldable pub normalize_email_identity : Option Json → Text → Bool → Checked EmailIdentityInput
unfolding to_lower
normalize_email_identity value field reply_to = do
  parts ←
      require (address_and_name (as_record value))
        (field ++ codes ".address must be a valid email address")
  identity_of parts.1 field reply_to (to_lower (trim parts.0))

abbrev pub indexed : Text → ℕ → Text
indexed field index = field ++ codes "[" ++ decimal index ++ codes "]"

-- The loop over the recipients, from an index on.
unfoldable pub identities_from : ℕ → Text → List (Option Json) → Checked (List EmailIdentityInput)
identities_from index field [] = accepted []
identities_from index field (item ∷ items) = do
  identity ← normalize_email_identity item (indexed field index) false
  identities ← identities_from (suc index) field items
  accepted (identity ∷ identities)

-- A single recipient is a list of one, with a message of its own.
abbrev pub as_single : Text → Checked (List EmailIdentityInput) → Checked (List EmailIdentityInput)
as_single field (accepted identities) = accepted identities
as_single field (refused e) = refused (field ++ codes ".address must be a valid email address")

abbrev pub recipients_of :
    Option Json → Text → Option (List (Option Json)) → Checked (List EmailIdentityInput)
recipients_of value field none = as_single field (identities_from 0 field (value ∷ []))
recipients_of value field (some items) = do
  guard (not (length items == 0)) (field ++ codes " must contain at least one recipient")
  guard (leb (length items) max_recipients) (field ++ codes " must contain at most 50 recipients")
  identities_from 0 field items

unfoldable pub normalize_email_identities : Option Json → Text → Checked (List EmailIdentityInput)
unfolding identities_from
normalize_email_identities value field = recipients_of value field (as_array value)

-- A nonempty header-safe text, trimmed.
abbrev pub tag_text : Option Json → Option Text
tag_text value = trimmed (header_safe value max_tag_length)

abbrev pub pair_of : Option Text → Option Text → Option EmailTagInput
pair_of (some name) (some value) = some (record { name = name; value = value })
pair_of (some name) none = none
pair_of none value = none

unfoldable pub tag_of : Option Properties → Option EmailTagInput
tag_of none = none
tag_of (some fields) = pair_of (tag_text (get fields "name")) (tag_text (get fields "value"))

unfoldable pub tags_from : ℕ → Text → List (Option Json) → Checked (List EmailTagInput)
unfolding tag_of
tags_from index field [] = accepted []
tags_from index field (item ∷ items) = do
  tag ← require (tag_of (as_record item)) (
      indexed field index
      ++ codes ".name and "
      ++ indexed field index
      ++ codes ".value must be nonempty header-safe strings of at most 256 characters")
  tags ← tags_from (suc index) field items
  accepted (tag ∷ tags)

-- `list.length ? list : undefined`
abbrev pub nonempty : {A : Type 0} → List A → Option (List A)
nonempty [] = none
nonempty (x ∷ xs) = some (x ∷ xs)

unfoldable pub normalize_tags : Option Json → Text → Checked (Option (List EmailTagInput))
unfolding tags_from
normalize_tags none field = accepted none
normalize_tags (some value) field = do
  items ← require (as_array (some value)) (field ++ codes " must be an array")
  guard (leb (length items) max_tags) (field ++ codes " must contain at most 10 tags")
  tags ← tags_from 0 field items
  accepted (nonempty tags)

-- /[s<>]/
abbrev pub is_content_id_bracket : ℕ → Bool
is_content_id_bracket c = c == b's' || is_bracket c

abbrev pub content_id_safe : Option Text → Bool
content_id_safe none = false
content_id_safe (some s) = not (is_blank s) && not (some_char is_content_id_bracket s)

abbrev pub trimmed_text : Option Text → Option Text
trimmed_text none = none
trimmed_text (some s) = some (trim s)

abbrev pub uuid_of : Option Text → Option Text
uuid_of none = none
uuid_of (some id) = if is_uuid id then some id else none

abbrev pub with_id : Option Json → Option Text → Option (Text × Option Json)
with_id content_id none = none
with_id content_id (some id) = some (id, content_id)

abbrev pub id_and_content_id : Option Properties → Option (Text × Option Json)
id_and_content_id none = none
id_and_content_id (some fields) =
    with_id (get fields "contentId") (uuid_of (as_text (get fields "id")))

-- `seen` are the ids of the references before.
unfoldable pub attachment_ref : ℕ → Text → List Text → Option Json → Checked EmailAttachmentRefInput
unfolding is_uuid to_lower
attachment_ref index field seen item = do
  parts ←
      require (id_and_content_id (as_record item))
        (indexed field index ++ codes ".id must be a UUID")
  guard (not (any (text_eq (to_lower parts.0)) seen))
      (indexed field index ++ codes ".id is duplicated")
  guard (is_undefined parts.1 || content_id_safe (header_safe parts.1 max_content_id_length)) (
      indexed field index
      ++ codes ".contentId must be a header-safe token of at most 255 characters")
  accepted (record { id = to_lower parts.0; content_id = trimmed_text (as_text parts.1) })

unfoldable pub attachments_from :
    ℕ → Text → List Text → List (Option Json) → Checked (List EmailAttachmentRefInput)
unfolding attachment_ref
attachments_from index field seen [] = accepted []
attachments_from index field seen (item ∷ items) = do
  ref ← attachment_ref index field seen item
  refs ← attachments_from (suc index) field (ref.id ∷ seen) items
  accepted (ref ∷ refs)

unfoldable pub normalize_attachment_refs :
    AttachmentSettings → Option Json → Text → Checked (Option (List EmailAttachmentRefInput))
unfolding attachments_from
normalize_attachment_refs settings none field = accepted none
normalize_attachment_refs settings (some value) field = do
  guard settings.enabled (field ++ codes " is not supported because attachments are disabled")
  items ← require (as_array (some value)) (field ++ codes " must be an array")
  guard (leb (length items) settings.max_count) (
      field ++ codes " must contain at most " ++ decimal settings.max_count ++ codes " attachments")
  refs ← attachments_from 0 field [] items
  accepted (nonempty refs)
