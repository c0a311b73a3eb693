-- ===== src/Sending/Mail.antt =====
-- src/lib/conversation-service.ts: the mail that is sent for a message.
use resend_conversation_serv.Prelude.{
  ℕ, Bool, true, false, ◌&&◌, ◌||◌, Option, none, some, List, [], ◌∷◌, ◌++◌, map, leb, ◌==◌,
  if◌then◌else◌, any,
}
use resend_conversation_serv.Prelude.Text.{Text, codes}
use resend_conversation_serv.Prelude.Text.Search.{is_empty}
use resend_conversation_serv.Requests.Json.{
  Json, Properties, get, as_record, as_text, as_array, is_nullish,
}
use resend_conversation_serv.Requests.Inputs.{EmailIdentityInput, EmailTagInput}

-- The columns of a message that its mail is made of.
pub record MailColumns : Type 0 where
  pub from_address : Text
  pub from_name : Option Text
  pub to_address : Text
  pub to_name : Option Text
  pub to_recipients : Option Json
  pub reply_to_address : Option Text
  pub reply_to_name : Option Text
  pub subject : Text
  pub text_body : Option Text
  pub html_body : Option Text
  pub tags : Option Json
  pub in_reply_to_internet_message_id : Option Text
  pub reference_internet_message_ids : List Text

abbrev pub is_phrase_char : ℕ → Bool
is_phrase_char c =
    (leb b'A' c && leb c b'Z')
    || (leb b'a' c && leb c b'z')
    || (leb b'0' c && leb c b'9')
    || any (λ d. d == c) (codes "!#$%&'*+-/=?^_`{|}~")

-- The flag says whether a word has begun.
unfoldable pub phrase_from : Bool → Text → Bool
phrase_from begun [] = begun
phrase_from begun (c ∷ s) =
    let word = phrase_from true s in
    let next = phrase_from false s in if is_phrase_char c then word else c == b' ' && begun && next

-- DISPLAY_NAME_PHRASE_PATTERN
unfoldable pub is_phrase : Text → Bool
unfolding phrase_from
is_phrase name = phrase_from false name

-- A backslash before each occurrence of a character.
abbrev pub escape : ℕ → Text → Text
escape d [] = []
escape d (c ∷ s) = let rest = escape d s in if c == d then b'\\' ∷ c ∷ rest else c ∷ rest

abbrev pub quoted : Text → Text
quoted name = b'"' ∷ escape b'"' (escape b'\\' name) ++ b'"' ∷ []

abbrev pub bracketed : Text → Text → Text
bracketed name address = name ++ (b' ' ∷ b'<' ∷ (address ++ b'>' ∷ []))

unfoldable pub format_address : Text → Option Text → Text
unfolding is_phrase
format_address address none = address
format_address address (some name) =
    if is_empty name
    then address
    else if is_phrase name
    then bracketed name address
    else bracketed (quoted name) address

abbrev pub is_text : Option Json → Bool
is_text value = elim (as_text value) [ none ↦ false | some s ↦ true ]

abbrev pub recipient_of :
    Option Json → Option Text → List EmailIdentityInput → List EmailIdentityInput
recipient_of name none rest = rest
recipient_of name (some address) rest =
    if is_nullish name || is_text name
    then record { address = address; name = as_text name } ∷ rest
    else rest

abbrev pub add_recipient : Option Properties → List EmailIdentityInput → List EmailIdentityInput
add_recipient none rest = rest
add_recipient (some fields) rest =
    recipient_of (get fields "name") (as_text (get fields "address")) rest

abbrev pub recipients_in : List (Option Json) → List EmailIdentityInput
recipients_in [] = []
recipients_in (value ∷ values) = add_recipient (as_record value) (recipients_in values)

abbrev pub or_single : EmailIdentityInput → List EmailIdentityInput → List EmailIdentityInput
or_single single [] = single ∷ []
or_single single (r ∷ rs) = r ∷ rs

abbrev pub array_or_empty : Option (List (Option Json)) → List (Option Json)
array_or_empty none = []
array_or_empty (some values) = values

unfoldable pub get_recipients : MailColumns → List EmailIdentityInput
get_recipients m =
    or_single (record { address = m.to_address; name = m.to_name })
      (recipients_in (array_or_empty (as_array m.to_recipients)))

abbrev pub tag_of : Option Text → Option Text → List EmailTagInput → List EmailTagInput
tag_of (some name) (some value) rest = record { name = name; value = value } ∷ rest
tag_of (some name) none rest = rest
tag_of none value rest = rest

abbrev pub add_tag : Option Properties → List EmailTagInput → List EmailTagInput
add_tag none rest = rest
add_tag (some fields) rest =
    tag_of (as_text (get fields "name")) (as_text (get fields "value")) rest

abbrev pub tags_in : List (Option Json) → List EmailTagInput
tags_in [] = []
tags_in (value ∷ values) = add_tag (as_record value) (tags_in values)

unfoldable pub get_tags : MailColumns → List EmailTagInput
get_tags m = tags_in (array_or_empty (as_array m.tags))

pub record ThreadHeaders : Type 0 where
  pub in_reply_to : Text
  pub references : Text

pub record SendEmailInput (A : Type 0) : Type 0 where
  pub from : Text
  pub to : List Text
  pub reply_to : Option Text
  pub subject : Text
  pub text : Option Text
  pub html : Option Text
  pub tags : Option (List EmailTagInput)
  pub attachments : Option (List A)
  pub headers : Option ThreadHeaders

abbrev pub nonempty : {A : Type 0} → List A → Option (List A)
nonempty [] = none
nonempty (x ∷ xs) = some (x ∷ xs)

-- `join(' ')`
abbrev pub join_spaces : List Text → Text
join_spaces [] = []
join_spaces (t ∷ []) = t
join_spaces (t ∷ u ∷ ts) = t ++ (b' ' ∷ join_spaces (u ∷ ts))

abbrev pub reply_to_of : Option Text → Option Text → Option Text
reply_to_of none name = none
reply_to_of (some address) name = some (format_address address name)

abbrev pub headers_of : Option Text → List Text → Option ThreadHeaders
headers_of none references = none
headers_of (some id) references =
    if is_empty id
    then none
    else some (record { in_reply_to = id; references = join_spaces references })

unfoldable pub build_send_email_input : {A : Type 0} → MailColumns → List A → SendEmailInput A
unfolding format_address get_recipients get_tags
build_send_email_input m attachments = record {
  from = format_address m.from_address m.from_name;
  to = map (λ r. format_address r.address r.name) (get_recipients m);
  reply_to = reply_to_of m.reply_to_address m.reply_to_name;
  subject = m.subject;
  text = m.text_body;
  html = m.html_body;
  tags = nonempty (get_tags m);
  attachments = nonempty attachments;
  headers = headers_of m.in_reply_to_internet_message_id m.reference_internet_message_ids;
}
