-- ===== src/Examples/Requests.antt =====
-- The theorems on requests, at concrete bodies.
use resend_conversation_serv.Email.Routing.{is_valid_reply_to_base_address}
use resend_conversation_serv.Prelude.{◌≡◌, refl, none, some, [], ◌∷◌, ◌++◌, true}
use resend_conversation_serv.Prelude.Text.{Text, codes, every, some_char, trim}
use resend_conversation_serv.Prelude.Text.Search.{includes, split_last, split_on}
use resend_conversation_serv.Requests.Json.{
  Json, Properties, object, property, end, text, array, nil, item, null,
}
use resend_conversation_serv.Requests.Checks.{
  accepted, refused, is_uuid, is_email_address, is_header_safe_text,
}
use resend_conversation_serv.Requests.Inputs.{
  AttachmentSettings, EmailIdentityInput, DirectEmailV2Input, CreateConversationInput,
  CreateConversationV2Input,
}
use resend_conversation_serv.Requests.Fields.{attachment_ref, indexed}
use resend_conversation_serv.Requests.Bodies.{
  validate_create_body, validate_create_v2_body, validate_direct_email_v2_body,
}
use resend_conversation_serv.Requests.DirectEmail.{
  IsDirectEmail, direct_json, validate_direct_email_v2_body-IsDirectEmail,
  validate_direct_email_v2_body-direct_json,
}
use resend_conversation_serv.Requests.Create.{create_json, validate_create_body-create_json}
use resend_conversation_serv.Requests.VersionTwo.{
  ExtendsCreate, validate_create_v2_body-ExtendsCreate, attachment_ref-letter_s,
}

abbrev settings : AttachmentSettings
settings = record { enabled = true; max_count = 2 }

abbrev ann : Json
ann = object (
    property (codes "address") (text (codes " Ann@Example.com "))
      (property (codes "name") (text (codes " Ann ")) end))

abbrev bob : Json
bob = object (property (codes "address") (text (codes "bob@example.com")) end)

abbrev id : Text
id = codes "0123ABCD-0123-4567-89ab-0123456789ab"

abbrev file : Json
file =
    object
      (property (codes "id") (text id) (property (codes "contentId") (text (codes "my logo")) end))

abbrev tag : Json
tag = object (
    property (codes "name") (text (codes "kind"))
      (property (codes "value") (text (codes " order ")) end))

abbrev direct : Json
direct = object (
    property (codes "from") ann (
      property (codes "to") (array (item bob (item ann nil))) (
        property (codes "subject") (text (codes " Hello ")) (
          property (codes "html") (text (codes "<p>Hi</p>")) (
            property (codes "tags") (array (item tag nil))
              (property (codes "attachments") (array (item file nil)) end))))))

abbrev ann_input : EmailIdentityInput
ann_input = record { address = codes "ann@example.com"; name = some (codes "Ann") }

abbrev bob_input : EmailIdentityInput
bob_input = record { address = codes "bob@example.com"; name = none }

abbrev direct_input : DirectEmailV2Input
direct_input = record {
  from = ann_input;
  to = bob_input ∷ ann_input ∷ [];
  subject = codes "Hello";
  text = none;
  html = some (codes "<p>Hi</p>");
  tags = some (record { name = codes "kind"; value = codes "order" } ∷ []);
  attachments = some (
      record {
        id = codes "0123abcd-0123-4567-89ab-0123456789ab";
        content_id = some (codes "my logo");
      }
      ∷ []);
}

direct_accepted : validate_direct_email_v2_body settings (some direct) ≡ accepted direct_input
unfolding validate_direct_email_v2_body is_email_address trim is_header_safe_text some_char
direct_accepted = refl

validate_direct_email_v2_body-IsDirectEmail_example : IsDirectEmail settings direct_input
validate_direct_email_v2_body-IsDirectEmail_example =
    validate_direct_email_v2_body-IsDirectEmail settings (some direct) direct_input direct_accepted

validate_direct_email_v2_body-direct_json_example :
    validate_direct_email_v2_body settings (some (direct_json direct_input)) ≡ accepted direct_input
validate_direct_email_v2_body-direct_json_example =
    validate_direct_email_v2_body-direct_json settings (some direct) direct_input direct_accepted

abbrev topic : Json
topic = object (
    property (codes "type") (text (codes "order")) (
      property (codes "externalId") (text (codes "66"))
        (property (codes "title") (text (codes " Order 66 ")) end)))

abbrev participant : Json
participant =
    object
      (property (codes "email") (text (codes "cat@example.com")) (property (codes "name") null end))

abbrev create_with : Properties → Json
create_with message = object (
    property (codes "topic") topic (
      property (codes "participant") participant (
        property (codes "subject") (text (codes " "))
          (property (codes "message") (object message) end))))

abbrev created : Json
created = create_with (
    property (codes "text") (text (codes "Hi"))
      (property (codes "replyToName") (text (codes " Ann ")) end))

abbrev create_input : CreateConversationInput
create_input = record {
  topic = record { type = codes "order"; external_id = codes "66"; title = codes "Order 66" };
  participant = record { email = codes "cat@example.com"; name = none };
  subject = none;
  message = record { text = some (codes "Hi"); html = none; reply_to_name = some (codes "Ann") };
}

create_accepted : validate_create_body (some created) ≡ accepted create_input
unfolding validate_create_body is_header_safe_text some_char trim every is_email_address
create_accepted = refl

validate_create_body-create_json_example :
    validate_create_body (some (create_json create_input)) ≡ accepted create_input
validate_create_body-create_json_example =
    validate_create_body-create_json (some created) create_input create_accepted

abbrev created_v2 : Json
created_v2 = create_with (
    property (codes "text") (text (codes "Hi")) (
      property (codes "from") ann (property (codes "replyTo") bob (property (codes "to") bob end))))

abbrev create_v2_input : CreateConversationV2Input
create_v2_input = record {
  topic = create_input.topic;
  participant = create_input.participant;
  subject = none;
  message = record {
    text = some (codes "Hi");
    html = none;
    from = ann_input;
    to = some (bob_input ∷ []);
    reply_to = bob_input;
    tags = none;
    attachments = none;
  };
}

create_v2_accepted : validate_create_v2_body settings (some created_v2) ≡ accepted create_v2_input
unfolding validate_create_v2_body is_header_safe_text some_char trim every is_email_address
    is_valid_reply_to_base_address split_last includes split_on
create_v2_accepted = refl

validate_create_v2_body-ExtendsCreate_example :
    ExtendsCreate settings (some created_v2) create_v2_input
validate_create_v2_body-ExtendsCreate_example =
    validate_create_v2_body-ExtendsCreate settings (some created_v2) create_v2_input
      create_v2_accepted

id-IsUuid : is_uuid id ≡ true
unfolding is_uuid
id-IsUuid = refl

letter_s : includes b's' (codes "signature") ≡ true
unfolding includes
letter_s = refl

attachment_ref-letter_s_example :
    attachment_ref 0 (codes "attachments") [] (
      some (
        object (
          property
            (codes "id")
            (text id)
            (property (codes "contentId") (text (codes "signature")) end))))
    ≡ refused (
        indexed (codes "attachments") 0
        ++ codes ".contentId must be a header-safe token of at most 255 characters")
attachment_ref-letter_s_example =
    attachment_ref-letter_s 0 (codes "attachments") [] id (codes "signature") id-IsUuid refl
      letter_s
