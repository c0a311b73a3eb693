-- ===== src/Examples/Sending.antt =====
-- The theorems on sending, at concrete mails.
use resend_conversation_serv.Email.Conversations.{record_outbound_internet_message_id}
use resend_conversation_serv.Delivery.{
  delivery_events, project_outbound_delivery_state, reduce_delivery_events,
}
use resend_conversation_serv.Prelude.Text.Chars.{first_visible}
use resend_conversation_serv.Prelude.{
  true, false, done, threw, map, ◌≡◌, refl, none, some, [], ◌∷◌, order_by, transaction,
}
use resend_conversation_serv.Prelude.Text.{Text, codes, every, is_space}
use resend_conversation_serv.Requests.Json.{object, property, end, text, array, nil, item, null}
use resend_conversation_serv.Email.Threading.{parse_address}
use resend_conversation_serv.Database.{inbound, Db, Message, MessageState, empty_db, nats}
use resend_conversation_serv.Sending.Service.{
  Services, recover_pending_message, ensure_internet_message_id,
}
use resend_conversation_serv.Examples.Data.{message, conversation, generated}
use resend_conversation_serv.Sending.Mail.{
  MailColumns, SendEmailInput, format_address, build_send_email_input,
}
use resend_conversation_serv.Sending.Addresses.{
  IsPlainName, IsPlainAddress, parse_address-format_address,
}

abbrev ann : Text
ann = codes "ann@example.com"

abbrev dotted : Text
dotted = codes "Lee, Ann B."

dotted-IsPlain : IsPlainName dotted
unfolding every first_visible is_space
dotted-IsPlain = record { filled = refl; ends = refl; plain = refl }

ann-IsPlain : IsPlainAddress ann
unfolding every is_space
ann-IsPlain = record { filled = refl; plain = refl }

parse_address-format_address_example :
    parse_address (format_address ann (some dotted)) ≡ record { address = ann; name = some dotted }
parse_address-format_address_example =
    parse_address-format_address ann (some dotted) ann-IsPlain dotted-IsPlain

quoted_name : format_address ann (some dotted) ≡ codes "\"Lee, Ann B.\" <ann@example.com>"
unfolding format_address
quoted_name = refl

escaped_name : format_address ann (some (codes "a\\\"b")) ≡ codes "\"a\\\\\\\"b\" <ann@example.com>"
unfolding format_address
escaped_name = refl

abbrev columns : MailColumns
columns = record {
  from_address = ann;
  from_name = some (codes "Ann Lee");
  to_address = codes "bob@x.org";
  to_name = none;
  to_recipients = some (
      array (
        item
          (object (
            property (codes "address") (text (codes "c@x.org")) (property (codes "name") null end)))
          (item null nil)));
  reply_to_address = none;
  reply_to_name = none;
  subject = codes "Hi";
  text_body = some (codes "Hello");
  html_body = none;
  tags = none;
  in_reply_to_internet_message_id = some (codes "<b>");
  reference_internet_message_ids = codes "<a>" ∷ codes "<b>" ∷ [];
}

abbrev mail : SendEmailInput Text
mail = build_send_email_input columns []

recipients : mail.to ≡ codes "c@x.org" ∷ []
unfolding build_send_email_input
recipients = refl

sender : mail.from ≡ codes "Ann Lee <ann@example.com>"
unfolding build_send_email_input
sender = refl

threaded : mail.headers ≡ some (record { in_reply_to = codes "<b>"; references = codes "<a> <b>" })
unfolding build_send_email_input
threaded = refl

abbrev failing : Services
failing = record {
  attachments = λ id db. done [];
  send = λ m attachments. threw (record { is_api_error = true; message = some (codes "refused") });
  get_sent = λ attempt email_id. done ("<sent@x>", 60);
  describe = λ e. record { is_api_error = false; message = none };
  sinks = nats ∷ [];
}

abbrev keyed : Message
keyed = record (message 1) { idempotency_key = some "key" }

abbrev pending_db : Db
pending_db = record (empty_db generated 1000) {
  messages = keyed ∷ message 2 ∷ [];
  conversations = conversation ∷ [];
}

-- The row after the provider's refusal.
refused_row :
    (recover_pending_message failing 900 1 pending_db).0
    ≡ done (record keyed { state = MessageState.failed; state_detail = some (codes "refused") })
unfolding recover_pending_message transaction
refused_row = refl

abbrev working : Services
working = record failing { send = λ m attachments. done "email" }

sent_row :
    map (λ m. m.internet_message_id) (recover_pending_message working 900 1 pending_db).1.messages
    ≡ some "<sent@x>" ∷ none ∷ []
unfolding recover_pending_message transaction project_outbound_delivery_state reduce_delivery_events
    delivery_events order_by record_outbound_internet_message_id
sent_row = refl

-- A mail that was received has its identifier looked up and stored.
abbrev inbox : Db
inbox = record pending_db {
  messages = record (message 3) { direction = inbound; resend_email_id = some "in" } ∷ [];
}

looked_up :
    (ensure_internet_message_id failing (λ direction email_id. done ("<in@x>", 60)) 900 3 inbox).0
    ≡ done (some "<in@x>")
unfolding ensure_internet_message_id
looked_up = refl
