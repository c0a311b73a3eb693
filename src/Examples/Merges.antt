-- ===== src/Examples/Merges.antt =====
-- The theorems on merged conversations, at a concrete table.
use resend_conversation_serv.Email.Hydration.{hydrate_referenced_outbound_messages}
use resend_conversation_serv.Prelude.{
  threw, ℕ, ◌≡◌, refl, Option, none, some, [], ◌∷◌, map, transaction,
}
use resend_conversation_serv.Prelude.Text.{Text, codes}
use resend_conversation_serv.Database.{
  hydration_incomplete, Db, Message, Conversation, RoutingAlias, accepted, received, inbound, v2,
  awaiting_participant, empty_db, nats,
}
use resend_conversation_serv.Email.Conversations.{record_outbound_internet_message_id}
use resend_conversation_serv.Email.Merging.{unique_sources, preserve_merged_conversation_state}
use resend_conversation_serv.Email.Conversations.Recording.{record_outbound-Keeps}
use resend_conversation_serv.Email.Conversations.Kept.{Keeps}
use resend_conversation_serv.Email.Conversations.Aliases.{RoutesKept, preserve-RoutesKept}
use resend_conversation_serv.Examples.Data.{message, conversation, generated}

abbrev sent : Message
sent = record (message 1) { state = accepted; resend_email_id = some "email" }

abbrev reply : Message
reply = record (message 2) {
  conversation_id = some 2;
  direction = inbound;
  state = received;
  in_reply_to_internet_message_id = some "<sent@x>";
  email_created_at = 70;
}

abbrev other : Conversation
other = record conversation {
  id = 2;
  participant_address = codes "Cat@Example.com";
  api_version = some v2;
  reply_to_base_address = some (codes "team@example.com");
  routing_token = codes "token";
  state = awaiting_participant;
}

abbrev alias : RoutingAlias
alias = record {
  conversation_id = 2;
  routing_token = codes "old";
  base_address = codes "team@example.com";
}

abbrev mails_db : Db
mails_db = record (empty_db generated 1000) {
  messages = sent ∷ reply ∷ [];
  conversations = conversation ∷ other ∷ [];
  routing_aliases = alias ∷ [];
}

abbrev merged_db : Db
merged_db = (record_outbound_internet_message_id (nats ∷ []) 900 1 "<sent@x>" (some 60) mails_db).1

-- The reply has joined the conversation of the mail, its own conversation is gone, and the aliases
-- have moved with it.
joined :
    map {B = Option ℕ × Option ℕ} (λ m. (m.conversation_id, m.parent_message_id)) merged_db.messages
    ≡ (some 1, none) ∷ (some 1, some 1) ∷ []
unfolding record_outbound_internet_message_id transaction
joined = refl

one_left : map {B = ℕ × ℕ} (λ c. (c.id, c.last_message_at)) merged_db.conversations ≡ (1, 70) ∷ []
unfolding record_outbound_internet_message_id transaction
one_left = refl

routes :
    map {B = ℕ × Text} (λ a. (a.conversation_id, a.routing_token)) merged_db.routing_aliases
    ≡ (1, codes "old") ∷ (1, codes "token") ∷ []
unfolding record_outbound_internet_message_id transaction
routes = refl

record_outbound-Keeps_example : Keeps (some 1) mails_db merged_db
record_outbound-Keeps_example =
    record_outbound-Keeps (nats ∷ []) 900 1 "<sent@x>" (some 60) mails_db sent refl

preserve-RoutesKept_example :
    RoutesKept conversation.id
      (unique_sources conversation (other ∷ []))
      mails_db
      (preserve_merged_conversation_state conversation (other ∷ []) mails_db).1
preserve-RoutesKept_example = preserve-RoutesKept conversation (other ∷ []) mails_db

-- A reply to a mail whose identifier is not known yet: the provider is asked, and the reply joins.
abbrev hydrated : Db
hydrated =
    (hydrate_referenced_outbound_messages [] (λ email_id. some ("<sent@x>", 60)) 900
      (codes "CAT@example.com") ("<sent@x>" ∷ []) none mails_db).1

found_again : map (λ m. m.internet_message_id) hydrated.messages ≡ some "<sent@x>" ∷ none ∷ []
unfolding hydrate_referenced_outbound_messages transaction
found_again = refl

-- Where the provider fails for a recent mail, the projection has to be tried again.
retried :
    (hydrate_referenced_outbound_messages []
      (λ email_id. none)
      900
      (codes "cat@example.com")
      ("<sent@x>" ∷ [])
      none
      mails_db).0
    ≡ threw hydration_incomplete
unfolding hydrate_referenced_outbound_messages
retried = refl
