-- ===== src/Email/Conversations.antt =====
-- src/lib/email/conversations.ts: what happens when the message identifier of a sent mail becomes
-- known: replies that waited for it join its conversation, and their conversations are merged.
-- Advisory locks serialise transactions and change no row.
pub mod Kept
pub mod Joining
pub mod Recording
pub mod Returned
pub mod Owners
pub mod Aliases
use resend_conversation_serv.Delivery.{update_messages}
use resend_conversation_serv.Attachments.Reaper.{tombstone_rows}
use resend_conversation_serv.Email.Merging.{
  is_conversation_kind, id_of, put, unique_from, unique_sources, is_in, retarget, same_alias,
  add_alias, own_base, add_own, add_aliases, is_v2, is_promoted, has_base, has_version, otherwise,
  base_of, version_of, requires_of, state_row, with_state, merged_version, merged_columns,
  update_conversation, move_aliases, preserve_from, preserve_merged_conversation_state,
  merged_input, record_conversation_merges,
}
use resend_conversation_serv.Prelude.{
  ℕ, String, Bool, true, false, ◌&&◌, ◌||◌, not, Option, none, some, List, [], ◌∷◌, ◌++◌, map, ◌==◌,
  max, text_holds, is_null, if◌then◌else◌, Action, Outcome, done, threw, pure, throw, ◌>>=◌, ◌>>◌,
  transaction, select, update, delete, count, find, any,
}
use resend_conversation_serv.Prelude.Text.{Text, text_eq, to_lower}
use resend_conversation_serv.Prelude.Text.Search.{is_empty}
use resend_conversation_serv.Database.{
  Db, Message, MessageKind, conversation_kind, Conversation, ApiVersion, v1, v2, RoutingAlias,
  is_outbound, merged, system, Sink, Payload, Fault, record_not_found, not_an_outbound_message,
}
use resend_conversation_serv.Conversation.State.{StateRow, merge_conversation_state, stamp}
use resend_conversation_serv.Conversation.Events.{EventInput, append_conversation_event, has_id}

-- A message with its conversation.
pub record Linked : Type 0 where
  pub message : Message
  pub conversation : Conversation

abbrev pub link_found : Message → Option Conversation → Option Linked
link_found m none = none
link_found m (some c) =
    if is_conversation_kind m.kind then some (record { message = m; conversation = c }) else none

abbrev pub link_at : List Conversation → Message → Option ℕ → Option Linked
link_at cs m none = none
link_at cs m (some id) = link_found m (find (has_id id) cs)

-- `include: { conversation: true }` and `hasConversation`
abbrev pub link : List Conversation → Message → Option Linked
link cs m = link_at cs m m.conversation_id

abbrev pub same_participant : Text → Option Linked → List Linked → List Linked
same_participant address none rest = rest
same_participant address (some l) rest =
    if text_eq (to_lower l.conversation.participant_address) (to_lower address)
    then l ∷ rest
    else rest

unfoldable pub eligible_children : List Conversation → Text → List Message → List Linked
unfolding to_lower
eligible_children cs address [] = []
eligible_children cs address (m ∷ ms) =
    same_participant address (link cs m) (eligible_children cs address ms)

abbrev pub is_waiting : String → Message → Bool
is_waiting internet_message_id m =
    is_null m.parent_message_id && text_holds m.in_reply_to_internet_message_id internet_message_id

-- A conversation that no topic is assigned to, other than the target.
abbrev pub is_foreign : ℕ → Linked → Bool
is_foreign target l = not (l.conversation.id == target) && is_null l.conversation.topic_type

-- `[...new Set(…)]`
unfoldable pub distinct_ids : List ℕ → List ℕ → List ℕ
distinct_ids seen [] = []
distinct_ids seen (i ∷ is) =
    let skipped = distinct_ids seen is in
    let taken = distinct_ids (i ∷ seen) is in if is_in seen i then skipped else i ∷ taken

unfoldable pub foreign_ids : ℕ → List Linked → List ℕ
unfolding distinct_ids
foreign_ids target ls =
    distinct_ids [] (map (λ l. l.conversation.id) (select (is_foreign target) ls))

abbrev pub is_of_one : List ℕ → Message → Bool
is_of_one ids m = elim m.conversation_id [ none ↦ false | some id ↦ is_in ids id ]

abbrev pub assign : ℕ → Message → Message
assign id m = record m { conversation_id = some id }

-- Whether a row that belongs to a message goes with a deleted conversation.
abbrev pub is_gone : List ℕ → List Message → Option ℕ → Bool
is_gone ids ms none = false
is_gone ids ms (some i) = any (λ m. m.id == i && is_of_one ids m) ms

abbrev pub orphan : Message → Message
orphan m = record m { parent_message_id = none }

-- `deleteMany`; the database deletes the messages and aliases of a deleted conversation with it, and
-- what belongs to such a message (outbox entries, attachments, for which the trigger queues the stored
-- objects); a reply to such a message loses its parent.
unfoldable pub delete_conversations : List ℕ → Action Db Fault (Unit {0})
unfolding tombstone_rows
delete_conversations ids db =
    let queued = tombstone_rows (λ a. is_gone ids db.messages a.message_id) db.attachments db in
    (
      done tt,
      record queued {
        conversations = delete (λ c. is_in ids c.id) db.conversations;
        messages =
            update (λ m. is_gone ids db.messages m.parent_message_id) orphan
              (delete (is_of_one ids) db.messages);
        routing_aliases = delete (λ a. is_in ids a.conversation_id) db.routing_aliases;
        entries = delete (λ e. is_gone ids db.messages (some e.message_id)) db.entries;
        attachment_entries =
            delete (λ e. is_gone ids db.messages (some e.message_id)) db.attachment_entries;
        attachments = delete (λ a. is_gone ids db.messages a.message_id) db.attachments;
      },
    )

abbrev pub adopt : ℕ → Message → Message
adopt parent m = record m { parent_message_id = some parent }

abbrev pub is_adopted : List Linked → ℕ → Message → Bool
is_adopted children target m =
    any (λ l. l.message.id == m.id) children
    && is_of_one (target ∷ []) m
    && is_null m.parent_message_id

abbrev pub adopt_children : ℕ → ℕ → List Linked → Action Db Fault (Unit {0})
adopt_children target parent children = update_messages (is_adopted children target) (adopt parent)

-- `aggregate({ _max: { emailCreatedAt: true } })`
abbrev pub latest_of : ℕ → List Message → Option ℕ
latest_of id [] = none
latest_of id (m ∷ ms) =
    let rest = latest_of id ms in
    if is_of_one (id ∷ []) m
    then (elim rest [ none ↦ some m.email_created_at | some t ↦ some (max m.email_created_at t) ])
    else rest

abbrev pub set_last : Option ℕ → ℕ → Action Db Fault (Unit {0})
set_last none id = pure tt
set_last (some at) id = update_conversation id (λ c. record c { last_message_at = at })

abbrev pub refresh_last : ℕ → Action Db Fault (Unit {0})
refresh_last id db = set_last (latest_of id db.messages) id db

-- What follows once the waiting children and their foreign conversations are known.
unfoldable pub join_children :
    List Sink → ℕ → Linked → List Linked → List ℕ → Action Db Fault (Unit {0})
unfolding preserve_merged_conversation_state record_conversation_merges delete_conversations
join_children sinks now outbound children [] = do
  adopt_children outbound.conversation.id outbound.message.id children
  refresh_last outbound.conversation.id
join_children sinks now outbound children (id ∷ ids) = do
  preserve_merged_conversation_state outbound.conversation
      (select (λ c. is_in (id ∷ ids) c.id) (map (λ l. l.conversation) children))
  update_messages (is_of_one (id ∷ ids)) (assign outbound.conversation.id)
  record_conversation_merges sinks outbound.conversation.id (id ∷ ids) now
  adopt_children outbound.conversation.id outbound.message.id children
  delete_conversations (id ∷ ids)
  refresh_last outbound.conversation.id

abbrev pub with_sent : String → Option ℕ → Message → Message
with_sent internet_message_id none m = record m { internet_message_id = some internet_message_id }
with_sent internet_message_id (some at) m = record m {
  internet_message_id = some internet_message_id;
  email_created_at = at;
}

abbrev pub children_in : String → Text → Db → List Linked
children_in internet_message_id address db =
    eligible_children db.conversations address (select (is_waiting internet_message_id) db.messages)

abbrev pub reconcile_children : List Sink → ℕ → String → Linked → Action Db Fault (Unit {0})
reconcile_children sinks now internet_message_id outbound db =
    let children = children_in internet_message_id outbound.conversation.participant_address db in
    join_children sinks now outbound children (foreign_ids outbound.conversation.id children) db

abbrev pub message_has_id : ℕ → Message → Bool
message_has_id id m = m.id == id

abbrev pub record_sent : List Sink → ℕ → String → Option ℕ → Option Linked → Action Db Fault Message
record_sent sinks now internet_message_id at none = throw not_an_outbound_message
record_sent sinks now internet_message_id at (some outbound) = do
  update_messages (message_has_id outbound.message.id) (with_sent internet_message_id at)
  reconcile_children sinks now internet_message_id outbound
  pure (with_sent internet_message_id at outbound.message)

abbrev pub sent_message : List Conversation → Message → Option Linked
sent_message cs m = if is_outbound m.direction then link cs m else none

abbrev pub record_found :
    List Sink → ℕ → String → Option ℕ → List Conversation → Option Message → Action Db Fault Message
record_found sinks now internet_message_id at cs none = throw record_not_found
record_found sinks now internet_message_id at cs (some m) =
    record_sent sinks now internet_message_id at (sent_message cs m)

abbrev pub record_outbound : List Sink → ℕ → ℕ → String → Option ℕ → Action Db Fault Message
record_outbound sinks now message_id internet_message_id at db =
    record_found sinks now internet_message_id at db.conversations
      (find (message_has_id message_id) db.messages) db

unfoldable pub record_outbound_internet_message_id :
    List Sink → ℕ → ℕ → String → Option ℕ → Action Db Fault Message
unfolding join_children eligible_children foreign_ids
record_outbound_internet_message_id sinks now message_id internet_message_id at =
    transaction (record_outbound sinks now message_id internet_message_id at)
