-- ===== src/Email/Merging.antt =====
-- src/lib/email/conversations.ts: merging conversations into one.
use resend_conversation_serv.Prelude.{
  ℕ, Bool, true, false, ◌&&◌, ◌||◌, not, Option, none, some, List, [], ◌∷◌, ◌++◌, map, ◌==◌,
  is_null, if◌then◌else◌, Action, done, threw, pure, ◌>>◌, select, update, find, any,
}
use resend_conversation_serv.Prelude.Text.{Text, text_eq}
use resend_conversation_serv.Prelude.Text.Search.{is_empty}
use resend_conversation_serv.Database.{
  Db, MessageKind, conversation_kind, Conversation, ApiVersion, v2, RoutingAlias, merged, system,
  Sink, Payload, Fault, record_not_found,
}
use resend_conversation_serv.Conversation.State.{StateRow, merge_conversation_state, stamp}
use resend_conversation_serv.Conversation.Events.{EventInput, append_conversation_event, has_id}

abbrev pub is_conversation_kind : MessageKind → Bool
is_conversation_kind conversation_kind = true
is_conversation_kind _ = false

abbrev pub id_of : Conversation → ℕ
id_of c = c.id

-- `new Map(sources.map((source) => [source.id, source]))`
abbrev pub put : Conversation → List Conversation → List Conversation
put c cs = if any (has_id c.id) cs then update (has_id c.id) (λ _. c) cs else cs ++ c ∷ []

abbrev pub unique_from : List Conversation → List Conversation → List Conversation
unique_from acc [] = acc
unique_from acc (c ∷ cs) = unique_from (put c acc) cs

unfoldable pub unique_sources : Conversation → List Conversation → List Conversation
unique_sources target sources = unique_from [] (select (λ s. not (s.id == target.id)) sources)

abbrev pub is_in : List ℕ → ℕ → Bool
is_in ids id = any (λ i. i == id) ids

abbrev pub retarget : ℕ → RoutingAlias → RoutingAlias
retarget id a = record a { conversation_id = id }

-- The unique key of the aliases.
abbrev pub same_alias : Text → Text → RoutingAlias → Bool
same_alias token base a = text_eq a.routing_token token && text_eq a.base_address base

-- `createMany` with `skipDuplicates`
abbrev pub add_alias : ℕ → Text → Text → List RoutingAlias → List RoutingAlias
add_alias id token base aliases =
    if any (same_alias token base) aliases
    then aliases
    else aliases ++ record { conversation_id = id; routing_token = token; base_address = base } ∷ []

-- A nonempty Reply-To base address.
abbrev pub own_base : Conversation → Option Text
own_base c = elim c.reply_to_base_address [
  | none ↦ none
  | some b ↦ if is_empty b then none else some b
]

abbrev pub add_own : ℕ → Text → Option Text → List RoutingAlias → List RoutingAlias
add_own id token none aliases = aliases
add_own id token (some base) aliases = add_alias id token base aliases

unfoldable pub add_aliases : ℕ → List Conversation → List RoutingAlias → List RoutingAlias
add_aliases id [] aliases = aliases
add_aliases id (c ∷ cs) aliases =
    add_aliases id cs (add_own id c.routing_token (own_base c) aliases)

abbrev pub is_v2 : Option ApiVersion → Bool
is_v2 (some v2) = true
is_v2 _ = false

abbrev pub is_promoted : Conversation → Bool
is_promoted c = is_v2 c.api_version && not (is_null (own_base c))

abbrev pub has_base : Conversation → Bool
has_base c = not (is_null (own_base c))

abbrev pub has_version : Conversation → Bool
has_version c = not (is_null c.api_version)

-- `left ?? right`
abbrev pub otherwise {ℓ} : {A : Type ℓ} → Option A → Option A → Option A
otherwise none right = right
otherwise (some a) right = some a

abbrev pub base_of : Option Conversation → Option Text
base_of none = none
base_of (some c) = c.reply_to_base_address

abbrev pub version_of : Option Conversation → Option ApiVersion
version_of none = none
version_of (some c) = c.api_version

abbrev pub requires_of : Option Conversation → Bool
requires_of none = false
requires_of (some c) = c.reply_to_requires_allowlist

abbrev pub state_row : Conversation → StateRow
state_row c = record { state = c.state; state_changed_at = c.state_changed_at }

abbrev pub with_state : Option StateRow → Conversation → Conversation
with_state none c = c
with_state (some row) c = stamp row.state row.state_changed_at c

abbrev pub merged_version : Conversation → List Conversation → Option ApiVersion
merged_version target sources =
    if is_v2 target.api_version || any is_promoted sources
    then some v2
    else otherwise target.api_version (version_of (find has_version sources))

-- The columns that the merge writes; an undefined value leaves the column as it is.
unfoldable pub merged_columns : Conversation → List Conversation → Conversation → Conversation
unfolding merge_conversation_state
merged_columns target sources c =
    let promoted = find is_promoted sources in
    let selected = otherwise promoted (find has_base sources) in
    let api_version = merged_version target sources in
    with_state (merge_conversation_state (map state_row (target ∷ sources))) (record c {
      api_version = otherwise api_version c.api_version;
      reply_to_base_address =
          otherwise (otherwise target.reply_to_base_address (base_of selected))
            c.reply_to_base_address;
      reply_to_requires_allowlist =
          if is_v2 api_version
          then (is_v2 target.api_version && target.reply_to_requires_allowlist)
            || requires_of promoted
          else target.reply_to_requires_allowlist;
    })

-- `emailConversation.update`, which throws where there is no such row.
abbrev pub update_conversation : ℕ → (Conversation → Conversation) → Action Db Fault (Unit {0})
update_conversation id f db =
    if any (has_id id) db.conversations
    then (done tt, record db { conversations = update (has_id id) f db.conversations })
    else (threw record_not_found, db)

abbrev pub move_aliases : ℕ → List Conversation → Action Db Fault (Unit {0})
move_aliases id sources db = (
  done tt,
  record db {
    routing_aliases = add_aliases id sources (
        update (λ a. is_in (map id_of sources) a.conversation_id) (retarget id) db.routing_aliases);
  },
)

abbrev pub preserve_from : Conversation → List Conversation → Action Db Fault (Unit {0})
preserve_from target [] = pure tt
preserve_from target (s ∷ sources) = do
  move_aliases target.id (s ∷ sources)
  update_conversation target.id (merged_columns target (s ∷ sources))

unfoldable pub preserve_merged_conversation_state :
    Conversation → List Conversation → Action Db Fault (Unit {0})
unfolding unique_sources add_aliases merged_columns
preserve_merged_conversation_state target sources =
    preserve_from target (unique_sources target sources)

abbrev pub merged_input : ℕ → Option ℕ → ℕ → EventInput
merged_input id into at = record {
  conversation_id = id;
  type = merged;
  occurred_at = at;
  actor = system;
  cause = "thread_reconciliation";
  message_id = none;
  state = none;
  delivery_state = none;
  merged_into_conversation_id = into;
  attachment_count = none;
}

unfoldable pub record_conversation_merges :
    List Sink → ℕ → List ℕ → ℕ → Action Db Fault (Option Payload)
unfolding append_conversation_event
record_conversation_merges sinks target [] at =
    append_conversation_event sinks (merged_input target none at)
record_conversation_merges sinks target (id ∷ ids) at = do
  append_conversation_event sinks (merged_input id (some target) at)
  record_conversation_merges sinks target ids at
