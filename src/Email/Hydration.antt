-- ===== src/Email/Hydration.antt =====
-- src/lib/email/conversations.ts: before an inbound mail is projected, the identifiers of sent mails
-- that it may refer to are asked from the provider.
use resend_conversation_serv.Prelude.{
  ℕ, ◌+◌, String, Bool, true, false, ◌&&◌, ◌||◌, not, Option, none, some, List, [], ◌∷◌, map, leb,
  str_eq, text_holds, is_null, key_le, take, get_elem?, if◌then◌else◌, Action, done, pure, throw,
  ◌>>=◌, ◌>>◌, select, find, any, order_by,
}
use resend_conversation_serv.Prelude.Text.{Text, text_eq, to_lower}
use resend_conversation_serv.Database.{
  Db, Message, MessageState, accepted, Conversation, is_outbound, Sink, Fault, hydration_incomplete,
}
use resend_conversation_serv.Conversation.Events.{has_id}
use resend_conversation_serv.Email.Conversations.{record_outbound_internet_message_id}

abbrev pub max_hydration_candidates : ℕ
max_hydration_candidates = 10

-- 24 hours.
abbrev pub hydration_retry_window_ms : ℕ
hydration_retry_window_ms = 86400000

-- `[...new Set(ids)].filter(Boolean)`
unfoldable pub ancestry_from : List String → List String → List String
ancestry_from seen [] = []
ancestry_from seen (id ∷ ids) =
    let skipped = ancestry_from seen ids in
    let taken = ancestry_from (id ∷ seen) ids in
    if str_eq id "" || any (str_eq id) seen then skipped else id ∷ taken

-- The conversation's participant, letters of either case.
abbrev pub participant_is : Text → Option Conversation → Bool
participant_is address none = false
participant_is address (some c) = text_eq (to_lower c.participant_address) (to_lower address)

abbrev pub conversation_at : List Conversation → Option ℕ → Option Conversation
conversation_at cs none = none
conversation_at cs (some id) = find (has_id id) cs

abbrev pub is_with : List Conversation → Text → Message → Bool
is_with cs address m = participant_is address (conversation_at cs m.conversation_id)

abbrev pub is_one_of : List String → Option String → Bool
is_one_of ids none = false
is_one_of ids (some id) = any (str_eq id) ids

-- The preferred identifier where there is one, else any of the ancestry.
abbrev pub is_referenced : Option String → List String → Message → Bool
is_referenced none ancestry m = is_one_of ancestry m.internet_message_id
is_referenced (some preferred) ancestry m =
    if str_eq preferred ""
    then is_one_of ancestry m.internet_message_id
    else text_holds m.internet_message_id preferred

abbrev pub is_accepted : MessageState → Bool
is_accepted accepted = true
is_accepted _ = false

abbrev pub is_candidate : List Conversation → Text → Message → Bool
is_candidate cs address m =
    is_outbound m.direction
    && is_accepted m.state
    && not (is_null m.resend_email_id)
    && is_null m.internet_message_id
    && is_with cs address m

-- The latest first; one more than are looked up.
unfoldable pub hydration_candidates : List Conversation → Text → List Message → List Message
unfolding to_lower order_by
hydration_candidates cs address ms = take 11 (
    order_by (λ a b. key_le (b.email_created_at, b.id) (a.email_created_at, a.id))
      (select (is_candidate cs address) ms))

abbrev pub is_recent : ℕ → Message → Bool
is_recent now m = leb now (m.email_created_at + hydration_retry_window_ms)

-- What the loop has seen: an identifier of the ancestry, and a recent mail that could not be asked for.
pub record Progress : Type 0 where
  pub matched : Bool
  pub recent_failed : Bool

abbrev pub asked : (String → Option (String × ℕ)) → Option String → Option (String × ℕ)
asked get_sent none = none
asked get_sent (some email_id) = get_sent email_id

unfoldable pub hydrate_candidates :
    List Sink
    → ℕ
    → List String
    → Progress
    → List (Message × Option (String × ℕ))
    → Action Db Fault Progress
unfolding record_outbound_internet_message_id
hydrate_candidates sinks now ancestry p [] = pure p
hydrate_candidates sinks now ancestry p ((m, none) ∷ results) =
    hydrate_candidates sinks now ancestry
      (record p { recent_failed = p.recent_failed || is_recent now m }) results
hydrate_candidates sinks now ancestry p ((m, some (internet_message_id, created_at)) ∷ results) = do
  record_outbound_internet_message_id sinks now m.id internet_message_id (some created_at)
  hydrate_candidates sinks now ancestry
      (record p { matched = p.matched || any (str_eq internet_message_id) ancestry }) results

abbrev pub overflows : ℕ → Option Message → Bool
overflows now none = false
overflows now (some m) = is_recent now m

abbrev pub finish_hydration : ℕ → List Message → Progress → Action Db Fault (Unit {0})
finish_hydration now candidates p =
    if not p.matched
      && (p.recent_failed || overflows now (get_elem? candidates max_hydration_candidates))
    then throw hydration_incomplete
    else pure tt

abbrev pub hydrate_found :
    List Sink
    → (String → Option (String × ℕ))
    → ℕ
    → List String
    → List Message
    → Action Db Fault (Unit {0})
hydrate_found sinks get_sent now ancestry candidates = do
  p ←
      hydrate_candidates sinks now ancestry (record { matched = false; recent_failed = false })
        (map (λ m. (m, asked get_sent m.resend_email_id))
          (take max_hydration_candidates candidates))
  finish_hydration now candidates p

abbrev pub hydrate_ancestry :
    List Sink
    → (String → Option (String × ℕ))
    → ℕ
    → Text
    → Option String
    → List String
    → Action Db Fault (Unit {0})
hydrate_ancestry sinks get_sent now address preferred [] db = (done tt, db)
hydrate_ancestry sinks get_sent now address preferred (id ∷ ids) db =
    if any (λ m. is_referenced preferred (id ∷ ids) m && is_with db.conversations address m)
      db.messages
    then (done tt, db)
    else hydrate_found sinks get_sent now (id ∷ ids)
        (hydration_candidates db.conversations address db.messages) db

-- `get_sent` is `none` where the provider's answer is an error.
unfoldable pub hydrate_referenced_outbound_messages :
    List Sink
    → (String → Option (String × ℕ))
    → ℕ
    → Text
    → List String
    → Option String
    → Action Db Fault (Unit {0})
unfolding ancestry_from hydration_candidates hydrate_candidates
hydrate_referenced_outbound_messages sinks get_sent now address ids preferred =
    hydrate_ancestry sinks get_sent now address preferred (ancestry_from [] ids)
