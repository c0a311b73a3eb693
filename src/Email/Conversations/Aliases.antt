-- ===== src/Email/Conversations/Aliases.antt =====
-- The routing aliases after a merge: which tokens and base addresses there are, and whose they are.
use resend_conversation_serv.Prelude.{
  ℕ, ◌≡◌, refl, sym, subst, false, List, [], ◌∷◌, map, any, All, Bool-cases, inl, inr,
}
use resend_conversation_serv.Database.{Db, Conversation}
use resend_conversation_serv.Conversation.Events.{has_id}
use resend_conversation_serv.Email.Merging.{
  is_in, id_of, unique_sources, update_conversation, preserve_from, merged_columns, move_aliases,
  preserve_merged_conversation_state,
}
use resend_conversation_serv.Email.Conversations.Owners.Added.{IsMoved, HasOwn}
use resend_conversation_serv.Email.Conversations.Owners.Sources.{unique_sources-is_in}
use resend_conversation_serv.Email.Conversations.Owners.{
  moved_aliases, moved_aliases-IsMoved, moved_aliases-HasOwn, moved_aliases-is_in,
  moved_aliases-nil,
}

-- What a merge leaves of the aliases.
pub record RoutesKept (target : ℕ) (sources : List Conversation) (a b : Db) : Type 0 where
  pub kept : All (IsMoved b.routing_aliases target (map id_of sources)) a.routing_aliases
  pub own : All (HasOwn a.routing_aliases b.routing_aliases target) sources
  pub left : All (λ x. is_in (map id_of sources) x.conversation_id ≡ false) b.routing_aliases

update_conversation-aliases :
    (id : ℕ) (f : Conversation → Conversation) (db : Db)
    → (update_conversation id f db).1.routing_aliases ≡ db.routing_aliases
update_conversation-aliases id f db = elim (Bool-cases (any (has_id id) db.conversations)) [
  | inl e ↦ rw e refl
  | inr e ↦ rw e refl
]

-- When conversations are merged into a target, every alias's token and base address lead to the
-- target if the alias belonged to one of the merged conversations, and otherwise to the conversation
-- that it belonged to; the own token and base address of each merged conversation that has a base
-- address lead to the target, unless they were an alias before; and no alias of a merged conversation
-- is left. All this holds also where the merge then throws.
pub preserve-RoutesKept :
    (target : Conversation) (sources : List Conversation) (db : Db)
    → RoutesKept target.id
        (unique_sources target sources)
        db
        (preserve_merged_conversation_state target sources db).1
unfolding preserve_merged_conversation_state
preserve-RoutesKept target sources db =
    from (unique_sources target sources) (unique_sources-is_in target sources)
  where
    from :
        (cs : List Conversation)
        → is_in (map id_of cs) target.id ≡ false
        → RoutesKept target.id cs db (preserve_from target cs db).1
    from [] h =
        let same : moved_aliases target.id [] db.routing_aliases ≡ db.routing_aliases =
          moved_aliases-nil target.id db.routing_aliases in
        record {
          kept =
              subst (λ l. All (IsMoved l target.id []) db.routing_aliases) same
                (moved_aliases-IsMoved target.id [] db.routing_aliases);
          own = tt;
          left =
              subst (λ l. All (λ x. is_in [] x.conversation_id ≡ false) l) same
                (moved_aliases-is_in target.id [] db.routing_aliases h);
        }
    from (s ∷ cs) h =
        let written : (preserve_from target (s ∷ cs) db).1.routing_aliases
            ≡ moved_aliases target.id (s ∷ cs) db.routing_aliases =
          update_conversation-aliases target.id (merged_columns target (s ∷ cs))
            (move_aliases target.id (s ∷ cs) db).1 in
        record {
          kept =
              subst (λ l. All (IsMoved l target.id (map id_of (s ∷ cs))) db.routing_aliases)
                (sym written) (moved_aliases-IsMoved target.id (s ∷ cs) db.routing_aliases);
          own =
              subst (λ l. All (HasOwn db.routing_aliases l target.id) (s ∷ cs)) (sym written)
                (moved_aliases-HasOwn target.id (s ∷ cs) db.routing_aliases);
          left =
              subst (λ l. All (λ x. is_in (map id_of (s ∷ cs)) x.conversation_id ≡ false) l)
                (sym written) (moved_aliases-is_in target.id (s ∷ cs) db.routing_aliases h);
        }
