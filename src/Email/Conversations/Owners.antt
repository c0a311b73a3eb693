-- ===== src/Email/Conversations/Owners.antt =====
-- Whose the routing aliases are after aliases are moved to a target and added for it.
pub mod Added
pub mod Sources
use resend_conversation_serv.Prelude.{
  ℕ, ◌≡◌, refl, sym, ap, ◌∙◌, arith, ==_iff, Bool, true, false, not, ◌⊎◌, ◌&&◌, ◌==◌, Option, none,
  some, List, [], ◌∷◌, ◌++◌, map, update, select, select-holds, any, All, All-mono, All-update,
  All-update_cases, All-append, Bool-cases, inl, inr, if◌then◌else◌,
}
use resend_conversation_serv.Prelude.Text.{Text, text_eq_refl}
use resend_conversation_serv.Database.{Conversation, RoutingAlias}
use resend_conversation_serv.Conversation.Events.{has_id}
use resend_conversation_serv.Email.Merging.{
  is_in, id_of, put, unique_from, unique_sources, retarget, same_alias, add_alias, add_own,
  add_aliases, own_base,
}
use resend_conversation_serv.Email.Conversations.Owners.Added.{
  leads_to, owner_after, IsMoved, HasOwn, add_aliases-any, add_aliases-OwnRouted, retarget-same,
  update-IsMoved, OwnMoved-IsNew, add_aliases-IsNew,
}

add_alias-All :
    (P : RoutingAlias → Type 0) (id : ℕ) (token base : Text) (aliases : List RoutingAlias)
    → ((a : RoutingAlias) → a.conversation_id ≡ id → P a)
    → All P aliases
    → All P (add_alias id token base aliases)
add_alias-All P id token base aliases k h =
    elim (Bool-cases (any (same_alias token base) aliases)) [
      | inl e ↦ rw e h
      | inr e ↦ rw e (All-append P aliases _ h (k _ refl, tt))
    ]

-- What holds of the aliases and of every alias of the target holds once aliases of it are added.
add_aliases-All :
    (P : RoutingAlias → Type 0) (id : ℕ) (cs : List Conversation) (aliases : List RoutingAlias)
    → ((a : RoutingAlias) → a.conversation_id ≡ id → P a)
    → All P aliases
    → All P (add_aliases id cs aliases)
unfolding add_aliases
add_aliases-All P id [] aliases k h = h
add_aliases-All P id (c ∷ cs) aliases k h =
    add_aliases-All P id cs (add_own id c.routing_token (own_base c) aliases) k (own (own_base c))
  where
    own : (o : Option Text) → All P (add_own id c.routing_token o aliases)
    own none = h
    own (some base) = add_alias-All P id c.routing_token base aliases k h

-- Moving the aliases of the sources leaves none of theirs.
update-is_in :
    (target : ℕ) (ids : List ℕ) (aliases : List RoutingAlias)
    → is_in ids target ≡ false
    → All
        (λ x. is_in ids x.conversation_id ≡ false)
        (update (λ x. is_in ids x.conversation_id) (retarget target) aliases)
update-is_in target ids aliases h =
    All-update_cases {P = λ _. Unit {0}} (λ x. is_in ids x.conversation_id) (retarget target)
      aliases (λ a e u. h) (λ a e u. e) (All_any aliases)
  where
    All_any : (l : List RoutingAlias) → All (λ _. Unit {0}) l
    All_any [] = tt
    All_any (a ∷ l) = (tt, All_any l)

-- What moving the aliases of `cs` to the target, and adding the own ones of `cs`, leaves.
abbrev pub moved_aliases : ℕ → List Conversation → List RoutingAlias → List RoutingAlias
moved_aliases target cs aliases =
    add_aliases target cs
      (update (λ x. is_in (map id_of cs) x.conversation_id) (retarget target) aliases)

module _ (target : ℕ) (cs : List Conversation) (aliases : List RoutingAlias) where
  pub moved_aliases-IsMoved :
      All (IsMoved (moved_aliases target cs aliases) target (map id_of cs)) aliases
  moved_aliases-IsMoved =
      All-mono
        (λ a h.
          add_aliases-any
            (leads_to (owner_after target (map id_of cs) a) a.routing_token a.base_address) target
            cs _ h)
        aliases (update-IsMoved target (map id_of cs) aliases)

  pub moved_aliases-HasOwn : All (HasOwn aliases (moved_aliases target cs aliases) target) cs
  moved_aliases-HasOwn =
      All-mono
        (λ c h.
          OwnMoved-IsNew aliases (moved_aliases target cs aliases) target c.routing_token
            (own_base c)
            (add_aliases-IsNew aliases target cs _ (λ t b h. inr (
              sym (retarget-same (λ x. is_in (map id_of cs) x.conversation_id) target t b aliases)
              ∙ h)))
            h)
        cs (add_aliases-OwnRouted target cs _)

  pub moved_aliases-is_in :
      is_in (map id_of cs) target ≡ false
      → All (λ x. is_in (map id_of cs) x.conversation_id ≡ false) (moved_aliases target cs aliases)
  moved_aliases-is_in h =
      add_aliases-All (λ x. is_in (map id_of cs) x.conversation_id ≡ false) target cs _
        (λ a e. rw e h) (update-is_in target (map id_of cs) aliases h)

pub moved_aliases-nil :
    (target : ℕ) (aliases : List RoutingAlias) → moved_aliases target [] aliases ≡ aliases
unfolding add_aliases
moved_aliases-nil target [] = refl
moved_aliases-nil target (a ∷ aliases) = ap (◌∷◌ a) (moved_aliases-nil target aliases)
