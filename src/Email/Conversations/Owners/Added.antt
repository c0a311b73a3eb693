-- ===== src/Email/Conversations/Owners/Added.antt =====
-- What adding aliases for a conversation, and moving aliases to it, does to where they lead.
use resend_conversation_serv.Prelude.{
  ℕ, ◌≡◌, refl, arith, ==_iff, Bool, true, ◌⊎◌, ◌&&◌, ◌==◌, Option, none, some, List, [], ◌∷◌, ◌++◌,
  update, any, All, All-mono, Bool-cases, inl, inr, if◌then◌else◌,
}
use resend_conversation_serv.Prelude.Text.{Text, text_eq_refl}
use resend_conversation_serv.Database.{Conversation, RoutingAlias}
use resend_conversation_serv.Email.Merging.{
  is_in, retarget, same_alias, add_alias, add_own, add_aliases, own_base,
}

-- Some alias has the token and the base address.
abbrev pub IsRouted : List RoutingAlias → Text → Text → Type 0
IsRouted aliases token base = any (same_alias token base) aliases ≡ true

any-left :
    (p : RoutingAlias → Bool) (l k : List RoutingAlias) → any p l ≡ true → any p (l ++ k) ≡ true
any-left p [] k h = cc
any-left p (a ∷ l) k h = elim (Bool-cases (p a)) [
  | inl e ↦ rw e refl
  | inr e ↦ rw e (any-left p l k (let h' : any p l ≡ true = rw e at h in h'))
]

any-last :
    (p : RoutingAlias → Bool) (l : List RoutingAlias) (a : RoutingAlias)
    → p a ≡ true
    → any p (l ++ a ∷ []) ≡ true
any-last p [] a h = rw h refl
any-last p (b ∷ l) a h = let ih = any-last p l a h in ground arith

add_alias-IsRouted :
    (id : ℕ) (token base : Text) (aliases : List RoutingAlias)
    → IsRouted (add_alias id token base aliases) token base
add_alias-IsRouted id token base aliases = elim (Bool-cases (any (same_alias token base) aliases)) [
  | inl e ↦ rw (e, e) refl
  | inr e ↦
      rw e (
        any-last (same_alias token base) aliases _
          (rw (text_eq_refl token, text_eq_refl base) refl))
]

-- Adding aliases drops none.
pub add_aliases-any :
    (p : RoutingAlias → Bool) (id : ℕ) (cs : List Conversation) (aliases : List RoutingAlias)
    → any p aliases ≡ true
    → any p (add_aliases id cs aliases) ≡ true
unfolding add_aliases
add_aliases-any p id [] aliases h = h
add_aliases-any p id (c ∷ cs) aliases h =
    add_aliases-any p id cs (add_own id c.routing_token (own_base c) aliases) (own (own_base c))
  where
    own : (o : Option Text) → any p (add_own id c.routing_token o aliases) ≡ true
    own none = h
    own (some base) = elim (Bool-cases (any (same_alias c.routing_token base) aliases)) [
      | inl e ↦ rw e h
      | inr e ↦ rw e (any-left p aliases _ h)
    ]

-- The own Reply-To address of a conversation, where it has one, is among the aliases.
abbrev pub OwnRouted : List RoutingAlias → Text → Option Text → Type 0
OwnRouted aliases token none = Unit {0}
OwnRouted aliases token (some base) = IsRouted aliases token base

pub add_aliases-OwnRouted :
    (id : ℕ) (cs : List Conversation) (aliases : List RoutingAlias)
    → All (λ c. OwnRouted (add_aliases id cs aliases) c.routing_token (own_base c)) cs
unfolding add_aliases
add_aliases-OwnRouted id [] aliases = tt
add_aliases-OwnRouted id (c ∷ cs) aliases = (
  own (own_base c),
  add_aliases-OwnRouted id cs (add_own id c.routing_token (own_base c) aliases),
)
  where
    own :
        (o : Option Text)
        → OwnRouted (add_aliases id cs (add_own id c.routing_token o aliases)) c.routing_token o
    own none = tt
    own (some base) =
        add_aliases-any (same_alias c.routing_token base) id cs
          (add_alias id c.routing_token base aliases)
          (add_alias-IsRouted id c.routing_token base aliases)

pub retarget-same :
    (p : RoutingAlias → Bool) (id : ℕ) (t b : Text) (aliases : List RoutingAlias)
    → any (same_alias t b) (update p (retarget id) aliases) ≡ any (same_alias t b) aliases
retarget-same p id t b [] = refl
retarget-same p id t b (a ∷ aliases) = elim (Bool-cases (p a)) [
  | inl e ↦ rw (e, retarget-same p id t b aliases) refl
  | inr e ↦ rw (e, retarget-same p id t b aliases) refl
]

-- Some alias of the conversation has the token and the base address.
abbrev pub leads_to : ℕ → Text → Text → RoutingAlias → Bool
leads_to id token base a = a.conversation_id == id && same_alias token base a

abbrev pub IsRoutedTo : List RoutingAlias → ℕ → Text → Text → Type 0
IsRoutedTo aliases id token base = any (leads_to id token base) aliases ≡ true

-- The conversation that an alias belongs to once those with the identifiers are merged.
abbrev pub owner_after : ℕ → List ℕ → RoutingAlias → ℕ
owner_after target ids a = if is_in ids a.conversation_id then target else a.conversation_id

-- The alias's token and base address lead to its conversation, or to the target of its merge.
abbrev pub IsMoved : List RoutingAlias → ℕ → List ℕ → RoutingAlias → Type 0
IsMoved aliases target ids a =
    IsRoutedTo aliases (owner_after target ids a) a.routing_token a.base_address

-- The own token and base address of a conversation lead to the target, unless they were an alias
-- before the merge.
abbrev pub OwnMoved : List RoutingAlias → List RoutingAlias → ℕ → Text → Option Text → Type 0
OwnMoved before aliases id token none = Unit {0}
OwnMoved before aliases id token (some base) =
    IsRoutedTo aliases id token base ⊎ IsRouted before token base

abbrev pub HasOwn : List RoutingAlias → List RoutingAlias → ℕ → Conversation → Type 0
HasOwn before aliases id c = OwnMoved before aliases id c.routing_token (own_base c)

alias-IsMoved :
    (target : ℕ) (ids : List ℕ) (a : RoutingAlias) (l : List RoutingAlias)
    → IsMoved (update (λ x. is_in ids x.conversation_id) (retarget target) (a ∷ l)) target ids a
alias-IsMoved target ids a l = elim (Bool-cases (is_in ids a.conversation_id)) [
  | inl e ↦
      rw
        (
          e,
          text_eq_refl a.routing_token,
          text_eq_refl a.base_address,
          (==_iff target target).1 refl,
        )
        refl
  | inr e ↦
      rw
        (
          e,
          text_eq_refl a.routing_token,
          text_eq_refl a.base_address,
          (==_iff a.conversation_id a.conversation_id).1 refl,
        )
        refl
]

any-tail :
    (p : RoutingAlias → Bool) (a : RoutingAlias) (l : List RoutingAlias)
    → any p l ≡ true
    → any p (a ∷ l) ≡ true
any-tail p a l h = ground arith

update-any-tail :
    (q p : RoutingAlias → Bool) (f : RoutingAlias → RoutingAlias) (a : RoutingAlias)
    (l : List RoutingAlias)
    → any p (update q f l) ≡ true
    → any p (update q f (a ∷ l)) ≡ true
update-any-tail q p f a l h = elim (Bool-cases (q a)) [
  | inl e ↦ rw e (any-tail p (f a) (update q f l) h)
  | inr e ↦ rw e (any-tail p a (update q f l) h)
]

-- Every alias is moved by the update.
pub update-IsMoved :
    (target : ℕ) (ids : List ℕ) (l : List RoutingAlias)
    → All (IsMoved (update (λ x. is_in ids x.conversation_id) (retarget target) l) target ids) l
update-IsMoved target ids [] = tt
update-IsMoved target ids (a ∷ l) = (
  alias-IsMoved target ids a l,
  All-mono
      (λ b h.
        update-any-tail (λ x. is_in ids x.conversation_id)
          (leads_to (owner_after target ids b) b.routing_token b.base_address) (retarget target) a l
          h)
      l (update-IsMoved target ids l),
)

any-last_cases :
    (p : RoutingAlias → Bool) (l : List RoutingAlias) (a : RoutingAlias)
    → any p (l ++ a ∷ []) ≡ true
    → (any p l ≡ true) ⊎ (p a ≡ true)
any-last_cases p [] a h = inr (ground arith)
any-last_cases p (b ∷ l) a h = elim (Bool-cases (p b)) [
  | inl e ↦ inl (rw e refl)
  | inr e ↦
      let h' : any p (l ++ a ∷ []) ≡ true = rw e at h in
      elim (any-last_cases p l a h') [ inl k ↦ inl (rw (e, k) refl) | inr k ↦ inr k ]
]

-- What is an alias now leads to the target or was one before.
abbrev pub IsNew : List RoutingAlias → ℕ → List RoutingAlias → Type 0
IsNew before id aliases =
    (t b : Text) → IsRouted aliases t b → IsRoutedTo aliases id t b ⊎ IsRouted before t b

add_alias-IsNew :
    (before : List RoutingAlias) (id : ℕ) (token base : Text) (aliases : List RoutingAlias)
    → IsNew before id aliases
    → IsNew before id (add_alias id token base aliases)
add_alias-IsNew before id token base aliases k =
    elim (Bool-cases (any (same_alias token base) aliases)) [ inl e ↦ rw e k | inr e ↦ rw e added ]
  where
    a : RoutingAlias
    a = record { conversation_id = id; routing_token = token; base_address = base }

    old :
        (t b : Text)
        → (IsRoutedTo aliases id t b ⊎ IsRouted before t b)
        → IsRoutedTo (aliases ++ a ∷ []) id t b ⊎ IsRouted before t b
    old t b (inl h) = inl (any-left (leads_to id t b) aliases (a ∷ []) h)
    old t b (inr h) = inr h

    split :
        (t b : Text)
        → ((any (same_alias t b) aliases ≡ true) ⊎ (same_alias t b a ≡ true))
        → IsRoutedTo (aliases ++ a ∷ []) id t b ⊎ IsRouted before t b
    split t b (inl h) = old t b (k t b h)
    split t b (inr h) =
        inl (any-last (leads_to id t b) aliases a (rw ((==_iff id id).1 refl, h) refl))

    added : IsNew before id (aliases ++ a ∷ [])
    added t b h = split t b (any-last_cases (same_alias t b) aliases a h)

pub add_aliases-IsNew :
    (before : List RoutingAlias) (id : ℕ) (cs : List Conversation) (aliases : List RoutingAlias)
    → IsNew before id aliases
    → IsNew before id (add_aliases id cs aliases)
unfolding add_aliases
add_aliases-IsNew before id [] aliases k = k
add_aliases-IsNew before id (c ∷ cs) aliases k =
    add_aliases-IsNew before id cs (add_own id c.routing_token (own_base c) aliases)
      (own (own_base c))
  where
    own : (o : Option Text) → IsNew before id (add_own id c.routing_token o aliases)
    own none = k
    own (some base) = add_alias-IsNew before id c.routing_token base aliases k

pub OwnMoved-IsNew :
    (before aliases : List RoutingAlias) (id : ℕ) (token : Text) (o : Option Text)
    → IsNew before id aliases
    → OwnRouted aliases token o
    → OwnMoved before aliases id token o
OwnMoved-IsNew before aliases id token none k h = tt
OwnMoved-IsNew before aliases id token (some base) k h = k token base h
