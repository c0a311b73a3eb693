-- ===== src/Email/Conversations/Joining.antt =====
-- What happens to the messages when replies join the conversation of a mail.
use resend_conversation_serv.Email.Conversations.Kept.{
  Joined, Joined-refl, Keeps, Keeps-refl, Keeps-trans, SameMessages, preserve-SameMessages,
  merges-SameMessages, refresh-SameMessages,
}
use resend_conversation_serv.Prelude.{
  ℕ, ◌≡◌, inl, inr, refl, sym, subst, arith, Bool, true, false, Option, none, some, List, [], ◌∷◌,
  map, ◌==◌, if◌then◌else◌, Action, ◌>>◌, select, update, delete, All, All₂, All₂-update, Within,
  Within-bind, Bool-cases,
}
use resend_conversation_serv.Database.{Db, Message, Sink, Fault}
use resend_conversation_serv.Delivery.{update_messages}
use resend_conversation_serv.Email.Conversations.{
  Linked, is_of_one, is_gone, orphan, assign, adopt, is_adopted, delete_conversations,
  adopt_children, refresh_last, is_foreign, distinct_ids, foreign_ids, join_children,
}
use resend_conversation_serv.Email.Merging.{
  is_in, preserve_merged_conversation_state, record_conversation_merges,
}

-- No message is in one of the conversations.
abbrev IsLeft : List ℕ → Db → Type 0
IsLeft ids db = All (λ m. is_of_one ids m ≡ false) db.messages

module _ (target : ℕ) (ids : List ℕ) (kept : is_in ids target ≡ false) where
  -- Once the conversations are left, no message is lost and they stay left.
  abbrev KeepsLeft : Db → Db → Type 0
  KeepsLeft a b = IsLeft ids a → Keeps (some target) a b × IsLeft ids b

  KeepsLeft-trans : (a b c : Db) → KeepsLeft a b → KeepsLeft b c → KeepsLeft a c
  KeepsLeft-trans a b c h k l =
      let (first, left) = h l in
      let (second, left') = k left in (Keeps-trans (some target) a b c first second, left')

  equal-KeepsLeft : (a b : Db) → SameMessages a b → KeepsLeft a b
  equal-KeepsLeft a b h l = (
    subst (All₂ (Joined (some target)) a.messages) (sym h) (Keeps-refl (some target) a),
    subst (All (λ m. is_of_one ids m ≡ false)) (sym h) l,
  )

  adopt-KeepsLeft :
      (parent : ℕ) (children : List Linked)
      → Within KeepsLeft (adopt_children target parent children)
  adopt-KeepsLeft parent children db l = (
    All₂-update (Joined (some target)) (is_adopted children target) (adopt parent) db.messages
        (λ m _. record {
          id = refl;
          kind = refl;
          direction = refl;
          state = refl;
          resend_email_id = refl;
          idempotency_key = refl;
          conversation = inl refl;
        })
        (Joined-refl (some target)),
    left db.messages l,
  )
    where
      left :
          (ms : List Message)
          → All (λ m. is_of_one ids m ≡ false) ms
          → All
              (λ m. is_of_one ids m ≡ false)
              (update (is_adopted children target) (adopt parent) ms)
      left [] k = tt
      left (m ∷ ms) k = (one (is_adopted children target m), left ms k.1)
        where
          one : (b : Bool) → is_of_one ids (if b then adopt parent m else m) ≡ false
          one true = k.0
          one false = k.0

  IsLeft-is_gone :
      (ms : List Message) (o : Option ℕ)
      → All (λ m. is_of_one ids m ≡ false) ms
      → is_gone ids ms o ≡ false
  IsLeft-is_gone ms none k = refl
  IsLeft-is_gone [] (some i) k = refl
  IsLeft-is_gone (m ∷ ms) (some i) k =
      let rest = IsLeft-is_gone ms (some i) k.1 in
      let first = k.0 in
      elim (Bool-cases (m.id == i)) [ inl e ↦ rw (e, first, rest) refl | inr e ↦ rw (e, rest) refl ]

  delete-KeepsLeft : Within KeepsLeft (delete_conversations ids)
  unfolding delete_conversations
  delete-KeepsLeft db l =
      equal-KeepsLeft db (delete_conversations ids db).1
        (rw (whole db.messages l) (parents db.messages)) l
    where
      whole :
          (ms : List Message)
          → All (λ m. is_of_one ids m ≡ false) ms
          → delete (is_of_one ids) ms ≡ ms
      whole [] k = refl
      whole (m ∷ ms) k = rw (k.0, whole ms k.1) refl

      parents :
          (ms : List Message)
          → update (λ m. is_gone ids db.messages m.parent_message_id) orphan ms ≡ ms
      parents [] = refl
      parents (m ∷ ms) = rw (IsLeft-is_gone db.messages m.parent_message_id l, parents ms) refl

  assign-Keeps : Within (Keeps (some target)) (update_messages (is_of_one ids) (assign target))
  assign-Keeps db =
      All₂-update (Joined (some target)) (is_of_one ids) (assign target) db.messages
        (λ m _. record {
          id = refl;
          kind = refl;
          direction = refl;
          state = refl;
          resend_email_id = refl;
          idempotency_key = refl;
          conversation = inr refl;
        })
        (Joined-refl (some target))

  assign-IsLeft :
      (ms : List Message)
      → All (λ m. is_of_one ids m ≡ false) (update (is_of_one ids) (assign target) ms)
  assign-IsLeft [] = tt
  assign-IsLeft (m ∷ ms) = (one, assign-IsLeft ms)
    where
      one : is_of_one ids (if is_of_one ids m then assign target m else m) ≡ false
      one = elim (Bool-cases (is_of_one ids m)) [ inl e ↦ rw e kept | inr e ↦ rw (e, e) refl ]

  SameMessages-KeepsLeft :
      {A : Type 0} (m : Action Db Fault A) → Within SameMessages m → Within KeepsLeft m
  SameMessages-KeepsLeft m h db = equal-KeepsLeft db (m db).1 (h db)

  -- What follows once the messages are assigned to the target.
  abbrev close_left : Action Db Fault (Unit {0})
  close_left = delete_conversations ids >> refresh_last target

  abbrev adopt_left : ℕ → List Linked → Action Db Fault (Unit {0})
  adopt_left parent children = adopt_children target parent children >> close_left

  abbrev settle_joined : List Sink → ℕ → ℕ → List Linked → Action Db Fault (Unit {0})
  settle_joined sinks now parent children =
      record_conversation_merges sinks target ids now >> adopt_left parent children

  close-KeepsLeft : Within KeepsLeft close_left
  close-KeepsLeft =
      Within-bind KeepsLeft KeepsLeft-trans (delete_conversations ids) (λ _. refresh_last target)
        delete-KeepsLeft
        (λ _. SameMessages-KeepsLeft (refresh_last target) (refresh-SameMessages target))

  adopt_left-KeepsLeft :
      (parent : ℕ) (children : List Linked) → Within KeepsLeft (adopt_left parent children)
  adopt_left-KeepsLeft parent children =
      Within-bind KeepsLeft KeepsLeft-trans (adopt_children target parent children)
        (λ _. close_left) (adopt-KeepsLeft parent children) (λ _. close-KeepsLeft)

  settle_joined-KeepsLeft :
      (sinks : List Sink) (now parent : ℕ) (children : List Linked)
      → Within KeepsLeft (settle_joined sinks now parent children)
  settle_joined-KeepsLeft sinks now parent children =
      let merges = record_conversation_merges sinks target ids now in
      Within-bind KeepsLeft KeepsLeft-trans merges (λ _. adopt_left parent children)
        (SameMessages-KeepsLeft merges (merges-SameMessages sinks target ids now))
        (λ _. adopt_left-KeepsLeft parent children)

  assigned-Keeps :
      (sinks : List Sink) (now parent : ℕ) (children : List Linked)
      → Within (Keeps (some target)) (
          update_messages (is_of_one ids) (assign target)
          >> settle_joined sinks now parent children)
  assigned-Keeps sinks now parent children db =
      let moved = (update_messages (is_of_one ids) (assign target) db).1 in
      Keeps-trans (some target) db moved (settle_joined sinks now parent children moved).1
        (assign-Keeps db)
        (settle_joined-KeepsLeft sinks now parent children moved (assign-IsLeft db.messages)).0

SameMessages-Keeps :
    {A : Type 0} (target : Option ℕ) (m : Action Db Fault A)
    → Within SameMessages m
    → Within (Keeps target) m
SameMessages-Keeps target m h db =
    subst (All₂ (Joined target) db.messages) (sym (h db)) (Keeps-refl target db)

pub join_children-Keeps :
    (sinks : List Sink) (now : ℕ) (outbound : Linked) (children : List Linked) (ids : List ℕ)
    → is_in ids outbound.conversation.id ≡ false
    → Within (Keeps (some outbound.conversation.id)) (join_children sinks now outbound children ids)
unfolding join_children
join_children-Keeps sinks now outbound children [] kept =
    let target = outbound.conversation.id in
    Within-bind (Keeps (some target)) (Keeps-trans (some target))
      (adopt_children target outbound.message.id children) (λ _. refresh_last target)
      (λ db.
        (adopt-KeepsLeft target [] kept outbound.message.id children db (all_left db.messages)).0)
      (λ _. SameMessages-Keeps (some target) (refresh_last target) (refresh-SameMessages target))
  where
    all_left : (ms : List Message) → All (λ m. is_of_one [] m ≡ false) ms
    all_left [] = tt
    all_left (m ∷ ms) = (one m.conversation_id, all_left ms)
      where
        one : (o : Option ℕ) → (elim o [ none ↦ false | some id ↦ is_in [] id ]) ≡ false
        one none = refl
        one (some id) = refl
join_children-Keeps sinks now outbound children (id ∷ ids) kept =
    let target = outbound.conversation.id in
    let sources = select (λ c. is_in (id ∷ ids) c.id) (map (λ l. l.conversation) children) in
    Within-bind (Keeps (some target)) (Keeps-trans (some target))
      (preserve_merged_conversation_state outbound.conversation sources)
      (λ _.
        update_messages (is_of_one (id ∷ ids)) (assign target)
        >> settle_joined target (id ∷ ids) kept sinks now outbound.message.id children)
      (SameMessages-Keeps (some target)
        (preserve_merged_conversation_state outbound.conversation sources)
        (preserve-SameMessages outbound.conversation sources))
      (λ _. assigned-Keeps target (id ∷ ids) kept sinks now outbound.message.id children)

-- The target is none of the conversations that are merged into it.
distinct-is_in :
    (t : ℕ) (seen is : List ℕ) → is_in is t ≡ false → is_in (distinct_ids seen is) t ≡ false
unfolding distinct_ids
distinct-is_in t seen [] h = refl
distinct-is_in t seen (i ∷ is) h = elim (Bool-cases (is_in seen i)) [
  | inl e ↦ rw e (distinct-is_in t seen is (ground arith))
  | inr e ↦ let ih = distinct-is_in t (i ∷ seen) is (ground arith) in rw (e, ih) (ground arith)
]

pub foreign-is_in : (t : ℕ) (ls : List Linked) → is_in (foreign_ids t ls) t ≡ false
unfolding foreign_ids
foreign-is_in t ls =
    distinct-is_in t [] (map (λ l. l.conversation.id) (select (is_foreign t) ls)) (others ls)
  where
    others :
        (ks : List Linked)
        → is_in (map (λ l. l.conversation.id) (select (is_foreign t) ks)) t ≡ false
    others [] = refl
    others (k ∷ ks) = elim (Bool-cases (is_foreign t k)) [
      | inl e ↦
          let ih = others ks in
          let d : (k.conversation.id == t) ≡ false = ground arith in rw (e, d, ih) refl
      | inr e ↦ rw e (others ks)
    ]
