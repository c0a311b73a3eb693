-- ===== src/Conversation/Events/Runtime/Order.antt =====
-- The order in which the events of a conversation are marked as published, sink by sink.
use resend_conversation_serv.Prelude.{
  ℕ, ◌≡◌, refl, sym, ap, ◌∙◌, Bool, true, false, ◌&&◌, some, List, [], ◌∷◌, arith, Bool-cases, ◌⊎◌,
  inl, inr, Option-cases, All, All-mono, All-update, update, any, find, is_null, ◌==◌, ltb,
}
use resend_conversation_serv.Database.{Db, Sink, nats, ConversationEvent, EventDelivery}
use resend_conversation_serv.Conversation.Events.{event_has_id}
use resend_conversation_serv.Conversation.Events.Runtime.{ClaimedDelivery, Joined, join, same_sink}

-- The deliveries with their events.
abbrev pub joined : Db → List Joined
joined db = join db.events db.deliveries

-- An unpublished event of the conversation that is older than the sequence number.
abbrev pub blocks : ℕ → ℕ → Joined → Bool
blocks conversation_id sequence j =
    j.event.conversation_id == conversation_id
    && ltb j.event.sequence sequence
    && is_null j.delivery.published_at

-- A row is unpublished, or every older event of its conversation is published.
abbrev pub RowInOrder : List Joined → Joined → Type 0
RowInOrder rows j =
    (is_null j.delivery.published_at ≡ true)
    ⊎ (any (blocks j.event.conversation_id j.event.sequence) rows ≡ false)

abbrev pub InOrder : Db → Type 0
InOrder db = All (RowInOrder (joined db)) (joined db)

pub same_sink-true : (s t : Sink) → same_sink s t ≡ true
same_sink-true nats nats = refl

-- An update of deliveries, on the joined rows.
abbrev pub lift : (EventDelivery → EventDelivery) → Joined → Joined
lift f j = record j { delivery = f j.delivery }

abbrev pub Keeps : (EventDelivery → EventDelivery) → Type 0
Keeps f =
    (d : EventDelivery)
    → ((f d).event_id ≡ d.event_id)
      × (is_null (f d).published_at ≡ true → is_null d.published_at ≡ true)

module _ (p : EventDelivery → Bool) (f : EventDelivery → EventDelivery) (keeps : Keeps f) where
  join-update :
      (events : List ConversationEvent) (ds : List EventDelivery)
      → join events (update p f ds) ≡ update (λ j. p j.delivery) (lift f) (join events ds)
  unfolding join
  join-update events [] = refl
  join-update events (d ∷ ds) = elim (Option-cases (find (event_has_id d.event_id) events)) [
    | inl none_found ↦ elim (Bool-cases (p d)) [
      | inl e ↦ rw (e, (keeps d).0, none_found) (join-update events ds)
      | inr e ↦ rw (e, none_found) (join-update events ds)
    ]
    | inr (event, found) ↦
        let found' : find (event_has_id (f d).event_id) events ≡ some event =
          rw ((keeps d).0) found in
        elim (Bool-cases (p d)) [
          | inl e ↦
              rw (e, found', found, e)
                (ap (◌∷◌ (record { delivery = f d; event = event })) (join-update events ds))
          | inr e ↦
              rw (e, found, e)
                (ap (◌∷◌ (record { delivery = d; event = event })) (join-update events ds))
        ]
  ]

  -- An update keeps what no row has, if it gives it to none.
  any-update :
      (q : Joined → Bool) (rows : List Joined)
      → ((j : Joined) → q (lift f j) ≡ true → q j ≡ true)
      → any q rows ≡ false
      → any q (update (λ j. p j.delivery) (lift f) rows) ≡ false
  any-update q [] k h = refl
  any-update q (j ∷ rows) k h =
      let ih = any-update q rows k (ground arith) in
      elim (Bool-cases (p j.delivery)) [
        | inl e ↦ elim (Bool-cases (q (lift f j))) [
          | inl y ↦ let z = k j y in absurd (ground arith)
          | inr n ↦ rw (e, n) ih
        ]
        | inr e ↦ rw e (ground arith)
      ]

  blocks-update :
      (c n : ℕ) (rows : List Joined)
      → any (blocks c n) rows ≡ false
      → any (blocks c n) (update (λ j. p j.delivery) (lift f) rows) ≡ false
  blocks-update c n rows =
      any-update (blocks c n) rows (λ j h. let unpublished = (keeps j.delivery).1 in ground arith)

  -- An update may publish only rows with no unpublished older event.
  rows-update :
      (all rows : List Joined)
      → All (λ j. (p j.delivery ≡ true) → RowInOrder all (lift f j)) rows
      → All (RowInOrder all) rows
      → All
          (RowInOrder (update (λ j. p j.delivery) (lift f) all))
          (update (λ j. p j.delivery) (lift f) rows)
  rows-update all [] k h = tt
  rows-update all (j ∷ rows) k h = elim (Bool-cases (p j.delivery)) [
    | inl e ↦ rw e (later (lift f j) (k.0 e), rows-update all rows k.1 h.1)
    | inr e ↦ rw e (later j h.0, rows-update all rows k.1 h.1)
  ]
    where
      later :
          (j : Joined) → RowInOrder all j → RowInOrder (update (λ j. p j.delivery) (lift f) all) j
      later j (inl u) = inl u
      later j (inr o) = inr (blocks-update j.event.conversation_id j.event.sequence all o)

-- What is known of a claimed delivery: its event's number, and that no older event is unpublished.
abbrev pub Numbered : ClaimedDelivery → Joined → Type 0
Numbered d j =
    j.delivery.event_id ≡ d.id
    → (j.event.conversation_id ≡ d.conversation_id) × (j.event.sequence ≡ d.sequence)

pub record Clear (db : Db) (d : ClaimedDelivery) : Type 0 where
  pub numbered : All (Numbered d) (joined db)
  pub unblocked : any (blocks d.conversation_id d.sequence) (joined db) ≡ false

pub record Ordered (db : Db) (out : List ClaimedDelivery) : Type 0 where
  pub in_order : InOrder db
  pub clear : All (Clear db) out

-- A statement on the deliveries, in general.
module _ (p : EventDelivery → Bool) (f : EventDelivery → EventDelivery) (keeps : Keeps f)
    (db : Db) where
  abbrev pub after : Db
  after = record db { deliveries = update p f db.deliveries }

  update-Clear : (d : ClaimedDelivery) → Clear db d → Clear after d
  update-Clear d h = record {
    numbered = rw (join-update p f keeps db.events db.deliveries) (
        All-update (λ j. p j.delivery) (lift f) (joined db)
          (λ j e n q. n (sym (keeps j.delivery).0 ∙ q)) h.numbered);
    unblocked =
        rw (join-update p f keeps db.events db.deliveries)
          (blocks-update p f keeps d.conversation_id d.sequence (joined db) h.unblocked);
  }

  pub update-Ordered :
      (out : List ClaimedDelivery)
      → All (λ j. (p j.delivery ≡ true) → RowInOrder (joined db) (lift f j)) (joined db)
      → Ordered db out
      → Ordered after out
  update-Ordered out k h = record {
    in_order =
        rw (join-update p f keeps db.events db.deliveries)
          (rows-update p f keeps (joined db) (joined db) k h.in_order);
    clear = All-mono update-Clear out h.clear;
  }
