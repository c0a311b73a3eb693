-- ===== src/Conversation/Events/Runtime/Steps.antt =====
-- The runs of any number of workers: claims, acknowledgements and retries in any order.
use resend_conversation_serv.Prelude.{
  ℕ, ◌≡◌, refl, sym, ap, ◌∙◌, Bool, true, false, ◌&&◌, Option, none, some, List, [], ◌∷◌, ◌++◌, map,
  arith, inl, inr, All, All-mono, All-append, update, any, find, get_elem?, get_elem?-All, is_null,
  due-All, is_among,
}
use resend_conversation_serv.Prelude.Text.{Text}
use resend_conversation_serv.Database.{Db, Sink, ConversationEvent, EventDelivery}
use resend_conversation_serv.Attachments.Reaper.{LeaseInput}
use resend_conversation_serv.Conversation.Events.{event_has_id}
use resend_conversation_serv.Conversation.Events.Runtime.{
  ClaimedDelivery, Joined, join, add_joined, same_sink, is_older_unpublished, is_due, created_first,
  due_deliveries, batch_size, event_id_of, lease_delivery, claimed_delivery, claim_deliveries,
  owned, publish_delivery, acknowledge_delivery, release_delivery, retry_delivery,
}
use resend_conversation_serv.Conversation.Events.Runtime.Order.{
  joined, blocks, InOrder, same_sink-true, Clear, Ordered, update-Ordered,
}

-- A step of some worker of the sink. `out` are the deliveries that workers have claimed so far; one
-- that was published may be acknowledged or retried at any later time, also after its lease.
pub data Step (sink : Sink) : Db → List ClaimedDelivery → Db → List ClaimedDelivery → Type 0 where
  claiming :
      (i : LeaseInput) (db : Db) (out : List ClaimedDelivery)
      → Step sink db out (claim_deliveries i sink db).1 ((claim_deliveries i sink db).0 ++ out)
  acknowledging :
      (now n : ℕ) (d : ClaimedDelivery) (db : Db) (out : List ClaimedDelivery)
      → get_elem? out n ≡ some d
      → Step sink db out (acknowledge_delivery now sink d db) out
  retrying :
      (now n : ℕ) (d : ClaimedDelivery) (code : Text) (db : Db) (out : List ClaimedDelivery)
      → get_elem? out n ≡ some d
      → Step sink db out (retry_delivery now sink d code db) out

pub data Steps (sink : Sink) : Db → List ClaimedDelivery → Db → List ClaimedDelivery → Type 0 where
  stop : (db : Db) (out : List ClaimedDelivery) → Steps sink db out db out
  go_on :
      (a b c : Db) (x y z : List ClaimedDelivery)
      → Step sink a x b y
      → Steps sink b y c z
      → Steps sink a x c z

All-map :
    (P : ClaimedDelivery → Type 0) (f : Joined → ClaimedDelivery) (rows : List Joined)
    → All (λ j. P (f j)) rows
    → All P (map f rows)
All-map P f [] h = tt
All-map P f (j ∷ rows) h = (h.0, All-map P f rows h.1)

-- Every joined row has the event that its delivery names.
abbrev Found : List ConversationEvent → Joined → Type 0
Found events j = find (event_has_id j.delivery.event_id) events ≡ some j.event

add-Found :
    (events : List ConversationEvent) (d : EventDelivery) (o : Option ConversationEvent)
    (rows : List Joined)
    → find (event_has_id d.event_id) events ≡ o
    → All (Found events) rows
    → All (Found events) (add_joined d o rows)
add-Found events d none rows e h = h
add-Found events d (some x) rows e h = (e, h)

join-Found :
    (events : List ConversationEvent) (ds : List EventDelivery)
    → All (Found events) (join events ds)
unfolding join
join-Found events [] = tt
join-Found events (d ∷ ds) =
    add-Found events d (find (event_has_id d.event_id) events) (join events ds) refl
      (join-Found events ds)

older-blocks :
    (j : Joined) (rows : List Joined)
    → any (is_older_unpublished j) rows ≡ false
    → any (blocks j.event.conversation_id j.event.sequence) rows ≡ false
older-blocks j [] h = refl
older-blocks j (k ∷ rows) h =
    let same = same_sink-true k.delivery.sink j.delivery.sink in
    let ih = older-blocks j rows (ground arith) in ground arith

some-event : (a b : ConversationEvent) → some a ≡ some b → a ≡ b
some-event a b e = ground arith

module _ (i : LeaseInput) (sink : Sink) (db : Db) where
  due-Clear :
      (j : Joined)
      → (is_due i sink (joined db) j ≡ true) × Found db.events j
      → Clear db (claimed_delivery i j)
  due-Clear j h = record {
    numbered =
        All-mono
          (λ k f same.
            let e =
              some-event k.event j.event
                (sym f ∙ ap (λ x. find (event_has_id x) db.events) same ∙ h.1) in
            (ap (λ x. x.conversation_id) e, ap (λ x. x.sequence) e))
          (joined db) (join-Found db.events db.deliveries);
    unblocked = older-blocks j (joined db) (let d = h.0 in ground arith);
  }

  claim-Clear : All (Clear db) (claim_deliveries i sink db).0
  unfolding claim_deliveries due_deliveries
  claim-Clear = All-map (Clear db) (claimed_delivery i) (due_deliveries i sink (joined db)) (
      All-mono due-Clear (due_deliveries i sink (joined db)) (
        due-All (Found db.events) created_first (is_due i sink (joined db)) batch_size (joined db)
          (join-Found db.events db.deliveries)))

-- An update that publishes nothing.
abbrev Same : (EventDelivery → EventDelivery) → Type 0
Same f = (d : EventDelivery) → ((f d).event_id ≡ d.event_id) × ((f d).published_at ≡ d.published_at)

unpublishing-Ordered :
    (p : EventDelivery → Bool) (f : EventDelivery → EventDelivery) (db : Db)
    (out : List ClaimedDelivery)
    → Same f
    → Ordered db out
    → Ordered (record db { deliveries = update p f db.deliveries }) out
unpublishing-Ordered p f db out same h =
    update-Ordered p f (λ d. ((same d).0, λ u. ap is_null (sym (same d).1) ∙ u)) db out
      (All-mono
        (λ j o _. elim o [ inl u ↦ inl (ap is_null (same j.delivery).1 ∙ u) | inr b ↦ inr b ])
        (joined db) h.in_order)
      h

publish-Ordered :
    (now : ℕ) (sink : Sink) (d : ClaimedDelivery) (db : Db) (out : List ClaimedDelivery)
    → Clear db d
    → Ordered db out
    → Ordered (acknowledge_delivery now sink d db) out
unfolding acknowledge_delivery
publish-Ordered now sink d db out clear h =
    update-Ordered (owned sink d) (publish_delivery now) (λ e. (refl, λ u. cc)) db out
      (All-mono
        (λ j numbered own. let n = numbered (ground arith) in inr (rw (n.0, n.1) clear.unblocked))
        (joined db) clear.numbered)
      h

Step-Ordered :
    (sink : Sink) (a b : Db) (x y : List ClaimedDelivery)
    → Step sink a x b y
    → Ordered a x
    → Ordered b y
unfolding claim_deliveries retry_delivery
Step-Ordered sink _ _ _ _ (claiming i db out) h =
    let all : Ordered db ((claim_deliveries i sink db).0 ++ out) = record {
      in_order = h.in_order;
      clear =
          All-append (Clear db) (claim_deliveries i sink db).0 out (claim-Clear i sink db) h.clear;
    } in
    unpublishing-Ordered
      (λ d.
        is_among event_id_of (due_deliveries i sink (joined db)) d.event_id
        && same_sink d.sink sink)
      (lease_delivery i) db ((claim_deliveries i sink db).0 ++ out) (λ d. (refl, refl)) all
Step-Ordered sink _ _ _ _ (acknowledging now n d db out e) h =
    publish-Ordered now sink d db out (get_elem?-All (Clear db) out n d e h.clear) h
Step-Ordered sink _ _ _ _ (retrying now n d code db out e) h =
    unpublishing-Ordered (owned sink d) (release_delivery now d.attempt_count code) db out
      (λ d. (refl, refl)) h

Steps-Ordered :
    (sink : Sink) (a b : Db) (x y : List ClaimedDelivery)
    → Steps sink a x b y
    → Ordered a x
    → Ordered b y
Steps-Ordered sink _ _ _ _ (stop db out) h = h
Steps-Ordered sink _ _ _ _ (go_on a b c x y z s t) h =
    Steps-Ordered sink b c y z t (Step-Ordered sink a b x y s h)

-- If at the start each published event has no unpublished older event of its conversation, then
-- after any steps of any number of workers, among them late acknowledgements and failures, this is
-- still so: the events of a conversation are published in the order of their sequence numbers.
-- Events are not recorded during the steps.
pub Steps-InOrder :
    (sink : Sink) (a b : Db) (out : List ClaimedDelivery)
    → InOrder a
    → Steps sink a [] b out
    → InOrder b
Steps-InOrder sink a b out h s =
    (Steps-Ordered sink a b [] out s (record { in_order = h; clear = tt })).in_order
