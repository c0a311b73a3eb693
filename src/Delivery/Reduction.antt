-- ===== src/Delivery/Reduction.antt =====
-- The delivery state that a list of webhooks amounts to, described without the loop.
use resend_conversation_serv.Prelude.{
  ℕ, ◌≤◌, ◌≡◌, ◌⊎◌, inl, inr, All-mono, Bool-cases, refl, Bool, true, false, ◌&&◌, not, Option,
  none, some, List, [], ◌∷◌, ◌∙◌, arith, ◌==◌, if◌then◌else◌, All, any,
}
use resend_conversation_serv.Database.{EmailEvent, DeliveryState, delivered}
use resend_conversation_serv.Delivery.{
  delivery_state_of, is_delivered, is_delayed, Current, Reduced, current_of, reduce_event,
  reduce_from, reduce_delivery_events, earlier_date,
}

abbrev pub or_else : Option Current → Option Current → Option Current
or_else none d = d
or_else (some c) d = some c

abbrev own : (DeliveryState → Bool) → Option DeliveryState → EmailEvent → Option Current
own p none event = none
own p (some state) event = if p state then some (current_of state event) else none

-- The last event whose delivery state satisfies `p`.
abbrev pub latest : (DeliveryState → Bool) → List EmailEvent → Option Current
latest p [] = none
latest p (event ∷ events) =
    or_else (latest p events) (own p (delivery_state_of event.event_type) event)

abbrev pub is_decisive : DeliveryState → Bool
is_decisive state = not (is_delayed state)

-- What an accumulated state contributes when no decisive event follows.
abbrev held : Option Current → Option Current → Option Current
held none later = later
held (some c) later = if is_decisive c.state then some c else or_else later (some c)

reduce-step :
    (o : Option DeliveryState) (event : EmailEvent) (r : Reduced)
    (decisive delayed : Option Current)
    → or_else decisive (held (reduce_event o event r).current delayed)
      ≡ or_else
          (or_else decisive (own is_decisive o event))
          (held r.current (or_else delayed (own is_delayed o event)))
reduce-step none event r decisive delayed = ground arith
reduce-step (some state) event r decisive delayed = ground arith

reduce-from :
    (events : List EmailEvent) (r : Reduced)
    → (reduce_from r events).current
      ≡ or_else (latest is_decisive events) (held r.current (latest is_delayed events))
reduce-from [] r = ground arith
reduce-from (event ∷ events) r =
    reduce-from events (reduce_event (delivery_state_of event.event_type) event r)
    ∙ reduce-step (delivery_state_of event.event_type) event r (latest is_decisive events)
        (latest is_delayed events)

-- The current state is that of the last event that is not a delay, and only where there is no such
-- event that of the last delay.
pub reduce-latest :
    (events : List EmailEvent)
    → (reduce_delivery_events events).current
      ≡ or_else (latest is_decisive events) (latest is_delayed events)
unfolding reduce_delivery_events
reduce-latest events = reduce-from events (record { current = none; delivered_at = none })

abbrev pub IsDelivery : EmailEvent → Type 0
IsDelivery event = delivery_state_of event.event_type ≡ some delivered

abbrev was_delivered : Option DeliveryState → Bool
was_delivered none = false
was_delivered (some state) = is_delivered state

-- Some event of the list is a delivery at time `t`.
abbrev pub DeliveredAt : ℕ → List EmailEvent → Type 0
DeliveredAt t events =
    any (λ event. was_delivered (delivery_state_of event.event_type) && event.event_created_at == t)
      events
    ≡ true

-- `o` is the earliest of the deliveries and of the time `before`.
record IsEarliest (before : Option ℕ) (events : List EmailEvent) (o : Option ℕ) : Type 0 where
  pub absent : o ≡ none → (before ≡ none) × All (λ event. ¬ IsDelivery event) events
  pub below :
      (t : ℕ) → o ≡ some t → All (λ event. IsDelivery event → t ≤ event.event_created_at) events
  pub below_before : (t s : ℕ) → o ≡ some t → before ≡ some s → t ≤ s
  pub attained : (t : ℕ) → o ≡ some t → (before ≡ some t) ⊎ DeliveredAt t events

earlier_right : (o : Option ℕ) {t u : ℕ} → t ≤ earlier_date o u → t ≤ u
earlier_right none k = k
earlier_right (some s) k = ground arith

earlier_left : (o : Option ℕ) (u : ℕ) {s t : ℕ} → o ≡ some s → t ≤ earlier_date o u → t ≤ s
earlier_left none u l k = cc
earlier_left (some v) u l k = ground arith

IsEarliest-step :
    (o : Option DeliveryState) (event : EmailEvent) (events : List EmailEvent) (r : Reduced)
    (x : Option ℕ)
    → delivery_state_of event.event_type ≡ o
    → IsEarliest (reduce_event o event r).delivered_at events x
    → IsEarliest r.delivered_at (event ∷ events) x
IsEarliest-step (some delivered) event events r x e h = record {
  absent = λ n. let (b, none_of) = h.absent n in cc b;
  below = λ t k. (λ d. earlier_right r.delivered_at (h.below_before t _ k refl), h.below t k);
  below_before =
      λ t s k l. earlier_left r.delivered_at event.event_created_at l (h.below_before t _ k refl);
  attained = λ t k. ground (arith, h.attained t k);
}
IsEarliest-step none event events r x e h = record {
  absent = λ n. let (b, none_of) = h.absent n in (b, ((λ d. ground arith), none_of));
  below = λ t k. ((λ d. ground arith), h.below t k);
  below_before = h.below_before;
  attained = λ t k. ground (arith, h.attained t k);
}
IsEarliest-step (some state) event events r x e h = record {
  absent = λ n. let (b, none_of) = h.absent n in (b, ((λ d. ground arith), none_of));
  below = λ t k. ((λ d. ground arith), h.below t k);
  below_before = h.below_before;
  attained = λ t k. ground (arith, h.attained t k);
}

reduce-from-IsEarliest :
    (events : List EmailEvent) (r : Reduced)
    → IsEarliest r.delivered_at events (reduce_from r events).delivered_at
reduce-from-IsEarliest [] r = record {
  absent = λ n. (n, tt);
  below = λ t k. tt;
  below_before = λ t s k l. ground arith;
  attained = λ t k. inl k;
}
reduce-from-IsEarliest (event ∷ events) r =
    IsEarliest-step (delivery_state_of event.event_type) event events r _ refl
      (reduce-from-IsEarliest events (reduce_event (delivery_state_of event.event_type) event r))

-- Where `deliveredAt` is absent no webhook of the list reports a delivery.
pub reduce-not-IsDelivery :
    (events : List EmailEvent)
    → (reduce_delivery_events events).delivered_at ≡ none
    → All (λ event. ¬ IsDelivery event) events
unfolding reduce_delivery_events
reduce-not-IsDelivery events n =
    ((reduce-from-IsEarliest events (record { current = none; delivered_at = none })).absent n).1

was_delivered-lem : (o : Option DeliveryState) → was_delivered o ≡ true → o ≡ some delivered
was_delivered-lem (some delivered) h = refl
was_delivered-lem (some state) h = absurd (ground arith)
was_delivered-lem none h = cc

-- Where `deliveredAt` is a time, some webhook reports a delivery at that time, and each webhook
-- reports no delivery or one that is not earlier.
pub reduce-delivered_at :
    (events : List EmailEvent) (t : ℕ)
    → (reduce_delivery_events events).delivered_at ≡ some t
    → All (λ event. (¬ IsDelivery event) ⊎ (t ≤ event.event_created_at)) events
      × DeliveredAt t events
unfolding reduce_delivery_events
reduce-delivered_at events t k =
    let h = reduce-from-IsEarliest events (record { current = none; delivered_at = none }) in
    (
      All-mono
          (λ event below. elim (Bool-cases (was_delivered (delivery_state_of event.event_type))) [
            | inl e ↦ inr (below (was_delivered-lem (delivery_state_of event.event_type) e))
            | inr e ↦ inl (λ d. ground arith)
          ])
          events (h.below t k),
      ground (arith, h.attained t k),
    )
