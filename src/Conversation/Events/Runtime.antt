-- ===== src/Conversation/Events/Runtime.antt =====
-- src/lib/conversation-event-runtime.ts: publishing the events of each conversation to a sink. The
-- sink is an argument.
pub mod Order
pub mod Steps
use resend_conversation_serv.Prelude.{
  ℕ, zero, suc, ◌+◌, ◌-◌, min, Bool, true, false, ◌&&◌, ◌||◌, not, Option, none, some, List, [],
  ◌∷◌, map, ◌==◌, ltb, leb, if◌then◌else◌, holds, null_or_past, is_null, key_le, get_elem?, update,
  find, any, due, is_among,
}
use resend_conversation_serv.Prelude.Text.{Text}
use resend_conversation_serv.Database.{Db, Sink, nats, ConversationEvent, EventDelivery, Payload}
use resend_conversation_serv.Outbox.Policy.{delay_at, short_code}
use resend_conversation_serv.Attachments.Reaper.{LeaseInput}
use resend_conversation_serv.Conversation.Events.{event_has_id}

abbrev pub lease_ms : ℕ
lease_ms = 30000

abbrev pub batch_size : ℕ
batch_size = 50

abbrev pub retry_delays_ms : List ℕ
retry_delays_ms = 1000 ∷ 5000 ∷ 30000 ∷ 120000 ∷ 300000 ∷ []

pub record ClaimedDelivery : Type 0 where
  pub id : ℕ
  pub conversation_id : ℕ
  pub sequence : ℕ
  pub payload : Option Payload
  pub lease_token : ℕ
  pub attempt_count : ℕ

-- A delivery joined with its event.
pub record Joined : Type 0 where
  pub delivery : EventDelivery
  pub event : ConversationEvent

abbrev pub same_sink : Sink → Sink → Bool
same_sink nats nats = true

abbrev pub add_joined : EventDelivery → Option ConversationEvent → List Joined → List Joined
add_joined d none rest = rest
add_joined d (some e) rest = record { delivery = d; event = e } ∷ rest

-- INNER JOIN conversation_events AS event ON event.id = delivery.event_id
unfoldable pub join : List ConversationEvent → List EventDelivery → List Joined
join events [] = []
join events (d ∷ ds) = add_joined d (find (event_has_id d.event_id) events) (join events ds)

-- An older event of the same conversation that this sink has not published.
abbrev pub is_older_unpublished : Joined → Joined → Bool
is_older_unpublished j older =
    same_sink older.delivery.sink j.delivery.sink
    && older.event.conversation_id == j.event.conversation_id
    && ltb older.event.sequence j.event.sequence
    && is_null older.delivery.published_at

abbrev pub is_due : LeaseInput → Sink → List Joined → Joined → Bool
is_due i sink rows j =
    same_sink j.delivery.sink sink
    && is_null j.delivery.published_at
    && leb j.delivery.next_attempt_at i.now
    && null_or_past j.delivery.lease_until i.now
    && not (any (is_older_unpublished j) rows)
    && not (i.locked j.event.id)

abbrev pub created_first : Joined → Joined → Bool
created_first a b = key_le (a.event.created_at, a.event.id) (b.event.created_at, b.event.id)

unfoldable pub due_deliveries : LeaseInput → Sink → List Joined → List Joined
unfolding due
due_deliveries i sink rows = due created_first (is_due i sink rows) batch_size rows

abbrev pub event_id_of : Joined → ℕ
event_id_of j = j.delivery.event_id

abbrev pub lease_delivery : LeaseInput → EventDelivery → EventDelivery
lease_delivery i d = record d {
  lease_token = some i.token;
  lease_until = some (i.now + lease_ms);
  attempt_count = suc d.attempt_count;
}

abbrev pub claimed_delivery : LeaseInput → Joined → ClaimedDelivery
claimed_delivery i j = record {
  id = j.delivery.event_id;
  conversation_id = j.event.conversation_id;
  sequence = j.event.sequence;
  payload = j.event.payload;
  lease_token = i.token;
  attempt_count = suc j.delivery.attempt_count;
}

unfoldable pub claim_deliveries : LeaseInput → Sink → Db → List ClaimedDelivery × Db
unfolding due_deliveries join
claim_deliveries i sink db =
    let rows = due_deliveries i sink (join db.events db.deliveries) in
    (
      map (claimed_delivery i) rows,
      record db {
        deliveries =
            update (λ d. is_among event_id_of rows d.event_id && same_sink d.sink sink)
              (lease_delivery i) db.deliveries;
      },
    )

abbrev pub owned : Sink → ClaimedDelivery → EventDelivery → Bool
owned sink claimed d =
    d.event_id == claimed.id && same_sink d.sink sink && holds d.lease_token claimed.lease_token

abbrev pub publish_delivery : ℕ → EventDelivery → EventDelivery
publish_delivery now d = record d {
  published_at = some now;
  lease_token = none;
  lease_until = none;
  last_error_code = none;
}

unfoldable pub acknowledge_delivery : ℕ → Sink → ClaimedDelivery → Db → Db
acknowledge_delivery now sink claimed db = record db {
  deliveries = update (owned sink claimed) (publish_delivery now) db.deliveries;
}

-- RETRY_DELAYS_MS[Math.min(attemptCount - 1, RETRY_DELAYS_MS.length - 1)]. At 0 the index is -1, where
-- the source reads undefined; a claim counts its attempt first, so that this is never asked.
unfoldable pub retry_delay : ℕ → ℕ
retry_delay zero = delay_at none
retry_delay (suc n) = delay_at (get_elem? retry_delays_ms (min n 4))

abbrev pub release_delivery : ℕ → ℕ → Text → EventDelivery → EventDelivery
release_delivery now attempt_count error_code d = record d {
  next_attempt_at = now + retry_delay attempt_count;
  lease_token = none;
  lease_until = none;
  last_error_code = some (short_code error_code);
}

-- The code is the error's name, or `publish_error` where the thrown value is no Error.
unfoldable pub retry_delivery : ℕ → Sink → ClaimedDelivery → Text → Db → Db
unfolding retry_delay
retry_delivery now sink claimed error_code db = record db {
  deliveries =
      update (owned sink claimed) (release_delivery now claimed.attempt_count error_code)
        db.deliveries;
}

-- What publishing does: it succeeds, or throws.
pub data Publication : Type 0 where
  published : Publication
  refused : Text → Publication

abbrev pub settle_delivery : ℕ → Sink → ClaimedDelivery → Publication → Bool × Db → Bool × Db
settle_delivery now sink claimed published (healthy, db) =
    (healthy, acknowledge_delivery now sink claimed db)
settle_delivery now sink claimed (refused code) (healthy, db) =
    (false, retry_delivery now sink claimed code db)

-- for (const delivery of deliveries); `now` is the time of the settlements.
unfoldable pub settle_all :
    (ClaimedDelivery → Publication) → ℕ → Sink → List ClaimedDelivery → Bool × Db → Bool × Db
unfolding acknowledge_delivery retry_delivery
settle_all publish now sink [] s = s
settle_all publish now sink (d ∷ ds) s =
    settle_all publish now sink ds (settle_delivery now sink d (publish d) s)

-- One cycle for one sink, in which the database does not fail: whether it was healthy.
unfoldable pub drain_sink :
    (ClaimedDelivery → Publication) → LeaseInput → ℕ → Sink → Bool × Db → Bool × Db
unfolding claim_deliveries settle_all
drain_sink publish i now sink (healthy, db) =
    let (claimed, db') = claim_deliveries i sink db in
    settle_all publish now sink claimed (healthy, db')
