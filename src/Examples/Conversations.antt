-- ===== src/Examples/Conversations.antt =====
-- The theorems on conversations, events and delivery reports, at concrete tables.
use resend_conversation_serv.Prelude.{
  ◌≡◌, ◌≤◌, ◌⊎◌, ◌↔◌, refl, inl, none, some, List, [], ◌∷◌, ◌++◌, arith, All, All₂, get_elem?,
  order_by,
}
use resend_conversation_serv.Prelude.Text.{codes, to_upper, to_lower, trim}
use resend_conversation_serv.Database.{
  Db, awaiting_us, terminated, concluded, nats, system, message_received,
}
use resend_conversation_serv.Conversation.State.{
  StateRow, merge_conversation_state, parse_conversation_state, serialize_conversation_state,
  state_name, mark_awaiting_us, mark_terminated,
}
use resend_conversation_serv.Conversation.State.Transitions.{
  to_us, to_terminated, mark, marks, Turn, terminated_for_good, mark-Turn,
}
use resend_conversation_serv.Conversation.State.Merge.{
  Among, IsWinner, merge-IsWinner, merge_order_irrelevant,
}
use resend_conversation_serv.Conversation.State.Names.{parse_iff, parse-serialize_iff}
use resend_conversation_serv.Conversation.Events.{EventInput, append_conversation_event}
use resend_conversation_serv.Conversation.Events.Numbering.{Numbered, append-Numbered}
use resend_conversation_serv.Conversation.Events.Runtime.{
  ClaimedDelivery, join, claim_deliveries, due_deliveries, acknowledge_delivery,
}
use resend_conversation_serv.Conversation.Events.Runtime.Order.{InOrder}
use resend_conversation_serv.Conversation.Events.Runtime.Steps.{
  Steps, stop, go_on, claiming, acknowledging, Steps-InOrder,
}
use resend_conversation_serv.Delivery.{reduce_delivery_events, project_outbound_delivery_state}
use resend_conversation_serv.Delivery.Reduction.{
  or_else, latest, is_decisive, IsDelivery, DeliveredAt, reduce-latest, reduce-delivered_at,
}
use resend_conversation_serv.Delivery.Projection.{SameQueues, project-SameQueues}
use resend_conversation_serv.Delivery.{is_delayed, delivery_state_of}
use resend_conversation_serv.Examples.Data.{conversation_db, conversation, webhooks, lease_at}

terminated_row :
    (marks (to_us 1 80 ∷ []) (mark (to_terminated 1 70) conversation_db)).conversations
    ≡ record conversation { state = terminated; state_changed_at = 70 } ∷ []
unfolding marks mark mark_terminated mark_awaiting_us
terminated_row = refl

found_row :
    get_elem? (marks (to_us 1 80 ∷ []) (mark (to_terminated 1 70) conversation_db)).conversations 0
    ≡ some (record conversation { state = terminated; state_changed_at = 70 })
found_row = rw terminated_row refl

terminated_for_good_example :
    (record conversation { state = terminated; state_changed_at = 70 }).state ≡ terminated
terminated_for_good_example =
    terminated_for_good 1 70 (to_us 1 80 ∷ []) conversation_db 0
      (record conversation { state = terminated; state_changed_at = 70 }) found_row refl

mark-Turn_example :
    All₂
      (Turn (to_us 1 80))
      conversation_db.conversations
      (mark (to_us 1 80) conversation_db).conversations
mark-Turn_example = mark-Turn (to_us 1 80) conversation_db

abbrev early : StateRow
early = record { state = awaiting_us; state_changed_at = 3 }

abbrev late : StateRow
late = record { state = awaiting_us; state_changed_at = 9 }

merged : merge_conversation_state (late ∷ early ∷ []) ≡ some early
unfolding merge_conversation_state
merged = refl

merge-IsWinner_example : IsWinner (late ∷ early ∷ []) early
merge-IsWinner_example = merge-IsWinner (late ∷ early ∷ []) early merged

swapped : (w : StateRow) → Among w (late ∷ early ∷ []) ↔ Among w (early ∷ late ∷ [])
swapped w = ground arith

merge_order_irrelevant_example :
    merge_conversation_state (late ∷ early ∷ []) ≡ merge_conversation_state (early ∷ late ∷ [])
merge_order_irrelevant_example =
    merge_order_irrelevant (late ∷ early ∷ []) (early ∷ late ∷ []) swapped

parse_iff_example :
    (parse_conversation_state (some (codes " concluded ")) ≡ some concluded)
    ↔ (to_upper (trim (codes " concluded ")) ≡ state_name concluded)
parse_iff_example = parse_iff (codes " concluded ") concluded

parse-serialize_iff_example :
    (parse_conversation_state (some (codes " Concluded ")) ≡ some concluded)
    ↔ (to_lower (trim (codes " Concluded ")) ≡ serialize_conversation_state concluded)
unfolding trim
parse-serialize_iff_example = parse-serialize_iff (codes " Concluded ") concluded (omega arith)

Numbered-db : Numbered conversation_db
Numbered-db = record {
  one_row = (tt, tt);
  counted = (((λ _. omega arith), tt), (((λ _. omega arith), tt), tt));
  distinct = (((λ s. let e = s.1 in absurd (omega arith)), tt), (tt, tt));
}

abbrev input : EventInput
input = record {
  conversation_id = 1;
  type = message_received;
  occurred_at = 90;
  actor = system;
  cause = "test";
  message_id = some 1;
  state = none;
  delivery_state = none;
  merged_into_conversation_id = none;
  attachment_count = none;
}

append-Numbered_example : Numbered (append_conversation_event (nats ∷ []) input conversation_db).1
append-Numbered_example = append-Numbered (nats ∷ []) input conversation_db Numbered-db

InOrder-db : InOrder conversation_db
unfolding join
InOrder-db = (inl refl, (inl refl, tt))

abbrev first_delivery : ClaimedDelivery
first_delivery = record {
  id = 20;
  conversation_id = 1;
  sequence = 1;
  payload = none;
  lease_token = 7;
  attempt_count = 1;
}

only_first : (claim_deliveries (lease_at 7 1000) nats conversation_db).0 ≡ first_delivery ∷ []
unfolding claim_deliveries due_deliveries join order_by
only_first = refl

abbrev claimed_db : Db
claimed_db = (claim_deliveries (lease_at 7 1000) nats conversation_db).1

abbrev out : List ClaimedDelivery
out = (claim_deliveries (lease_at 7 1000) nats conversation_db).0 ++ []

two-Steps :
    Steps nats conversation_db [] (acknowledge_delivery 1100 nats first_delivery claimed_db) out
two-Steps =
    go_on conversation_db claimed_db (acknowledge_delivery 1100 nats first_delivery claimed_db) []
      out out (claiming (lease_at 7 1000) conversation_db [])
      (go_on claimed_db (acknowledge_delivery 1100 nats first_delivery claimed_db)
        (acknowledge_delivery 1100 nats first_delivery claimed_db) out out out
        (acknowledging 1100 0 first_delivery claimed_db out (rw only_first refl))
        (stop (acknowledge_delivery 1100 nats first_delivery claimed_db) out))

Steps-InOrder_example : InOrder (acknowledge_delivery 1100 nats first_delivery claimed_db)
Steps-InOrder_example =
    Steps-InOrder nats conversation_db (acknowledge_delivery 1100 nats first_delivery claimed_db)
      out InOrder-db two-Steps

reduce-latest_example :
    (reduce_delivery_events webhooks).current
    ≡ or_else (latest is_decisive webhooks) (latest is_delayed webhooks)
reduce-latest_example = reduce-latest webhooks

delivered_once : (reduce_delivery_events webhooks).delivered_at ≡ some 70
unfolding reduce_delivery_events delivery_state_of
delivered_once = refl

reduce-delivered_at_example :
    All (λ event. (¬ IsDelivery event) ⊎ (70 ≤ event.event_created_at)) webhooks
    × DeliveredAt 70 webhooks
reduce-delivered_at_example = reduce-delivered_at webhooks 70 delivered_once

project-SameQueues_example :
    SameQueues conversation_db
      (project_outbound_delivery_state (nats ∷ []) "email" conversation_db).1
project-SameQueues_example = project-SameQueues (nats ∷ []) "email" conversation_db
