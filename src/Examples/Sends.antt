-- ===== src/Examples/Sends.antt =====
-- The theorems on the outboxes, at concrete tables.
use resend_conversation_serv.Prelude.{
  ◌≡◌, ◌≢◌, ◌≤◌, refl, some, [], ◌∷◌, arith, All₂, done, length, order_by, true, transaction,
}
use resend_conversation_serv.Prelude.Text.{Text, codes}
use resend_conversation_serv.Database.{Db, Fault, nats}
use resend_conversation_serv.Attachments.Claim.{
  Storage, build_send_attachments, prepare_all, list_message_attachments,
}
use resend_conversation_serv.Delivery.{
  project_outbound_delivery_state, reduce_delivery_events, delivery_events,
}
use resend_conversation_serv.Outbox.Policy.{has_provider_window_expired}
use resend_conversation_serv.Outbox.Batches.{
  claim_outbox_batch, lease_tables, retryable_batch, batch_entries, queued_entries,
}
use resend_conversation_serv.Outbox.Batches.Settle.{
  DrainResult as BatchResult, DrainEntry, DrainState, schedule_batch_retry, retry_result,
}
use resend_conversation_serv.Outbox.Batches.Drain.{
  response, Provider, settle_batch, drain_email_outbox, is_given_up, valid_ids,
}
use resend_conversation_serv.Outbox.Batches.Absorbed.{settle-error_absorbed}
use resend_conversation_serv.Outbox.Policy.{other_value}
use resend_conversation_serv.Outbox.Batches.Drain.{refused}
use resend_conversation_serv.Outbox.Batches.Settle.{owned}
use resend_conversation_serv.Prelude.{count}
use resend_conversation_serv.Outbox.Batches.Lease.{settle-lease_lost}
use resend_conversation_serv.Outbox.Batches.Progress.{Progress, Advances-refl, drain-Advances}
use resend_conversation_serv.Outbox.Batches.Exclusive.{Fresh, claim-exclusive}
use resend_conversation_serv.Outbox.Batches.Accounting.{
  Accounted, settle-Accounted, settle-window_passed,
}
use resend_conversation_serv.Outbox.Attachments.{
  SingleProvider, sent, deliver_entry, claim_entry, due_entries, is_given_up as is_expired, accept,
  delete_owned_entry,
}
use resend_conversation_serv.Outbox.Attachments.Turns.{drain_turns-Advances}
use resend_conversation_serv.Outbox.Scheduler.{Round, Services, run_scheduled_drain}
use resend_conversation_serv.Outbox.Scheduler.Rounds.{Ends, run_scheduled_drain-Ends}
use resend_conversation_serv.Outbox.Attachments.Lease.{deliver-lease_lost}
use resend_conversation_serv.Outbox.Attachments.Drain.{
  Turn, DrainResult, drain_attachment_outbox, drain_turns, deliver_turn, add_outcome,
}
use resend_conversation_serv.Outbox.Attachments.Accounting.{
  Accounted as AllAccounted, drain-Accounted,
}
use resend_conversation_serv.Examples.Data.{
  outbox_db, claim_at, lease_at, claimed_batch, clock, claimed_entry, taken_over, batch, message,
}

abbrev accepting : Provider
accepting id messages = response (some "email" ∷ [])

abbrev silent : Provider
silent id messages = response []

drain-Advances_example :
    All₂ Progress outbox_db.messages
      (drain_email_outbox
        (nats ∷ [])
        accepting
        (claim_at 7 1000)
        (clock 1100)
        (λ db. db)
        outbox_db).1.messages
drain-Advances_example =
    drain-Advances (nats ∷ []) accepting (claim_at 7 1000) (clock 1100) (λ db. db)
      (λ db. Advances-refl db) outbox_db

Fresh-outbox : Fresh outbox_db
Fresh-outbox = record {
  unused = λ n h. ((λ e. omega arith), ((λ e. omega arith), tt));
  injective = λ m n e. omega arith;
}

first_claim :
    (claim_outbox_batch (claim_at 7 1000) outbox_db).0 ≡ done (some (claimed_batch 10 7 1))
unfolding claim_outbox_batch lease_tables retryable_batch batch_entries order_by queued_entries
first_claim = refl

second_claim :
    (claim_outbox_batch (claim_at 8 2000) (claim_outbox_batch (claim_at 7 1000) outbox_db).1).0
    ≡ done (some (claimed_batch 11 8 2))
unfolding claim_outbox_batch lease_tables retryable_batch batch_entries order_by queued_entries
second_claim = refl

claim-exclusive_example : (claimed_batch 10 7 1).id ≢ (claimed_batch 11 8 2).id
claim-exclusive_example =
    claim-exclusive (claim_at 7 1000) (claim_at 8 2000) outbox_db (claimed_batch 10 7 1)
      (claimed_batch 11 8 2) Fresh-outbox (omega arith) first_claim second_claim

settle-lease_lost_example :
    ((settle_batch (nats ∷ []) accepting (clock 1100) (claimed_batch 10 7 1) outbox_db).1
      ≡ outbox_db)
    × ((r : BatchResult)
        → (settle_batch (nats ∷ []) accepting (clock 1100) (claimed_batch 10 7 1) outbox_db).0
          ≢ done r)
settle-lease_lost_example =
    settle-lease_lost (nats ∷ []) accepting (clock 1100) (claimed_batch 10 7 1) outbox_db refl

abbrev leased_db : Db
leased_db = record outbox_db {
  batches = record (batch 10) { lease_token = some 7 } ∷ batch 11 ∷ [];
}

retried :
    (settle_batch (nats ∷ []) silent (clock 1100) (claimed_batch 10 7 1) leased_db).0
    ≡ done (retry_result (claimed_batch 10 7 1))
unfolding settle_batch is_given_up valid_ids schedule_batch_retry has_provider_window_expired
retried = refl

settle-Accounted_example : Accounted (message 1 ∷ []) (retry_result (claimed_batch 10 7 1))
settle-Accounted_example =
    settle-Accounted (nats ∷ []) silent (clock 1100) (claimed_batch 10 7 1) leased_db
      (retry_result (claimed_batch 10 7 1)) retried

settle-window_passed_example :
    settle_batch (nats ∷ []) accepting (clock 82800400) (claimed_batch 10 7 1) leased_db
    ≡ settle_batch (nats ∷ []) silent (clock 82800400) (claimed_batch 10 7 1) leased_db
settle-window_passed_example =
    settle-window_passed (nats ∷ []) accepting silent (clock 82800400) (claimed_batch 10 7 1)
      leased_db (omega arith) (omega arith)

abbrev single : SingleProvider
single m attachments id = sent (some "email")

abbrev name : Fault → Text
name f = codes "Error"

abbrev storage : Storage
storage = record { get_buffer = λ key. done (codes "bytes"); base64 = λ t. t }

abbrev taken_db : Db
taken_db = record outbox_db { attachment_entries = taken_over ∷ [] }

deliver-lease_lost_example :
    ((deliver_entry (nats ∷ []) name single (done []) (clock 1100) claimed_entry taken_db).1
      ≡ taken_db)
    × ((r : DrainEntry)
        → (deliver_entry (nats ∷ []) name single (done []) (clock 1100) claimed_entry taken_db).0
          ≢ done r)
deliver-lease_lost_example =
    deliver-lease_lost (nats ∷ []) name single (done []) (clock 1100) claimed_entry taken_db refl

-- The lease of the entry has run out, so the turn takes it.
abbrev turn : Turn
turn = record { claim = lease_at 9 300000; at = clock 300100; meanwhile = λ db. db }

abbrev one_sent : DrainResult
one_sent = record {
  claimed = 1;
  accepted = 1;
  failed = 0;
  retry_scheduled = 0;
  indeterminate = 0;
  results =
      record { message_id = 1; state = DrainState.accepted; resend_email_id = some "email" } ∷ [];
}

sends_one :
    (drain_attachment_outbox (nats ∷ []) name single true storage (turn ∷ []) taken_db).0
    ≡ done one_sent
unfolding drain_attachment_outbox drain_turns claim_entry due_entries order_by transaction
    deliver_turn build_send_attachments prepare_all list_message_attachments deliver_entry
    is_expired accept delete_owned_entry project_outbound_delivery_state reduce_delivery_events
    delivery_events add_outcome has_provider_window_expired
sends_one = refl

drain-Accounted_example : AllAccounted one_sent × (one_sent.claimed ≤ length (turn ∷ []))
drain-Accounted_example =
    drain-Accounted (nats ∷ []) name single true storage (turn ∷ []) taken_db one_sent sends_one

drain_turns-Advances_example :
    All₂ Progress taken_db.messages
      (drain_attachment_outbox (nats ∷ []) name single true storage (turn ∷ []) taken_db).1.messages
drain_turns-Advances_example =
    drain_turns-Advances (nats ∷ []) name single true storage (turn ∷ [])
      ((λ db. Advances-refl db), tt) taken_db

abbrev services : Services
services = record {
  sinks = nats ∷ [];
  name = name;
  batch_provider = accepting;
  single_provider = single;
  enabled = true;
  storage = storage;
}

abbrev round : Round
round = record { claim = claim_at 7 1000; at = clock 1100; meanwhile = λ db. db; turns = turn ∷ [] }

run_scheduled_drain-Ends_example :
    Ends services
      (round ∷ round ∷ [])
      taken_db
      (run_scheduled_drain services (round ∷ round ∷ []) taken_db)
run_scheduled_drain-Ends_example = run_scheduled_drain-Ends services (round ∷ round ∷ []) taken_db

settle-error_absorbed_example :
    ((r : BatchResult) × ((settle_batch
          (nats ∷ [])
          (λ id messages. refused other_value)
          (clock 1100)
          (claimed_batch 10 7 1)
          leased_db).0
        ≡ done r))
    × (count
          (owned (claimed_batch 10 7 1))
          (settle_batch
            (nats ∷ [])
            (λ id messages. refused other_value)
            (clock 1100)
            (claimed_batch 10 7 1)
            leased_db).1.batches
        ≡ 0)
settle-error_absorbed_example =
    settle-error_absorbed (nats ∷ []) other_value (clock 1100) (claimed_batch 10 7 1) leased_db refl
