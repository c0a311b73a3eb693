-- ===== src/Outbox/Batches/Accounting.antt =====
-- What a drain reports, and what it does where the provider's window has passed.
use resend_conversation_serv.Prelude.{
  ℕ, ◌+◌, String, ◌≤◌, ◌<◌, ◌≡◌, refl, ap, subst, sym, true, List, [], ◌∷◌, map, arith, Action,
  done, length, transaction, bind_pure-done,
}
use resend_conversation_serv.Prelude.Text.{Text}
use resend_conversation_serv.Database.{Db, Message, MessageState, Sink, Fault}
use resend_conversation_serv.Outbox.Policy.{has_provider_window_expired}
use resend_conversation_serv.Outbox.Batches.{ClaimedBatch}
use resend_conversation_serv.Outbox.Batches.Settle.{
  DrainState, DrainResult, Readings, acceptance, closure, accepted_result, terminal_drain_result,
  retry_result, drain_entries, entry_with, failed_detail, finalize_accepted_batch,
  finalize_failed_batch, finalize_indeterminate_batch, release_owned,
}
use resend_conversation_serv.Outbox.Batches.Drain.{Provider, settle_batch, is_given_up}
use resend_conversation_serv.Outbox.Batches.Endings.{Endings, settle_ends}

-- The counters of a result add up to the batch's messages, and each message has one entry.
pub record Accounted (messages : List Message) (r : DrainResult) : Type 0 where
  pub claimed : r.claimed ≡ length messages
  pub counters : r.accepted + r.failed + r.retry_scheduled + r.indeterminate ≡ r.claimed
  pub ids : map (λ e. e.message_id) r.results ≡ map (λ m. m.id) messages

entries-ids :
    (messages : List Message) (ids : List String)
    → map (λ e. e.message_id) (drain_entries messages ids) ≡ map (λ m. m.id) messages
entries-ids [] ids = refl
entries-ids (m ∷ ms) [] = ap (◌∷◌ m.id) (entries-ids ms [])
entries-ids (m ∷ ms) (r ∷ rs) = ap (◌∷◌ m.id) (entries-ids ms rs)

with-ids :
    (state : DrainState) (messages : List Message)
    → map (λ e. e.message_id) (map (entry_with state) messages) ≡ map (λ m. m.id) messages
with-ids state [] = refl
with-ids state (m ∷ ms) = ap (◌∷◌ m.id) (with-ids state ms)

abbrev Reports : List Message → Db → Action Db Fault DrainResult → Type 0
Reports messages db m = (r : DrainResult) → (m db).0 ≡ done r → Accounted messages r

module _ (batch : ClaimedBatch) (db : Db) where
  report : (r s : DrainResult) → Accounted batch.messages s → r ≡ s → Accounted batch.messages r
  report r s h e = subst (Accounted batch.messages) (sym e) h

  accepted-Reports :
      (sinks : List Sink) (ids : List String)
      → Reports batch.messages db (finalize_accepted_batch sinks batch ids)
  unfolding finalize_accepted_batch
  accepted-Reports sinks ids r h =
      report r (accepted_result batch ids)
        (record { claimed = refl; counters = omega arith; ids = entries-ids batch.messages ids })
        (bind_pure-done (transaction (acceptance sinks batch ids)) _ r db h)

  failed-Reports : (code : Text) → Reports batch.messages db (finalize_failed_batch batch code)
  unfolding finalize_failed_batch
  failed-Reports code r h =
      report r (terminal_drain_result batch DrainState.failed)
        (record { claimed = refl; counters = omega arith; ids = with-ids _ batch.messages })
        (bind_pure-done (transaction (closure batch MessageState.failed (failed_detail code))) _ r
          db h)

  indeterminate-Reports :
      (detail : Text) → Reports batch.messages db (finalize_indeterminate_batch batch detail)
  unfolding finalize_indeterminate_batch
  indeterminate-Reports detail r h =
      report r (terminal_drain_result batch DrainState.indeterminate)
        (record { claimed = refl; counters = omega arith; ids = with-ids _ batch.messages })
        (bind_pure-done (transaction (closure batch MessageState.indeterminate detail)) _ r db h)

  released-Reports :
      (now : ℕ) (code : Text) → Reports batch.messages db (release_owned batch now code)
  released-Reports now code r h =
      report r (retry_result batch)
        (record { claimed = refl; counters = omega arith; ids = with-ids _ batch.messages })
        (ground arith)

  endings : (sinks : List Sink) → Endings (Reports batch.messages db) sinks batch
  endings sinks = record {
    accepting = accepted-Reports sinks;
    failing = failed-Reports;
    giving_up = indeterminate-Reports;
    releasing = released-Reports;
  }

-- If settling a batch returns a result, its counters of accepted, failed, rescheduled and
-- indeterminate messages add up to the number of claimed ones, which is the number of the batch's
-- messages, and its entries name the batch's messages in their order.
pub settle-Accounted :
    (sinks : List Sink) (provider : Provider) (at : Readings) (batch : ClaimedBatch) (db : Db)
    (r : DrainResult)
    → (settle_batch sinks provider at batch db).0 ≡ done r
    → Accounted batch.messages r
settle-Accounted sinks provider at batch db =
    settle_ends (Reports batch.messages db) sinks batch (endings batch db sinks) at provider

-- A batch that was sent before and whose first attempt is 23 hours old or older is settled without
-- calling the provider: any two providers give the same outcome and the same database.
pub settle-window_passed :
    (sinks : List Sink) (p q : Provider) (at : Readings) (batch : ClaimedBatch) (db : Db)
    → 1 < batch.attempt_count
    → batch.first_attempt_at + 82800000 ≤ at.checked_at
    → settle_batch sinks p at batch db ≡ settle_batch sinks q at batch db
unfolding settle_batch is_given_up has_provider_window_expired
settle-window_passed sinks p q at batch db h k =
    let given_up : is_given_up batch at ≡ true = ground arith in rw given_up refl
