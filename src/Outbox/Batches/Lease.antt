-- ===== src/Outbox/Batches/Lease.antt =====
-- Workers of the batch lane that have lost their lease.
use resend_conversation_serv.Prelude.{
  ℕ, String, ◌≡◌, ◌≢◌, refl, none, List, Action, Outcome, done, threw, transaction, find,
  update-none, count-find,
}
use resend_conversation_serv.Prelude.Text.{Text}
use resend_conversation_serv.Database.{Db, Sink, Fault, lease_lost_before_completion}
use resend_conversation_serv.Outbox.Batches.{ClaimedBatch}
use resend_conversation_serv.Outbox.Batches.Settle.{
  DrainResult, Readings, owned, assert_lease_owner, finalize_accepted_batch, finalize_failed_batch,
  finalize_indeterminate_batch, release_owned,
}
use resend_conversation_serv.Outbox.Batches.Drain.{Provider, settle_batch}
use resend_conversation_serv.Outbox.Batches.Endings.{Endings, settle_ends}

-- The action throws and leaves the database as it was.
abbrev Refused : Db → Outcome Fault DrainResult × Db → Type 0
Refused db r = (r.1 ≡ db) × ((x : DrainResult) → r.0 ≢ done x)

module _ (batch : ClaimedBatch) (db : Db) (lost : find (owned batch) db.batches ≡ none) where
  assert-lost : assert_lease_owner batch db ≡ (threw lease_lost_before_completion, db)
  unfolding assert_lease_owner
  assert-lost = rw lost

  accepted-Refused :
      (sinks : List Sink) (ids : List String)
      → Refused db (finalize_accepted_batch sinks batch ids db)
  unfolding finalize_accepted_batch transaction
  accepted-Refused sinks ids = rw lost (refl, λ x e. cc)

  failed-Refused : (code : Text) → Refused db (finalize_failed_batch batch code db)
  unfolding finalize_failed_batch transaction
  failed-Refused code = rw lost (refl, λ x e. cc)

  indeterminate-Refused :
      (detail : Text) → Refused db (finalize_indeterminate_batch batch detail db)
  unfolding finalize_indeterminate_batch transaction
  indeterminate-Refused detail = rw lost (refl, λ x e. cc)

  release-Refused : (now : ℕ) (code : Text) → Refused db (release_owned batch now code db)
  release-Refused now code =
      rw
        (
          count-find (owned batch) db.batches lost,
          update-none (owned batch) _ db.batches (count-find (owned batch) db.batches lost),
        )
        (refl, λ x e. cc)

  abbrev Refuses : Action Db Fault DrainResult → Type 0
  Refuses m = Refused db (m db)

  endings : (sinks : List Sink) → Endings Refuses sinks batch
  endings sinks = record {
    accepting = accepted-Refused sinks;
    failing = failed-Refused;
    giving_up = indeterminate-Refused;
    releasing = release-Refused;
  }

-- If the batch's row is gone, or holds another lease token than the worker's, then whatever the
-- provider answered and whatever the time, settling the batch throws and changes no row.
pub settle-lease_lost :
    (sinks : List Sink) (provider : Provider) (at : Readings) (batch : ClaimedBatch) (db : Db)
    → find (owned batch) db.batches ≡ none
    → ((settle_batch sinks provider at batch db).1 ≡ db)
      × ((r : DrainResult) → (settle_batch sinks provider at batch db).0 ≢ done r)
settle-lease_lost sinks provider at batch db lost =
    settle_ends (λ m. Refused db (m db)) sinks batch (endings batch db lost sinks) at provider
