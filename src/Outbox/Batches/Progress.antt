-- ===== src/Outbox/Batches/Progress.antt =====
-- The send states of messages over a drain of the batch lane.
use resend_conversation_serv.Prelude.{
  All₂-map, ℕ, String, ◌≡◌, ◌≢◌, refl, sym, ◌∙◌, subst, Bool, true, false, Option, none, some, List,
  [], ◌∷◌, arith, Outcome, ◌>>=◌, pure, transaction, Within, Within-bind, Within-transaction, All₂,
  All₂-refl, All₂-trans, All₂-update, update, if◌then◌else◌,
}
use resend_conversation_serv.Prelude.Text.{Text}
use resend_conversation_serv.Database.{
  Batch, Entry, Db, Message, MessageState, pending, received, Sink, Fault,
}
use resend_conversation_serv.Delivery.{project_outbound_delivery_state}
use resend_conversation_serv.Delivery.Projection.{
  SameSend, SameSend-refl, SameSend-trans, project-SameQueues,
}
use resend_conversation_serv.Outbox.Batches.{
  ClaimedBatch, ClaimInput, claim_outbox_batch, lease_existing_or_new, retryable_batch,
  queued_entries, delete_stale,
}
use resend_conversation_serv.Outbox.Batches.Settle.{
  Readings, assert_lease_owner, update_accepted, reconcile_all, delete_owned_batch, close_messages,
  DrainState, closure, acceptance, accepted_result, terminal_drain_result, failed_detail,
  finalize_accepted_batch, finalize_failed_batch, finalize_indeterminate_batch, release_owned,
  is_accepted, accept_message, is_open, close_message,
}
use resend_conversation_serv.Outbox.Batches.Endings.{Endings, settle_ends}
use resend_conversation_serv.Outbox.Batches.Drain.{
  Provider, settle_batch, drain_email_outbox, settle_claimed,
}

-- The same message in two states of the table: untouched, but for delivery reports, or settled.
pub data Progress (a b : Message) : Type 0 where
  untouched : SameSend a b → Progress a b
  settled : b.id ≡ a.id → a.state ≡ pending → b.state ≢ pending → b.state ≢ received → Progress a b

pub Progress-refl : (a : Message) → Progress a a
Progress-refl a = untouched (SameSend-refl a)

Progress-trans : (a b c : Message) → Progress a b → Progress b c → Progress a c
Progress-trans a b c (untouched h) (untouched k) = untouched (SameSend-trans a b c h k)
Progress-trans a b c (untouched h) (settled i p q r) = settled (i ∙ h.id) (sym h.state ∙ p) q r
Progress-trans a b c (settled i p q r) (untouched k) =
    settled (k.id ∙ i) p (λ e. q (sym k.state ∙ e)) (λ e. r (sym k.state ∙ e))
Progress-trans a b c (settled i p q r) (settled j s t u) = absurd (q s)

abbrev pub Advances : Db → Db → Type 0
Advances a b = All₂ Progress a.messages b.messages

pub Advances-refl : (a : Db) → Advances a a
Advances-refl a = All₂-refl Progress Progress-refl a.messages

pub Advances-trans : (a b c : Db) → Advances a b → Advances b c → Advances a c
Advances-trans a b c = All₂-trans Progress Progress-trans a.messages b.messages c.messages

pub project-Advances :
    (sinks : List Sink) (id : String) → Within Advances (project_outbound_delivery_state sinks id)
project-Advances sinks id db =
    All₂-map (λ a b h. untouched h) db.messages _ (project-SameQueues sinks id db).messages

reconcile-Advances :
    (sinks : List Sink) (ids : List String) → Within Advances (reconcile_all sinks ids)
unfolding reconcile_all
reconcile-Advances sinks [] = Advances-refl
reconcile-Advances sinks (id ∷ ids) =
    Within-bind Advances Advances-trans (project_outbound_delivery_state sinks id)
      (λ _. reconcile_all sinks ids) (project-Advances sinks id) (λ _. reconcile-Advances sinks ids)

pub if-end :
    {A : Type 0} (db : Db) (b : Bool) (x y : Outcome Fault A × Db)
    → Advances db x.1
    → Advances db y.1
    → Advances db (if b then x else y).1
if-end db true x y h k = h
if-end db false x y h k = k

module _ (batch : ClaimedBatch) where
  assert-Advances : Within Advances (assert_lease_owner batch)
  unfolding assert_lease_owner
  assert-Advances db = if-end db _ _ _ (Advances-refl db) (Advances-refl db)

  delete-Advances : Within Advances (delete_owned_batch batch)
  unfolding delete_owned_batch
  delete-Advances db = if-end db _ _ _ (Advances-refl db) (Advances-refl db)

  accept-Advances : (ids : List String) → Within Advances (update_accepted batch ids)
  accept-Advances ids db = let h = accepting in if-end db _ _ _ h h
    where
      accepting :
          All₂ Progress db.messages (
            update (is_accepted batch.messages ids) (accept_message batch.messages ids) db.messages)
      accepting =
          All₂-update Progress (is_accepted batch.messages ids) (accept_message batch.messages ids)
            db.messages (λ m e. settled refl (ground arith) (λ q. cc) (λ q. cc)) Progress-refl

  close-Advances :
      (state : MessageState) (detail : Text)
      → state ≢ pending
      → state ≢ received
      → Within Advances (close_messages batch state detail)
  close-Advances state detail p q db =
      All₂-update Progress (is_open batch) (close_message state detail) db.messages
        (λ m e. settled refl (ground arith) p q) Progress-refl

  closure-Advances :
      (state : MessageState) (detail : Text)
      → state ≢ pending
      → state ≢ received
      → Within Advances (transaction (closure batch state detail))
  closure-Advances state detail p q =
      Within-transaction Advances (closure batch state detail) Advances-refl (
        Within-bind Advances Advances-trans (assert_lease_owner batch)
          (λ _. close_messages batch state detail >>= λ _. delete_owned_batch batch) assert-Advances
          (λ _.
            Within-bind Advances Advances-trans (close_messages batch state detail)
              (λ _. delete_owned_batch batch) (close-Advances state detail p q)
              (λ _. delete-Advances)))

  acceptance-Advances :
      (sinks : List Sink) (ids : List String)
      → Within Advances (transaction (acceptance sinks batch ids))
  acceptance-Advances sinks ids =
      Within-transaction Advances (acceptance sinks batch ids) Advances-refl (
        Within-bind Advances Advances-trans (assert_lease_owner batch)
          (λ _. update_accepted batch ids >>= λ _.
            reconcile_all sinks ids >>= λ _. delete_owned_batch batch)
          assert-Advances
          (λ _.
            Within-bind Advances Advances-trans (update_accepted batch ids)
              (λ _. reconcile_all sinks ids >>= λ _. delete_owned_batch batch) (accept-Advances ids)
              (λ _.
                Within-bind Advances Advances-trans (reconcile_all sinks ids)
                  (λ _. delete_owned_batch batch) (reconcile-Advances sinks ids)
                  (λ _. delete-Advances))))

  finalize_accepted-Advances :
      (sinks : List Sink) (ids : List String)
      → Within Advances (finalize_accepted_batch sinks batch ids)
  unfolding finalize_accepted_batch
  finalize_accepted-Advances sinks ids =
      Within-bind Advances Advances-trans (transaction (acceptance sinks batch ids))
        (λ _. pure (accepted_result batch ids)) (acceptance-Advances sinks ids) (λ _. Advances-refl)

  finalize_failed-Advances : (code : Text) → Within Advances (finalize_failed_batch batch code)
  unfolding finalize_failed_batch
  finalize_failed-Advances code =
      Within-bind Advances Advances-trans
        (transaction (closure batch MessageState.failed (failed_detail code)))
        (λ _. pure (terminal_drain_result batch DrainState.failed))
        (closure-Advances MessageState.failed (failed_detail code) (λ e. cc) (λ e. cc))
        (λ _. Advances-refl)

  finalize_indeterminate-Advances :
      (detail : Text) → Within Advances (finalize_indeterminate_batch batch detail)
  unfolding finalize_indeterminate_batch
  finalize_indeterminate-Advances detail =
      Within-bind Advances Advances-trans
        (transaction (closure batch MessageState.indeterminate detail))
        (λ _. pure (terminal_drain_result batch DrainState.indeterminate))
        (closure-Advances MessageState.indeterminate detail (λ e. cc) (λ e. cc))
        (λ _. Advances-refl)

  release-Advances : (now : ℕ) (code : Text) → Within Advances (release_owned batch now code)
  release-Advances now code db = if-end db _ _ _ (Advances-refl db) (Advances-refl db)

  endings : (sinks : List Sink) → Endings (Within Advances) sinks batch
  endings sinks = record {
    accepting = finalize_accepted-Advances sinks;
    failing = finalize_failed-Advances;
    giving_up = finalize_indeterminate-Advances;
    releasing = release-Advances;
  }

settle-Advances :
    (sinks : List Sink) (provider : Provider) (at : Readings) (batch : ClaimedBatch)
    → Within Advances (settle_batch sinks provider at batch)
settle-Advances sinks provider at batch =
    settle_ends (Within Advances) sinks batch (endings batch sinks) at provider

lease_next-messages :
    (i : ClaimInput) (o : Option Batch) (chosen : List Entry) (db : Db)
    → ((lease_existing_or_new i o chosen db).1.messages ≡ db.messages)
lease_next-messages i (some b) chosen db = refl
lease_next-messages i none [] db = refl
lease_next-messages i none (e ∷ es) db = refl

claim-Advances : (i : ClaimInput) → Within Advances (claim_outbox_batch i)
unfolding claim_outbox_batch
claim-Advances i db =
    subst (All₂ Progress db.messages)
      (sym (
        lease_next-messages i (retryable_batch i db.batches) (queued_entries i (delete_stale db))
          (delete_stale db)))
      (Advances-refl db)

module _ (sinks : List Sink) (provider : Provider) (at : Readings) (meanwhile : Db → Db) where
  claimed-Advances :
      ((db : Db) → Advances db (meanwhile db))
      → (o : Option ClaimedBatch) → Within Advances (settle_claimed sinks provider at meanwhile o)
  claimed-Advances others none db = Advances-refl db
  claimed-Advances others (some batch) db =
      Advances-trans db (meanwhile db) (settle_batch sinks provider at batch (meanwhile db)).1
        (others db) (settle-Advances sinks provider at batch (meanwhile db))

-- Over a whole drain (claim, call of the provider, settlement), whatever the provider answers and
-- even if the drain throws, every message row is either untouched but for its delivery report, or
-- was PENDING and is now ACCEPTED, FAILED or INDETERMINATE. It is assumed that the transactions that
-- run between the claim and the settlement change message rows only in that way too.
pub drain-Advances :
    (sinks : List Sink) (provider : Provider) (i : ClaimInput) (at : Readings) (meanwhile : Db → Db)
    → ((db : Db) → All₂ Progress db.messages (meanwhile db).messages)
    → (db : Db)
    → All₂ Progress db.messages (drain_email_outbox sinks provider i at meanwhile db).1.messages
unfolding drain_email_outbox
drain-Advances sinks provider i at meanwhile others =
    Within-bind Advances Advances-trans (claim_outbox_batch i)
      (settle_claimed sinks provider at meanwhile) (claim-Advances i)
      (claimed-Advances sinks provider at meanwhile others)
