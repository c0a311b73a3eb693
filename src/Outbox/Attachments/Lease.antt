-- ===== src/Outbox/Attachments/Lease.antt =====
-- Workers of the lane of single sends that have lost their lease.
use resend_conversation_serv.Prelude.{
  ℕ, ◌+◌, String, ◌≡◌, ◌≢◌, refl, subst, sym, Bool, true, false, Option, none, some, List, ap, ◌∙◌,
  Bool-cases, inl, inr, Action, Outcome, done, threw, pure, ◌>>=◌, Throws, bind-Throws,
  transaction-Throws, count, update-none, if◌then◌else◌, str_eq, ◌==◌,
}
use resend_conversation_serv.Prelude.Text.{Text}
use resend_conversation_serv.Database.{Db, MessageState, Sink, Fault}
use resend_conversation_serv.Delivery.{project_outbound_delivery_state}
use resend_conversation_serv.Delivery.Projection.{project-SameQueues}
use resend_conversation_serv.Attachments.Claim.{SendAttachment}
use resend_conversation_serv.Outbox.Policy.{
  SendError, named_error, is_changed_payload, is_retryable_error, get_error_code,
  has_provider_window_expired, retry_delay,
}
use resend_conversation_serv.Outbox.Batches.Settle.{DrainState, DrainEntry, Readings, accepted}
use resend_conversation_serv.Outbox.Attachments.{
  ClaimedEntry, owned, delete_owned_entry, update_accepted, is_open, accept, close_messages,
  finalize, schedule_retry, release_entry, give_up, retry, fail, window_detail,
  changed_payload_detail, failed_detail, handle_error, handle_threw, catching, outcome, SendAnswer,
  sent, refused, SingleProvider, invalid_response, accept_sent, settle_sent, settle_answer,
  send_prepared, is_given_up, deliver_entry,
}

-- The action throws and leaves the database as it was.
abbrev Refuses : {A : Type 0} → Db → Action Db Fault A → Type 0
Refuses db m = ((m db).1 ≡ db) × Throws m db

if-Refuses :
    {A : Type 0} (db : Db) (b : Bool) (m n : Action Db Fault A)
    → Refuses db m
    → Refuses db n
    → Refuses db (if b then m else n)
if-Refuses db true m n h k = h
if-Refuses db false m n h k = k

then-Refuses :
    {A B : Type 0} (db : Db) (m : Action Db Fault A) (f : A → Action Db Fault B)
    → Refuses db m
    → Refuses db (m >>= f)
then-Refuses {A} {B} db m f h = go (m db).0 (m db).1 h.0 h.1
  where
    go :
        (r : Outcome Fault A) (s : Db)
        → s ≡ db
        → ((a : A) → r ≢ done a)
        → Refuses db (λ _. ((λ _. (r, s)) >>= f) db)
    go (done a) s e k = absurd (k a refl)
    go (threw x) s e k = (e, λ b q. cc)

module _ (entry : ClaimedEntry) where
  abbrev Lost : Db → Type 0
  Lost db = count (owned entry) db.attachment_entries ≡ 0

  delete-Throws : (db : Db) → Lost db → Throws (delete_owned_entry entry) db
  unfolding delete_owned_entry
  delete-Throws db lost = rw lost (λ a q. cc)

  update-Lost : (id : String) (db : Db) → Lost db → Lost (update_accepted entry id db).1
  update-Lost id db lost = elim (Bool-cases (count (is_open entry) db.messages == 1)) [
    | inl e ↦ rw e lost
    | inr e ↦ rw e lost
  ]

  project-Lost :
      (sinks : List Sink) (id : String) (db : Db)
      → Lost db
      → Lost (project_outbound_delivery_state sinks id db).1
  project-Lost sinks id db lost =
      ap (count (owned entry)) (project-SameQueues sinks id db).attachment_entries ∙ lost

  module _ (db : Db) (lost : Lost db) where
    accept-Refuses : (sinks : List Sink) (id : String) → Refuses db (accept sinks entry id)
    unfolding accept
    accept-Refuses sinks id =
        transaction-Throws
          (update_accepted entry id >>= λ _.
            project_outbound_delivery_state sinks id >>= λ _. delete_owned_entry entry)
          db
          (bind-Throws Lost (update_accepted entry id)
            (λ _. project_outbound_delivery_state sinks id >>= λ _. delete_owned_entry entry) db
            (update-Lost id db lost)
            (λ _ s h.
              bind-Throws Lost (project_outbound_delivery_state sinks id)
                (λ _. delete_owned_entry entry) s (project-Lost sinks id s h)
                (λ _ s' h'. delete-Throws s' h')))

    finalize-Refuses :
        (state : MessageState) (detail : Text) → Refuses db (finalize entry state detail)
    unfolding finalize
    finalize-Refuses state detail =
        transaction-Throws (close_messages entry state detail >>= λ _. delete_owned_entry entry) db
          (bind-Throws Lost (close_messages entry state detail) (λ _. delete_owned_entry entry) db
            lost (λ _ s h. delete-Throws s h))

    schedule-Refuses : (now : ℕ) (code : Text) → Refuses db (schedule_retry entry now code)
    unfolding schedule_retry
    schedule-Refuses now code =
        rw
          (
            lost,
            update-none (owned entry) (release_entry (now + retry_delay entry.attempt_count) code)
                db.attachment_entries lost,
          )
          (refl, λ a q. cc)

    give_up-Refuses : (detail : Text) → Refuses db (give_up entry detail)
    give_up-Refuses detail =
        then-Refuses db (finalize entry MessageState.indeterminate detail)
          (λ _. pure (outcome entry DrainState.indeterminate none))
          (finalize-Refuses MessageState.indeterminate detail)

    fail-Refuses : (detail : Text) → Refuses db (fail entry detail)
    fail-Refuses detail =
        then-Refuses db (finalize entry MessageState.failed detail)
          (λ _. pure (outcome entry DrainState.failed none))
          (finalize-Refuses MessageState.failed detail)

    retry-Refuses : (now : ℕ) (code : Text) → Refuses db (retry entry now code)
    retry-Refuses now code =
        then-Refuses db (schedule_retry entry now code)
          (λ _. pure (outcome entry DrainState.pending none)) (schedule-Refuses now code)

    handle-Refuses : (at : Readings) (error : SendError) → Refuses db (handle_error entry at error)
    unfolding handle_error
    handle-Refuses at error =
        if-Refuses db (is_changed_payload error) (give_up entry changed_payload_detail) _
          (give_up-Refuses changed_payload_detail)
          (if-Refuses db (is_retryable_error error) _
            (fail entry (failed_detail (get_error_code error)))
            (if-Refuses db (has_provider_window_expired at.retry_checked_at entry.first_attempt_at)
              (give_up entry window_detail) (retry entry at.retry_at (get_error_code error))
              (give_up-Refuses window_detail) (retry-Refuses at.retry_at (get_error_code error)))
            (fail-Refuses (failed_detail (get_error_code error))))

    catching-Refuses :
        (name : Fault → Text) (at : Readings) (m : Action Db Fault DrainEntry)
        → Refuses db m
        → Refuses db (catching name (handle_error entry at) m)
    catching-Refuses name at m h = go (m db).0 (m db).1 h.0 h.1
      where
        go :
            (r : Outcome Fault DrainEntry) (s : Db)
            → s ≡ db
            → ((a : DrainEntry) → r ≢ done a)
            → Refuses db (λ _. handle_threw name (handle_error entry at) (r, s))
        go (done a) s e k = absurd (k a refl)
        go (threw x) s e k =
            subst (λ s'. Refuses db (λ _. handle_error entry at (named_error (name x)) s')) (sym e)
              (handle-Refuses at (named_error (name x)))

    sent-Refuses :
        (sinks : List Sink) (name : Fault → Text) (at : Readings) (id : Option String)
        → Refuses db (settle_sent sinks name entry at id)
    sent-Refuses sinks name at none =
        catching-Refuses name at (retry entry at.answered_at invalid_response)
          (retry-Refuses at.answered_at invalid_response)
    sent-Refuses sinks name at (some id) =
        if-Refuses db (str_eq id "")
          (catching name (handle_error entry at) (retry entry at.answered_at invalid_response))
          (catching name (handle_error entry at) (accept_sent sinks entry id))
          (catching-Refuses name at (retry entry at.answered_at invalid_response)
            (retry-Refuses at.answered_at invalid_response))
          (catching-Refuses name at (accept_sent sinks entry id) (
            then-Refuses db (accept sinks entry id) (λ _. pure (outcome entry accepted (some id)))
              (accept-Refuses sinks id)))

    answer-Refuses :
        (sinks : List Sink) (name : Fault → Text) (at : Readings) (answer : SendAnswer)
        → Refuses db (settle_answer sinks name entry at answer)
    answer-Refuses sinks name at (sent id) = sent-Refuses sinks name at id
    answer-Refuses sinks name at (refused error) = handle-Refuses at error

    prepared-Refuses :
        (sinks : List Sink) (name : Fault → Text) (provider : SingleProvider) (at : Readings)
        (prepared : Outcome SendError (List SendAttachment))
        → Refuses db (send_prepared sinks name provider entry at prepared)
    prepared-Refuses sinks name provider at (threw error) = handle-Refuses at error
    prepared-Refuses sinks name provider at (done attachments) =
        answer-Refuses sinks name at (provider entry.message attachments entry.message.id)

-- If no queue entry of the message holds the worker's lease, then whatever the attachments, the
-- provider's answer and the time, delivering the entry throws and changes no row.
pub deliver-lease_lost :
    (sinks : List Sink) (name : Fault → Text) (provider : SingleProvider)
    (prepared : Outcome SendError (List SendAttachment)) (at : Readings) (entry : ClaimedEntry)
    (db : Db)
    → count (owned entry) db.attachment_entries ≡ 0
    → ((deliver_entry sinks name provider prepared at entry db).1 ≡ db)
      × ((r : DrainEntry) → (deliver_entry sinks name provider prepared at entry db).0 ≢ done r)
unfolding deliver_entry
deliver-lease_lost sinks name provider prepared at entry db lost =
    if-Refuses db (is_given_up entry at) (give_up entry window_detail)
      (send_prepared sinks name provider entry at prepared)
      (give_up-Refuses entry db lost window_detail)
      (prepared-Refuses entry db lost sinks name provider at prepared)
