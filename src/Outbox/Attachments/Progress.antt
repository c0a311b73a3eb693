-- ===== src/Outbox/Attachments/Progress.antt =====
-- The send states of messages over the settlements of the lane of single sends.
use resend_conversation_serv.Prelude.{
  ℕ, String, ◌≢◌, refl, Bool, true, false, Option, none, some, List, arith, Action, Outcome, done,
  threw, ◌>>=◌, pure, Within, Within-bind, Within-transaction, All₂, All₂-update, update, str_eq,
  if◌then◌else◌,
}
use resend_conversation_serv.Prelude.Text.{Text}
use resend_conversation_serv.Database.{Db, MessageState, pending, received, Sink, Fault}
use resend_conversation_serv.Delivery.{project_outbound_delivery_state}
use resend_conversation_serv.Attachments.Claim.{SendAttachment}
use resend_conversation_serv.Outbox.Policy.{
  SendError, named_error, is_changed_payload, is_retryable_error, get_error_code,
  has_provider_window_expired,
}
use resend_conversation_serv.Outbox.Batches.Settle.{DrainState, DrainEntry, Readings, close_message}
use resend_conversation_serv.Outbox.Batches.Progress.{
  Progress, settled, Progress-refl, Advances, Advances-refl, Advances-trans, if-end,
  project-Advances,
}
use resend_conversation_serv.Outbox.Attachments.{
  ClaimedEntry, delete_owned_entry, update_accepted, is_open, accept_message, accept,
  close_messages, finalize, schedule_retry, give_up, retry, fail, window_detail,
  changed_payload_detail, failed_detail, handle_error, handle_threw, catching, outcome, SendAnswer,
  sent, refused, SingleProvider, invalid_response, accept_sent, settle_sent, settle_answer,
  send_prepared, is_given_up, deliver_entry,
}

pub if-Advances :
    {A : Type 0} (b : Bool) (m n : Action Db Fault A)
    → Within Advances m
    → Within Advances n
    → Within Advances (if b then m else n)
if-Advances true m n h k = h
if-Advances false m n h k = k

-- A step followed by its result.
then-Advances :
    (m : Action Db Fault (Unit {0})) (e : DrainEntry)
    → Within Advances m
    → Within Advances (m >>= λ _. pure e)
then-Advances m e h = Within-bind Advances Advances-trans m (λ _. pure e) h (λ _. Advances-refl)

module _ (entry : ClaimedEntry) where
  delete-Advances : Within Advances (delete_owned_entry entry)
  unfolding delete_owned_entry
  delete-Advances db = if-end db _ _ _ (Advances-refl db) (Advances-refl db)

  update-Advances : (id : String) → Within Advances (update_accepted entry id)
  update-Advances id db =
      let h : All₂ Progress db.messages (update (is_open entry) (accept_message id) db.messages) =
        All₂-update Progress (is_open entry) (accept_message id) db.messages
          (λ m e. settled refl (ground arith) (λ q. cc) (λ q. cc)) Progress-refl in
      if-end db _ _ _ h h

  close-Advances :
      (state : MessageState) (detail : Text)
      → state ≢ pending
      → state ≢ received
      → Within Advances (close_messages entry state detail)
  close-Advances state detail p q db =
      All₂-update Progress (is_open entry) (close_message state detail) db.messages
        (λ m e. settled refl (ground arith) p q) Progress-refl

  accept-Advances : (sinks : List Sink) (id : String) → Within Advances (accept sinks entry id)
  unfolding accept
  accept-Advances sinks id =
      Within-transaction Advances
        (update_accepted entry id >>= λ _.
          project_outbound_delivery_state sinks id >>= λ _. delete_owned_entry entry)
        Advances-refl
        (Within-bind Advances Advances-trans (update_accepted entry id)
          (λ _. project_outbound_delivery_state sinks id >>= λ _. delete_owned_entry entry)
          (update-Advances id)
          (λ _.
            Within-bind Advances Advances-trans (project_outbound_delivery_state sinks id)
              (λ _. delete_owned_entry entry) (project-Advances sinks id) (λ _. delete-Advances)))

  finalize-Advances :
      (state : MessageState) (detail : Text)
      → state ≢ pending
      → state ≢ received
      → Within Advances (finalize entry state detail)
  unfolding finalize
  finalize-Advances state detail p q =
      Within-transaction Advances
        (close_messages entry state detail >>= λ _. delete_owned_entry entry) Advances-refl
        (Within-bind Advances Advances-trans (close_messages entry state detail)
          (λ _. delete_owned_entry entry) (close-Advances state detail p q) (λ _. delete-Advances))

  schedule-Advances : (now : ℕ) (code : Text) → Within Advances (schedule_retry entry now code)
  unfolding schedule_retry
  schedule-Advances now code db = if-end db _ _ _ (Advances-refl db) (Advances-refl db)

  give_up-Advances : (detail : Text) → Within Advances (give_up entry detail)
  give_up-Advances detail =
      then-Advances (finalize entry MessageState.indeterminate detail)
        (outcome entry DrainState.indeterminate none)
        (finalize-Advances MessageState.indeterminate detail (λ q. cc) (λ q. cc))

  fail-Advances : (detail : Text) → Within Advances (fail entry detail)
  fail-Advances detail =
      then-Advances (finalize entry MessageState.failed detail)
        (outcome entry DrainState.failed none)
        (finalize-Advances MessageState.failed detail (λ q. cc) (λ q. cc))

  retry-Advances : (now : ℕ) (code : Text) → Within Advances (retry entry now code)
  retry-Advances now code =
      then-Advances (schedule_retry entry now code) (outcome entry DrainState.pending none)
        (schedule-Advances now code)

  handle-Advances :
      (at : Readings) (error : SendError) → Within Advances (handle_error entry at error)
  unfolding handle_error
  handle-Advances at error =
      if-Advances (is_changed_payload error) (give_up entry changed_payload_detail) _
        (give_up-Advances changed_payload_detail)
        (if-Advances (is_retryable_error error) _
          (fail entry (failed_detail (get_error_code error)))
          (if-Advances (has_provider_window_expired at.retry_checked_at entry.first_attempt_at)
            (give_up entry window_detail) (retry entry at.retry_at (get_error_code error))
            (give_up-Advances window_detail) (retry-Advances at.retry_at (get_error_code error)))
          (fail-Advances (failed_detail (get_error_code error))))

  catching-Advances :
      (name : Fault → Text) (at : Readings) (m : Action Db Fault DrainEntry)
      → Within Advances m
      → Within Advances (catching name (handle_error entry at) m)
  catching-Advances name at m h db = go (m db).0 (m db).1 (h db)
    where
      go :
          (r : Outcome Fault DrainEntry) (s : Db)
          → Advances db s
          → Advances db (handle_threw name (handle_error entry at) (r, s)).1
      go (done e) s k = k
      go (threw f) s k =
          Advances-trans db s (handle_error entry at (named_error (name f)) s).1 k
            (handle-Advances at (named_error (name f)) s)

  sent-Advances :
      (sinks : List Sink) (name : Fault → Text) (at : Readings) (id : Option String)
      → Within Advances (settle_sent sinks name entry at id)
  sent-Advances sinks name at none =
      catching-Advances name at (retry entry at.answered_at invalid_response)
        (retry-Advances at.answered_at invalid_response)
  sent-Advances sinks name at (some id) =
      if-Advances (str_eq id "")
        (catching name (handle_error entry at) (retry entry at.answered_at invalid_response))
        (catching name (handle_error entry at) (accept_sent sinks entry id))
        (catching-Advances name at (retry entry at.answered_at invalid_response)
          (retry-Advances at.answered_at invalid_response))
        (catching-Advances name at (accept_sent sinks entry id) (
          then-Advances (accept sinks entry id) (outcome entry DrainState.accepted (some id))
            (accept-Advances sinks id)))

  answer-Advances :
      (sinks : List Sink) (name : Fault → Text) (at : Readings) (answer : SendAnswer)
      → Within Advances (settle_answer sinks name entry at answer)
  answer-Advances sinks name at (sent id) = sent-Advances sinks name at id
  answer-Advances sinks name at (refused error) = handle-Advances at error

  prepared-Advances :
      (sinks : List Sink) (name : Fault → Text) (provider : SingleProvider) (at : Readings)
      (prepared : Outcome SendError (List SendAttachment))
      → Within Advances (send_prepared sinks name provider entry at prepared)
  prepared-Advances sinks name provider at (threw error) = handle-Advances at error
  prepared-Advances sinks name provider at (done attachments) =
      answer-Advances sinks name at (provider entry.message attachments entry.message.id)

  -- Delivering an entry, however it ends.
  pub deliver-Advances :
      (sinks : List Sink) (name : Fault → Text) (provider : SingleProvider)
      (prepared : Outcome SendError (List SendAttachment)) (at : Readings)
      → Within Advances (deliver_entry sinks name provider prepared at entry)
  unfolding deliver_entry
  deliver-Advances sinks name provider prepared at =
      if-Advances (is_given_up entry at) (give_up entry window_detail)
        (send_prepared sinks name provider entry at prepared) (give_up-Advances window_detail)
        (prepared-Advances sinks name provider at prepared)
