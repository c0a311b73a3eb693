-- ===== src/Sending/Stored.antt =====
-- Runs that return a row which is stored when they end: finding, updating and sending a message.
use resend_conversation_serv.Prelude.{
  ℕ, String, ◌≡◌, refl, sym, subst, ◌∙◌, ==_iff, Option, none, some, List, Bool-cases, inl, inr,
  Action, Outcome, done, threw, pure, ◌>>=◌, transaction, find, find-holds,
}
use resend_conversation_serv.Database.{Db, Message, Payload, Fault, is_pending}
use resend_conversation_serv.Attachments.Claim.{SendAttachment}
use resend_conversation_serv.Email.Conversations.{message_has_id}
use resend_conversation_serv.Email.Conversations.Kept.{Joined}
use resend_conversation_serv.Sending.Service.{
  Failure, Services, Sent, close_as, find_message, found_or_throw, write_message, attempt_send,
  record_accepted, closed_with, record_failure, or_record_failure, settle, sent_without_error,
  send_if_pending, send_found,
}

-- A row agrees with another in its identifier, its kind and direction, its send state, its provider
-- identifier and its idempotency key.
pub record Agrees (m stored : Message) : Type 0 where
  pub id : m.id ≡ stored.id
  pub kind : m.kind ≡ stored.kind
  pub direction : m.direction ≡ stored.direction
  pub state : m.state ≡ stored.state
  pub resend_email_id : m.resend_email_id ≡ stored.resend_email_id
  pub idempotency_key : m.idempotency_key ≡ stored.idempotency_key

-- The row agrees with the one that is stored under the identifier.
abbrev pub IsStored : ℕ → Db → Message → Type 0
IsStored id db m =
    (stored : Message) × (find (message_has_id id) db.messages ≡ some stored) × Agrees m stored

pub Agrees-refl : (m : Message) → Agrees m m
Agrees-refl m = record {
  id = refl;
  kind = refl;
  direction = refl;
  state = refl;
  resend_email_id = refl;
  idempotency_key = refl;
}

pub found-IsStored :
    (id : ℕ) (db : Db) (m : Message)
    → find (message_has_id id) db.messages ≡ some m
    → IsStored id db m
found-IsStored id db m e = (m, e, Agrees-refl m)

pub Agrees-Joined :
    (target : Option ℕ) (m a b : Message) → Agrees m a → Joined target a b → Agrees m b
Agrees-Joined target m a b h k = record {
  id = h.id ∙ sym k.id;
  kind = h.kind ∙ sym k.kind;
  direction = h.direction ∙ sym k.direction;
  state = h.state ∙ sym k.state;
  resend_email_id = h.resend_email_id ∙ sym k.resend_email_id;
  idempotency_key = h.idempotency_key ∙ sym k.idempotency_key;
}

-- What a run that ends in the database returns, if anything, is stored there.
module _ {E A : Type 0} (row : A → Message) (id : ℕ) where
  abbrev pub Shown : Outcome E A × Db → Type 0
  Shown (done a, db) = IsStored id db (row a)
  Shown (threw e, db) = Unit {0}

module _ {A B : Type 0} (row : B → Message) (id : ℕ) where
  bind-Shown :
      (m : Action Db Fault A) (f : A → Action Db Fault B) (db : Db)
      → ((a : A) (db' : Db) → Shown row id (f a db'))
      → Shown row id ((m >>= f) db)
  bind-Shown m f db k = go (m db).0 (m db).1
    where
      go : (o : Outcome Fault A) (db' : Db) → Shown row id (((λ _. (o, db')) >>= f) db)
      go (done a) db' = k a db'
      go (threw e) db' = tt

pub transaction-Shown :
    {A : Type 0} (row : A → Message) (id : ℕ) (m : Action Db Fault A) (db : Db)
    → Shown row id (m db)
    → Shown row id (transaction m db)
unfolding transaction
transaction-Shown {A} row id m db h = go (m db).0 (m db).1 h
  where
    go :
        (o : Outcome Fault A) (db' : Db)
        → Shown row id (o, db')
        → Shown row id (transaction (λ _. (o, db')) db)
    go (done a) db' h = h
    go (threw e) db' h = tt

abbrev pub itself : Message → Message
itself m = m

abbrev pub row_of : Sent → Message
row_of sent = sent.row

module _ (id : ℕ) where
  pub find-Shown : (db : Db) → Shown itself id (find_message id db)
  find-Shown db = go (find (message_has_id id) db.messages) refl
    where
      go :
          (o : Option Message)
          → find (message_has_id id) db.messages ≡ o
          → Shown itself id (found_or_throw o db)
      go none e = tt
      go (some m) e = found-IsStored id db m e

  -- A row that is read last, and what is returned of it.
  read-Shown :
      (f : Message → Sent) (db : Db)
      → ((m : Message) → (f m).row ≡ m)
      → Shown row_of id ((find_message id >>= λ m. pure (f m)) db)
  read-Shown f db same = go (find (message_has_id id) db.messages) refl
    where
      go :
          (o : Option Message)
          → find (message_has_id id) db.messages ≡ o
          → Shown row_of id ((found_or_throw o >>= λ m. pure (f m)) db)
      go none e = tt
      go (some m) e = subst (IsStored id db) (sym (same m)) (found-IsStored id db m e)

  failure-Shown : (f : Failure) (db : Db) → Shown row_of id (record_failure id f db)
  failure-Shown f db = go (find (message_has_id id) db.messages)
    where
      go :
          (o : Option Message)
          → Shown row_of id (
              ((found_or_throw o >>= λ _. write_message id (close_as f) >>= λ _. find_message id)
                  >>= λ m. pure (closed_with f m))
                db)
      go none = tt
      go (some m) = read-Shown (closed_with f) (write_message id (close_as f) db).1 (λ m. refl)

  settle-Shown :
      (services : Services) (o : Outcome Failure String) (db : Db)
      → Shown row_of id (settle services id o db)
  settle-Shown services (threw f) db = failure-Shown f db
  settle-Shown services (done email_id) db =
      go (record_accepted services id email_id db).0 (record_accepted services id email_id db).1
    where
      go :
          (o : Outcome Fault (Option Payload)) (db' : Db)
          → Shown row_of id (or_record_failure services id (o, db'))
      go (done event) db' = read-Shown sent_without_error db' (λ m. refl)
      go (threw e) db' = failure-Shown (services.describe e) db'

  pub send-Shown :
      (services : Services) (attachments : List SendAttachment) (db : Db)
      → Shown row_of id (send_found services attachments id db)
  send-Shown services attachments db = go (find (message_has_id id) db.messages) refl
    where
      go :
          (o : Option Message)
          → find (message_has_id id) db.messages ≡ o
          → Shown row_of id ((found_or_throw o >>= λ m. send_if_pending services attachments m) db)
      go none e = tt
      go (some m) e = elim (Bool-cases (is_pending m.state)) [
        | inl p ↦ rw p (
            subst
              (λ i. Shown row_of id (settle services i (attempt_send services attachments m) db))
              (sym ((==_iff m.id id).0 (find-holds (message_has_id id) db.messages m e)))
              (settle-Shown services (attempt_send services attachments m) db))
        | inr p ↦ rw p (found-IsStored id db m e)
      ]
