-- ===== src/Sending/Alone.antt =====
-- What sending a message does to the send states of the messages.
use resend_conversation_serv.Prelude.{
  ℕ, String, ◌≡◌, ◌⊎◌, refl, sym, ap, subst, ◌∙◌, arith, ==_iff, Bool, true, false, ◌&&◌, ◌||◌, not,
  Option, none, some, List, [], ◌∷◌, ◌==◌, Bool-cases, inl, inr, if◌then◌else◌, Action, Outcome,
  done, threw, pure, ◌>>=◌, ◌>>◌, transaction, find, All₂, All₂-refl, All₂-trans, All₂-update,
  All₂-map, All₂-find, Within, Within-bind, related-transaction, find-holds,
}
use resend_conversation_serv.Database.{Db, Message, Payload, Fault, is_pending}
use resend_conversation_serv.Delivery.{project_outbound_delivery_state}
use resend_conversation_serv.Delivery.Projection.{project-SameQueues}
use resend_conversation_serv.Attachments.Claim.{SendAttachment}
use resend_conversation_serv.Email.Conversations.{
  message_has_id, record_outbound, record_outbound_internet_message_id,
}
use resend_conversation_serv.Email.Conversations.Recording.{record_outbound-Keeps}
use resend_conversation_serv.Sending.Service.{
  Failure, Services, Sent, accept_as, close_as, find_message, found_or_throw, write_message,
  update_message, attempt_send, record_accepted, closed_with, record_failure, or_record_failure,
  settle, read_sent, sent_without_error, send_if_pending, send_found, recorded_or, hydrate_with,
  hydrate_attempts, hydrate_sent, hydrate_sent_metadata, raise, after_sending, deliver_with,
  deliver_pending_message, give_up, expire_pending, is_direct, is_accepted, is_filled,
}

-- The same message; its send state may differ only for the message that is sent.
pub record SentOnly (id : ℕ) (a b : Message) : Type 0 where
  pub same_id : b.id ≡ a.id
  pub others : ((a.id == id) ≡ true) ⊎ (b.state ≡ a.state)

pub SentOnly-refl : (id : ℕ) (a : Message) → SentOnly id a a
SentOnly-refl id a = record { same_id = refl; others = inr refl }

pub either_way :
    (id : ℕ) (a b c : Message)
    → b.id ≡ a.id
    → ((a.id == id) ≡ true) ⊎ (b.state ≡ a.state)
    → ((b.id == id) ≡ true) ⊎ (c.state ≡ b.state)
    → ((a.id == id) ≡ true) ⊎ (c.state ≡ a.state)
either_way id a b c e (inl h) k = inl h
either_way id a b c e (inr h) (inl k) = inl (subst (λ i. (i == id) ≡ true) e k)
either_way id a b c e (inr h) (inr k) = inr (k ∙ h)

pub SentOnly-trans :
    (id : ℕ) (a b c : Message) → SentOnly id a b → SentOnly id b c → SentOnly id a c
SentOnly-trans id a b c h k = record {
  same_id = k.same_id ∙ h.same_id;
  others = either_way id a b c h.same_id h.others k.others;
}

-- Every message is still there, and only that one's send state may differ.
abbrev pub Alone : ℕ → Db → Db → Type 0
Alone id a b = All₂ (SentOnly id) a.messages b.messages

module _ (id : ℕ) where
  pub Alone-refl : (a : Db) → Alone id a a
  Alone-refl a = All₂-refl (SentOnly id) (SentOnly-refl id) a.messages

  pub Alone-trans : (a b c : Db) → Alone id a b → Alone id b c → Alone id a c
  Alone-trans a b c = All₂-trans (SentOnly id) (SentOnly-trans id) a.messages b.messages c.messages

  pub bind-Alone :
      {A B : Type 0} (m : Action Db Fault A) (f : A → Action Db Fault B)
      → Within (Alone id) m
      → ((a : A) → Within (Alone id) (f a))
      → Within (Alone id) (m >>= f)
  bind-Alone m f = Within-bind (Alone id) Alone-trans m f

  pub find-Alone : (i : ℕ) → Within (Alone id) (find_message i)
  find-Alone i db = go (find (message_has_id i) db.messages)
    where
      go : (o : Option Message) → Alone id db (found_or_throw o db).1
      go none = Alone-refl db
      go (some m) = Alone-refl db

  pub update-Alone :
      (f : Message → Message)
      → ((m : Message) → (f m).id ≡ m.id)
      → Within (Alone id) (update_message id f)
  update-Alone f same =
      bind-Alone (find_message id) (λ _. write_message id f >> find_message id) (find-Alone id)
        (λ _.
          bind-Alone (write_message id f) (λ _. find_message id)
            (λ db.
              All₂-update (SentOnly id) (message_has_id id) f db.messages
                (λ m h. record { same_id = same m; others = inl h }) (SentOnly-refl id))
            (λ _. find-Alone id))

  pub accepted-Alone :
      (services : Services) (email_id : String)
      → Within (Alone id) (record_accepted services id email_id)
  accepted-Alone services email_id =
      bind-Alone (update_message id (accept_as email_id))
        (λ _. project_outbound_delivery_state services.sinks email_id)
        (update-Alone (accept_as email_id) (λ m. refl))
        (λ _ db.
          All₂-map (λ a b h. record { same_id = h.id; others = inr h.state }) db.messages
            (project_outbound_delivery_state services.sinks email_id db).1.messages
            (project-SameQueues services.sinks email_id db).messages)

  pub read-Alone : Within (Alone id) (read_sent id)
  read-Alone =
      bind-Alone (find_message id) (λ m. pure (sent_without_error m)) (find-Alone id)
        (λ m db. Alone-refl db)

  pub failure-Alone : (f : Failure) → Within (Alone id) (record_failure id f)
  failure-Alone f =
      bind-Alone (update_message id (close_as f)) (λ m. pure (closed_with f m))
        (update-Alone (close_as f) (λ m. refl)) (λ m db. Alone-refl db)

  pub settle-Alone :
      (services : Services) (o : Outcome Failure String) → Within (Alone id) (settle services id o)
  settle-Alone services (threw f) db = failure-Alone f db
  settle-Alone services (done email_id) db =
      go (record_accepted services id email_id db).0 (record_accepted services id email_id db).1
        (accepted-Alone services email_id db)
    where
      go :
          (o : Outcome Fault (Option Payload)) (db' : Db)
          → Alone id db db'
          → Alone id db (or_record_failure services id (o, db')).1
      go (done event) db' h = Alone-trans db db' (read_sent id db').1 h (read-Alone db')
      go (threw e) db' h =
          Alone-trans db db' (record_failure id (services.describe e) db').1 h
            (failure-Alone (services.describe e) db')

  recorded-Alone :
      (services : Services) (now : ℕ) (i : ℕ) (internet_message_id : String) (at : Option ℕ)
      → Within
          (Alone id)
          (record_outbound_internet_message_id services.sinks now i internet_message_id at)
  recorded-Alone services now i internet_message_id at db =
      go (find (message_has_id i) db.messages) refl
    where
      go :
          (o : Option Message)
          → find (message_has_id i) db.messages ≡ o
          → Alone id db
              (record_outbound_internet_message_id services.sinks now i internet_message_id at db).1
      go none e =
          unfold record_outbound_internet_message_id in
          related-transaction (Alone id)
            (record_outbound services.sinks now i internet_message_id at) db (Alone-refl db)
            (rw e (Alone-refl db))
      go (some m) e =
          All₂-map (λ a b h. record { same_id = h.id; others = inr h.state }) db.messages
            (record_outbound_internet_message_id services.sinks now i internet_message_id at
              db).1.messages
            (record_outbound-Keeps services.sinks now i internet_message_id at db m e)

  pub send_if-Alone :
      (services : Services) (attachments : List SendAttachment) (m : Message)
      → m.id ≡ id
      → Within (Alone id) (send_if_pending services attachments m)
  send_if-Alone services attachments m e db = elim (Bool-cases (is_pending m.state)) [
    | inl p ↦ rw p (
        subst (λ i. Alone id db (settle services i sent db).1) (sym e)
          (settle-Alone services sent db))
    | inr p ↦ rw p (Alone-refl db)
  ]
    where
      sent : Outcome Failure String
      sent = attempt_send services attachments m

  pub send-Alone :
      (services : Services) (attachments : List SendAttachment)
      → Within (Alone id) (send_found services attachments id)
  send-Alone services attachments db = go (find (message_has_id id) db.messages) refl
    where
      go :
          (o : Option Message)
          → find (message_has_id id) db.messages ≡ o
          → Alone id db ((found_or_throw o >>= λ m. send_if_pending services attachments m) db).1
      go none e = Alone-refl db
      go (some m) e =
          send_if-Alone services attachments m
            ((==_iff m.id id).0 (find-holds (message_has_id id) db.messages m e)) db

  pub attempts-Alone :
      (services : Services) (now : ℕ) (m : Message) (email_id : String) (attempts : List ℕ)
      (db : Db)
      → Alone id db (hydrate_attempts services now m email_id attempts db).1
  unfolding hydrate_attempts
  attempts-Alone services now m email_id [] db = Alone-refl db
  attempts-Alone services now m email_id (attempt ∷ attempts) db =
      go (services.get_sent attempt email_id)
        (λ db'. attempts-Alone services now m email_id attempts db')
    where
      next : Db → Message × Db
      next db' = hydrate_attempts services now m email_id attempts db'

      recorded :
          (o : Outcome Fault Message) (db' : Db)
          → Alone id db db'
          → ((d : Db) → Alone id d (next d).1)
          → Alone id db (recorded_or (o, db') next).1
      recorded (done r) db' h k = h
      recorded (threw e) db' h k = Alone-trans db db' (next db').1 h (k db')

      go :
          (o : Outcome Failure (String × ℕ))
          → ((d : Db) → Alone id d (next d).1)
          → Alone id db (hydrate_with services now m o next db).1
      go (threw f) k = k db
      go (done (internet_message_id, created_at)) k =
          let r =
            record_outbound_internet_message_id services.sinks now m.id internet_message_id
              (some created_at) db in
          recorded r.0 r.1
            (recorded-Alone services now m.id internet_message_id (some created_at) db) k

  pub hydrate-Alone :
      (services : Services) (now : ℕ) (m : Message) (db : Db)
      → Alone id db (hydrate_sent_metadata services now m db).1
  unfolding hydrate_sent_metadata
  hydrate-Alone services now m db =
      either
        (is_direct m.kind
          || not (is_accepted m.state)
          || not (is_filled m.resend_email_id)
          || is_filled m.internet_message_id)
        m.resend_email_id
    where
      either :
          (b : Bool) (o : Option String)
          → Alone id db (if b then (m, db) else hydrate_sent services now m o db).1
      either true o = Alone-refl db
      either false none = Alone-refl db
      either false (some email_id) = attempts-Alone services now m email_id (0 ∷ 1 ∷ 2 ∷ []) db

  pub deliver-Alone :
      (services : Services) (now : ℕ) (db : Db)
      → Alone id db (deliver_pending_message services now id db).1
  unfolding deliver_pending_message
  deliver-Alone services now db = go (services.attachments id db)
    where
      raised :
          (sent : Sent) (o : Option Failure) (db' : Db)
          → Alone id db db'
          → Alone id db (raise services now sent o db').1
      raised sent (some f) db' h = h
      raised sent none db' h =
          Alone-trans db db' (hydrate_sent_metadata services now sent.row db').1 h
            (hydrate-Alone services now sent.row db')

      after :
          (o : Outcome Fault Sent) (db' : Db)
          → Alone id db db'
          → Alone id db (after_sending services now (o, db')).1
      after (threw e) db' h = h
      after (done sent) db' h = raised sent sent.send_error db' h

      go :
          (o : Outcome Failure (List SendAttachment))
          → Alone id db (deliver_with services now id o db).1
      go (threw f) = Alone-refl db
      go (done attachments) =
          let r = transaction (send_found services attachments id) db in
          after r.0 r.1 (
            related-transaction (Alone id) (send_found services attachments id) db (Alone-refl db)
              (send-Alone services attachments db))

  pub expire-Alone : Within (Alone id) (expire_pending id)
  expire-Alone db =
      All₂-update (SentOnly id) (λ m. m.id == id && is_pending m.state) give_up db.messages
        (λ m h. record { same_id = refl; others = inl (ground arith) }) (SentOnly-refl id)

  -- A message that was there is still there.
  pub Alone-find :
      (before after : List Message) (m : Message)
      → All₂ (SentOnly id) before after
      → find (message_has_id id) before ≡ some m
      → (r : Message) × (find (message_has_id id) after ≡ some r)
  Alone-find before after m h e =
      let (r, found, related) =
        All₂-find (SentOnly id) (message_has_id id) (λ a b k. ap (λ i. i == id) k.same_id) before
          after m h e in
      (r, found)
