-- ===== src/Sending/Shown.antt =====
-- What a delivery returns, once the sent mail was asked for its identifier.
use resend_conversation_serv.Prelude.{
  ℕ, String, ◌≡◌, refl, sym, ap, subst, ◌∙◌, ==_iff, Bool, true, false, ◌||◌, not, Option, none,
  some, List, [], ◌∷◌, ◌==◌, if◌then◌else◌, Outcome, done, threw, transaction, find, find-holds,
  All₂-find,
}
use resend_conversation_serv.Database.{Db, Message, Fault}
use resend_conversation_serv.Attachments.Claim.{SendAttachment}
use resend_conversation_serv.Email.Conversations.{
  message_has_id, with_sent, record_outbound_internet_message_id,
}
use resend_conversation_serv.Email.Conversations.Kept.{Joined}
use resend_conversation_serv.Email.Conversations.Recording.{record_outbound-Keeps}
use resend_conversation_serv.Email.Conversations.Returned.{record_outbound-row}
use resend_conversation_serv.Sending.Service.{
  Failure, Services, Sent, send_found, recorded_or, hydrate_with, hydrate_attempts, hydrate_sent,
  hydrate_sent_metadata, raise, after_sending, deliver_with, deliver_pending_message, is_direct,
  is_accepted, is_filled,
}
use resend_conversation_serv.Sending.Stored.{
  Agrees, Agrees-refl, Agrees-Joined, IsStored, Shown, transaction-Shown, itself, row_of,
  send-Shown,
}

sent-Agrees :
    (internet_message_id : String) (at : Option ℕ) (m b : Message)
    → Agrees m b
    → Agrees (with_sent internet_message_id at m) b
sent-Agrees internet_message_id none m b h = record {
  id = h.id;
  kind = h.kind;
  direction = h.direction;
  state = h.state;
  resend_email_id = h.resend_email_id;
  idempotency_key = h.idempotency_key;
}
sent-Agrees internet_message_id (some t) m b h = record {
  id = h.id;
  kind = h.kind;
  direction = h.direction;
  state = h.state;
  resend_email_id = h.resend_email_id;
  idempotency_key = h.idempotency_key;
}

-- A returned row with the tables.
abbrev IsStoredIn : ℕ → Message × Db → Type 0
IsStoredIn id (m, db) = IsStored id db m

module _ (services : Services) (now id : ℕ) where
  -- The stored row after the identifier was recorded, and the row that recording returns.
  recorded-IsStored :
      (m : Message) (internet_message_id : String) (at : ℕ) (next : Db → Message × Db) (db : Db)
      → IsStored id db m
      → ((db' : Db) → IsStored id db' m → IsStoredIn id (next db'))
      → IsStoredIn id (
          recorded_or
            (record_outbound_internet_message_id services.sinks now m.id internet_message_id
              (some at)
              db)
            next)
  recorded-IsStored m internet_message_id at next db (stored, found, agrees) k =
      go
        (record_outbound_internet_message_id services.sinks now m.id internet_message_id (some at)
          db).0
        refl
    where
      same_id : m.id ≡ id
      same_id =
          agrees.id
          ∙ (==_iff stored.id id).0 (find-holds (message_has_id id) db.messages stored found)

      found_m : find (message_has_id m.id) db.messages ≡ some stored
      found_m = subst (λ i. find (message_has_id i) db.messages ≡ some stored) (sym same_id) found

      after : Db
      after =
          (record_outbound_internet_message_id services.sinks now m.id internet_message_id (some at)
            db).1

      kept :
          (r : Message) × (find (message_has_id id) after.messages ≡ some r)
          × Joined stored.conversation_id stored r
      kept =
          All₂-find (Joined stored.conversation_id) (message_has_id id)
            (λ a b h. ap (λ i. i == id) h.id) db.messages after.messages stored
            (record_outbound-Keeps services.sinks now m.id internet_message_id (some at) db stored
              found_m)
            found

      go :
          (o : Outcome Fault Message)
          → (record_outbound_internet_message_id services.sinks now m.id internet_message_id
              (some at)
              db).0
            ≡ o
          → IsStoredIn id (recorded_or (o, after) next)
      go (threw e) q =
          k after
            (kept.0, kept.1, Agrees-Joined stored.conversation_id m stored kept.0 agrees kept.2)
      go (done r) q =
          let row : r ≡ with_sent internet_message_id (some at) stored =
            record_outbound-row services.sinks now internet_message_id (some at) db r m.id stored
              found_m q in
          (
            kept.0,
            kept.1,
            subst (λ x. Agrees x kept.0) (sym row)
                (sent-Agrees internet_message_id (some at) stored kept.0 (
                  Agrees-Joined stored.conversation_id stored stored kept.0 (Agrees-refl stored)
                    kept.2)),
          )

  attempts-IsStored :
      (m : Message) (email_id : String) (attempts : List ℕ) (db : Db)
      → IsStored id db m
      → IsStoredIn id (hydrate_attempts services now m email_id attempts db)
  unfolding hydrate_attempts
  attempts-IsStored m email_id [] db h = h
  attempts-IsStored m email_id (attempt ∷ attempts) db h =
      go (services.get_sent attempt email_id)
        (λ db' h'. attempts-IsStored m email_id attempts db' h')
    where
      next : Db → Message × Db
      next db' = hydrate_attempts services now m email_id attempts db'

      go :
          (o : Outcome Failure (String × ℕ))
          → ((db' : Db) → IsStored id db' m → IsStoredIn id (next db'))
          → IsStoredIn id (hydrate_with services now m o next db)
      go (threw f) k = k db h
      go (done (internet_message_id, created_at)) k =
          recorded-IsStored m internet_message_id created_at next db h k

  hydrate-IsStored :
      (m : Message) (db : Db)
      → IsStored id db m
      → IsStoredIn id (hydrate_sent_metadata services now m db)
  unfolding hydrate_sent_metadata
  hydrate-IsStored m db h =
      either
        (is_direct m.kind
          || not (is_accepted m.state)
          || not (is_filled m.resend_email_id)
          || is_filled m.internet_message_id)
        m.resend_email_id
    where
      either :
          (b : Bool) (o : Option String)
          → IsStoredIn id (if b then (m, db) else hydrate_sent services now m o db)
      either true o = h
      either false none = h
      either false (some email_id) = attempts-IsStored m email_id (0 ∷ 1 ∷ 2 ∷ []) db h

  -- The row that a delivery returns is the stored one.
  pub deliver-Shown : (db : Db) → Shown itself id (deliver_pending_message services now id db)
  unfolding deliver_pending_message
  deliver-Shown db = go (services.attachments id db)
    where
      raised :
          (sent : Sent) (o : Option Failure) (db' : Db)
          → IsStored id db' sent.row
          → Shown itself id (raise services now sent o db')
      raised sent (some f) db' h = tt
      raised sent none db' h = hydrate-IsStored sent.row db' h

      after :
          (o : Outcome Fault Sent) (db' : Db)
          → Shown row_of id (o, db')
          → Shown itself id (after_sending services now (o, db'))
      after (threw e) db' h = tt
      after (done sent) db' h = raised sent sent.send_error db' h

      go :
          (o : Outcome Failure (List SendAttachment))
          → Shown itself id (deliver_with services now id o db)
      go (threw f) = tt
      go (done attachments) =
          let r = transaction (send_found services attachments id) db in
          after r.0 r.1 (
            transaction-Shown row_of id (send_found services attachments id) db
              (send-Shown id services attachments db))
