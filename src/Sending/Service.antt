-- ===== src/Sending/Service.antt =====
-- src/lib/conversation-service.ts: sending a pending message at once, and recovering one that was
-- left pending. The provider is an argument, from composing the mail to its answer; `describe` gives
-- the error object of what the database functions throw.
use resend_conversation_serv.Prelude.{
  ℕ, ◌+◌, String, Bool, true, false, ◌&&◌, ◌||◌, not, Option, none, some, List, [], ◌∷◌, leb, ◌==◌,
  str_eq, take, if◌then◌else◌, Action, Outcome, done, threw, pure, throw, ◌>>=◌, ◌>>◌, transaction,
  update, find,
}
use resend_conversation_serv.Prelude.Text.{Text, codes}
use resend_conversation_serv.Prelude.Text.Search.{starts_with}
use resend_conversation_serv.Database.{
  Db, Message, MessageState, MessageKind, direct_kind, unknown, accepted, indeterminate, is_pending,
  is_outbound, Direction, Sink, Payload, Fault, record_not_found,
}
use resend_conversation_serv.Delivery.{project_outbound_delivery_state}
use resend_conversation_serv.Email.Conversations.{
  message_has_id, record_outbound_internet_message_id,
}
use resend_conversation_serv.Attachments.Claim.{SendAttachment}

-- A thrown value: whether it is a ResendApiError, and its message where it is an Error.
pub record Failure : Type 0 where
  pub is_api_error : Bool
  pub message : Option Text

pub record Services : Type 0 where
  pub attachments : ℕ → Db → Outcome Failure (List SendAttachment)
  pub send : Message → List SendAttachment → Outcome Failure String
  pub get_sent : ℕ → String → Outcome Failure (String × ℕ)
  pub describe : Fault → Failure
  pub sinks : List Sink

abbrev pub known_message : Option Text → Bool
known_message none = false
known_message (some s) = starts_with (codes "Missing RESEND_API_KEY") s

abbrev pub is_known_failure : Failure → Bool
is_known_failure f = f.is_api_error || known_message f.message

abbrev pub failure_detail : Option Text → Text
failure_detail none = codes "Unknown error"
failure_detail (some s) = take 1000 s

abbrev pub accept_as : String → Message → Message
accept_as id m = record m {
  state = accepted;
  state_detail = none;
  delivery_state = some unknown;
  resend_email_id = some id;
}

abbrev pub close_as : Failure → Message → Message
close_as f m = record m {
  state = if is_known_failure f then MessageState.failed else indeterminate;
  state_detail = some (failure_detail f.message);
}

-- `findUniqueOrThrow`
abbrev pub found_or_throw : Option Message → Action Db Fault Message
found_or_throw none = throw record_not_found
found_or_throw (some m) = pure m

abbrev pub find_message : ℕ → Action Db Fault Message
find_message id db = found_or_throw (find (message_has_id id) db.messages) db

-- `emailMessage.update`
abbrev pub write_message : ℕ → (Message → Message) → Action Db Fault (Unit {0})
write_message id f db = (done tt, record db { messages = update (message_has_id id) f db.messages })

abbrev pub update_message : ℕ → (Message → Message) → Action Db Fault Message
update_message id f = do find_message id; write_message id f; find_message id

abbrev pub missing_key : Failure
missing_key = record {
  is_api_error = false;
  message = some (codes "Pending message is missing an idempotency key");
}

-- A text that is there and not empty.
abbrev pub is_filled : Option String → Bool
is_filled none = false
is_filled (some k) = not (str_eq k "")

abbrev pub attempt_send : Services → List SendAttachment → Message → Outcome Failure String
attempt_send services attachments m =
    if is_filled m.idempotency_key then services.send m attachments else threw missing_key

abbrev pub record_accepted : Services → ℕ → String → Action Db Fault (Option Payload)
record_accepted services id email_id = do
  update_message id (accept_as email_id)
  project_outbound_delivery_state services.sinks email_id

-- The row that the transaction returns, and the error that it remembers.
pub record Sent : Type 0 where
  pub row : Message
  pub send_error : Option Failure

abbrev pub closed_with : Failure → Message → Sent
closed_with f m = record { row = m; send_error = some f }

abbrev pub record_failure : ℕ → Failure → Action Db Fault Sent
record_failure id f = do m ← update_message id (close_as f); pure (closed_with f m)

abbrev pub sent_without_error : Message → Sent
sent_without_error m = record { row = m; send_error = none }

abbrev pub read_sent : ℕ → Action Db Fault Sent
read_sent id = do m ← find_message id; pure (sent_without_error m)

-- `try { … } catch`: what was written before the exception stays written. The row is read by a
-- promise that the `try` returns, so that its failure is not caught.
abbrev pub or_record_failure :
    Services → ℕ → Outcome Fault (Option Payload) × Db → Outcome Fault Sent × Db
or_record_failure services id (done event, db) = read_sent id db
or_record_failure services id (threw e, db) = record_failure id (services.describe e) db

abbrev pub settle : Services → ℕ → Outcome Failure String → Action Db Fault Sent
settle services id (threw f) db = record_failure id f db
settle services id (done email_id) db =
    or_record_failure services id (record_accepted services id email_id db)

abbrev pub send_if_pending : Services → List SendAttachment → Message → Action Db Fault Sent
send_if_pending services attachments m =
    if is_pending m.state
    then settle services m.id (attempt_send services attachments m)
    else pure (sent_without_error m)

abbrev pub send_found : Services → List SendAttachment → ℕ → Action Db Fault Sent
send_found services attachments id = do m ← find_message id; send_if_pending services attachments m

abbrev pub is_direct : MessageKind → Bool
is_direct direct_kind = true
is_direct _ = false

abbrev pub is_accepted : MessageState → Bool
is_accepted accepted = true
is_accepted _ = false

-- The attempts that are left, of the three delays.
abbrev pub recorded_or : Outcome Fault Message × Db → (Db → Message × Db) → Message × Db
recorded_or (done m, db) next = (m, db)
recorded_or (threw e, db) next = next db

abbrev pub hydrate_with :
    Services → ℕ → Message → Outcome Failure (String × ℕ) → (Db → Message × Db) → Db → Message × Db
hydrate_with services now m (threw f) next db = next db
hydrate_with services now m (done (internet_message_id, created_at)) next db =
    recorded_or
      (record_outbound_internet_message_id services.sinks now m.id internet_message_id
        (some created_at) db)
      next

unfoldable pub hydrate_attempts : Services → ℕ → Message → String → List ℕ → Db → Message × Db
hydrate_attempts services now m email_id [] db = (m, db)
hydrate_attempts services now m email_id (attempt ∷ attempts) db =
    hydrate_with services now m (services.get_sent attempt email_id)
      (λ db'. hydrate_attempts services now m email_id attempts db') db

abbrev pub hydrate_sent : Services → ℕ → Message → Option String → Db → Message × Db
hydrate_sent services now m none db = (m, db)
hydrate_sent services now m (some email_id) db =
    hydrate_attempts services now m email_id (0 ∷ 1 ∷ 2 ∷ []) db

unfoldable pub hydrate_sent_metadata : Services → ℕ → Message → Db → Message × Db
unfolding hydrate_attempts
hydrate_sent_metadata services now m db =
    if is_direct m.kind
      || not (is_accepted m.state)
      || not (is_filled m.resend_email_id)
      || is_filled m.internet_message_id
    then (m, db)
    else hydrate_sent services now m m.resend_email_id db

abbrev pub raise : Services → ℕ → Sent → Option Failure → Db → Outcome Failure Message × Db
raise services now sent (some f) db = (threw f, db)
raise services now sent none db =
    let (m, db') = hydrate_sent_metadata services now sent.row db in (done m, db')

abbrev pub after_sending : Services → ℕ → Outcome Fault Sent × Db → Outcome Failure Message × Db
after_sending services now (threw e, db) = (threw (services.describe e), db)
after_sending services now (done sent, db) = raise services now sent sent.send_error db

abbrev pub deliver_with :
    Services → ℕ → ℕ → Outcome Failure (List SendAttachment) → Action Db Failure Message
deliver_with services now id (threw f) db = (threw f, db)
deliver_with services now id (done attachments) db =
    after_sending services now (transaction (send_found services attachments id) db)

unfoldable pub deliver_pending_message : Services → ℕ → ℕ → Action Db Failure Message
unfolding hydrate_sent_metadata
deliver_pending_message services now id db =
    deliver_with services now id (services.attachments id db) db

-- 23 hours.
abbrev pub recovery_window_ms : ℕ
recovery_window_ms = 82800000

abbrev pub is_stale : ℕ → Message → Bool
is_stale now m = leb (m.created_at + recovery_window_ms) now

abbrev pub give_up : Message → Message
give_up m = record m {
  state = indeterminate;
  state_detail = some (codes "Pending send exceeded the provider idempotency window");
}

abbrev pub expire_pending : ℕ → Action Db Fault (Unit {0})
expire_pending id db = (
  done tt,
  record db { messages = update (λ m. m.id == id && is_pending m.state) give_up db.messages },
)

abbrev pub or_find : ℕ → Outcome Failure Message × Db → Outcome Fault Message × Db
or_find id (done m, db) = (done m, db)
or_find id (threw f, db) = find_message id db

abbrev pub recover_found : Services → ℕ → Message → Action Db Fault Message
recover_found services now m db =
    if not (is_pending m.state)
    then (done m, db)
    else if is_stale now m
    then (expire_pending m.id >> find_message m.id) db
    else or_find m.id (deliver_pending_message services now m.id db)

unfoldable pub recover_pending_message : Services → ℕ → ℕ → Action Db Fault Message
unfolding deliver_pending_message
recover_pending_message services now id = do m ← find_message id; recover_found services now m

abbrev pub set_internet_message_id : String → Message → Message
set_internet_message_id internet_message_id m = record m {
  internet_message_id = some internet_message_id;
}

-- The write of an identifier that was retrieved; `at` is the mail's creation time.
abbrev pub store_retrieved : Services → ℕ → Message → String → ℕ → Action Db Fault Message
store_retrieved services now m internet_message_id at =
    if is_outbound m.direction
    then record_outbound_internet_message_id services.sinks now m.id internet_message_id (some at)
    else update_message m.id (set_internet_message_id internet_message_id)

abbrev pub identifier_stored :
    Services → String → Outcome Fault Message × Db → Outcome Failure (Option String) × Db
identifier_stored services internet_message_id (done m, db) = (done (some internet_message_id), db)
identifier_stored services internet_message_id (threw e, db) = (threw (services.describe e), db)

abbrev pub ensure_retrieved :
    Services → ℕ → Message → Outcome Failure (String × ℕ) → Action Db Failure (Option String)
ensure_retrieved services now m (threw f) db = (threw f, db)
ensure_retrieved services now m (done (internet_message_id, at)) db =
    identifier_stored services internet_message_id
      (store_retrieved services now m internet_message_id at db)

abbrev pub ensure_with :
    Services
    → (Direction → String → Outcome Failure (String × ℕ))
    → ℕ
    → Message
    → Option String
    → Action Db Failure (Option String)
ensure_with services retrieve now m none db = (done m.internet_message_id, db)
ensure_with services retrieve now m (some email_id) db =
    if is_filled m.internet_message_id || not (is_filled (some email_id))
    then (done m.internet_message_id, db)
    else ensure_retrieved services now m (retrieve m.direction email_id) db

abbrev pub ensure_found :
    Services
    → (Direction → String → Outcome Failure (String × ℕ))
    → ℕ
    → Option Message
    → Action Db Failure (Option String)
ensure_found services retrieve now none db = (threw (services.describe record_not_found), db)
ensure_found services retrieve now (some m) db =
    ensure_with services retrieve now m m.resend_email_id db

-- `retrieve` asks the provider for a mail, received or sent.
unfoldable pub ensure_internet_message_id :
    Services
    → (Direction → String → Outcome Failure (String × ℕ))
    → ℕ
    → ℕ
    → Action Db Failure (Option String)
ensure_internet_message_id services retrieve now id db =
    ensure_found services retrieve now (find (message_has_id id) db.messages) db
