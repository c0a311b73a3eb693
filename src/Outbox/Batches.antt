-- ===== src/Outbox/Batches.antt =====
-- src/lib/outbox-service.ts: claiming a batch of queued messages, sending it, and settling it. The
-- clock readings, the new lease token and the rows locked by other transactions are arguments.
pub mod Settle
pub mod Lease
pub mod Progress
pub mod Accounting
pub mod Drain
pub mod Absorbed
pub mod Endings
pub mod Exclusive
use resend_conversation_serv.Prelude.{
  ℕ, suc, ◌+◌, String, Bool, true, false, ◌&&◌, ◌||◌, not, Option, none, some, List, [], ◌∷◌, ◌++◌,
  map, ◌==◌, leb, ltb, if◌then◌else◌, holds, null_or_past, is_null, key_le, Action, Outcome, done,
  threw, pure, throw, transaction, ◌>>=◌, ◌>>◌, length, take, select, update, delete, count, find,
  any, order_by,
}
use resend_conversation_serv.Prelude.Text.{Text}
use resend_conversation_serv.Database.{
  Db, Message, MessageState, Batch, Entry, is_pending, Fault, invalid_message_state,
  record_not_found,
}
use resend_conversation_serv.Outbox.Policy.{outbox_lease_ms}

pub record ClaimedBatch : Type 0 where
  pub id : ℕ
  pub lease_token : ℕ
  pub attempt_count : ℕ
  pub first_attempt_at : ℕ
  pub messages : List Message

-- What a claim is given: the batch size, the new lease token, the time, and the rows that
-- FOR UPDATE SKIP LOCKED skips.
pub record ClaimInput : Type 0 where
  pub limit : ℕ
  pub token : ℕ
  pub now : ℕ
  pub batch_locked : ℕ → Bool
  pub entry_locked : ℕ → Bool

abbrev pub message_has_id : ℕ → Message → Bool
message_has_id id m = m.id == id

-- An unassigned entry whose message is no longer PENDING.
abbrev pub is_stale : List Message → Entry → Bool
is_stale messages e =
    is_null e.batch_id && any (λ m. m.id == e.message_id && not (is_pending m.state)) messages

abbrev pub delete_stale : Db → Db
delete_stale db = record db { entries = delete (is_stale db.messages) db.entries }

-- `next_attempt_at <= now AND (lease_until IS NULL OR lease_until <= now)`
abbrev pub is_ready : ClaimInput → Batch → Bool
is_ready i b =
    leb b.next_attempt_at i.now && null_or_past b.lease_until i.now && not (i.batch_locked b.id)

abbrev pub head? : List Batch → Option Batch
head? [] = none
head? (b ∷ bs) = some b

unfoldable pub retryable_batch : ClaimInput → List Batch → Option Batch
retryable_batch i batches = head? (
    order_by (λ a b. key_le (a.next_attempt_at, a.id) (b.next_attempt_at, b.id))
      (select (is_ready i) batches))

abbrev pub is_queued : ClaimInput → List Message → Entry → Bool
is_queued i messages e =
    is_null e.batch_id
    && any (λ m. m.id == e.message_id && is_pending m.state) messages
    && not (i.entry_locked e.message_id)

unfoldable pub queued_entries : ClaimInput → Db → List Entry
queued_entries i db = take i.limit (
    order_by (λ a b. key_le (a.queued_at, a.message_id) (b.queued_at, b.message_id))
      (select (is_queued i db.messages) db.entries))

-- The VALUES list of assignments: the position of a message among the chosen entries.
abbrev pub position_of : ℕ → List Entry → ℕ → Option ℕ
position_of id [] n = none
position_of id (e ∷ es) n =
    let rest = position_of id es (suc n) in if e.message_id == id then some n else rest

abbrev pub is_assigned : List Entry → Entry → Bool
is_assigned chosen e = not (is_null (position_of e.message_id chosen 0)) && is_null e.batch_id

abbrev pub assign : ℕ → List Entry → Entry → Entry
assign batch_id chosen e = record e {
  batch_id = some batch_id;
  batch_position = position_of e.message_id chosen 0;
}

abbrev pub new_batch : ClaimInput → ℕ → ℕ → Batch
new_batch i id now = record {
  id = id;
  next_attempt_at = now;
  first_attempt_at = some i.now;
  attempt_count = 1;
  lease_token = some i.token;
  lease_until = some (i.now + outbox_lease_ms);
  last_error_code = none;
}

abbrev pub batch_has_id : ℕ → Batch → Bool
batch_has_id id b = b.id == id

abbrev pub lease_batch : ClaimInput → Batch → Batch
lease_batch i b = record b {
  lease_token = some i.token;
  lease_until = some (i.now + outbox_lease_ms);
  attempt_count = suc b.attempt_count;
  last_error_code = none;
}

-- The identifier of the batch to send, and the tables with its lease; `none` where nothing is due.
abbrev pub lease_existing : ClaimInput → Batch → Db → Option ℕ × Db
lease_existing i b db =
    (some b.id, record db { batches = update (batch_has_id b.id) (lease_batch i) db.batches })

abbrev pub lease_new : ClaimInput → List Entry → Db → Option ℕ × Db
lease_new i [] db = (none, db)
lease_new i (e ∷ es) db =
    let id = db.uuid db.drawn in
    (
      some id,
      record db {
        batches = db.batches ++ new_batch i id db.now ∷ [];
        entries = update (is_assigned (e ∷ es)) (assign id (e ∷ es)) db.entries;
        drawn = suc db.drawn;
      },
    )

abbrev pub lease_existing_or_new : ClaimInput → Option Batch → List Entry → Db → Option ℕ × Db
lease_existing_or_new i (some b) chosen db = lease_existing i b db
lease_existing_or_new i none chosen db = lease_new i chosen db

-- ORDER BY batch_position ASC; PostgreSQL puts NULL last.
abbrev pub position_le : Option ℕ → Option ℕ → Bool
position_le a none = true
position_le none (some b) = false
position_le (some a) (some b) = leb a b

abbrev pub in_batch : ℕ → Entry → Bool
in_batch id e = holds e.batch_id id

unfoldable pub batch_entries : ℕ → List Entry → List Entry
batch_entries id entries =
    order_by (λ a b. position_le a.batch_position b.batch_position) (select (in_batch id) entries)

-- `include: { message: true }`; the foreign key gives every entry its message.
abbrev pub entry_messages : List Message → List Entry → List Message
entry_messages messages [] = []
entry_messages messages (e ∷ es) =
    let rest = entry_messages messages es in
    elim (find (message_has_id e.message_id) messages) [ none ↦ rest | some m ↦ m ∷ rest ]

-- The committed row, read back with its messages, and the check that follows the transaction.
abbrev pub checked_batch :
    ClaimInput → Batch → Option ℕ → List Message → Outcome Fault (Option ClaimedBatch)
checked_batch i b none messages = threw invalid_message_state
checked_batch i b (some first) messages =
    if any (λ m. not (is_pending m.state)) messages
    then threw invalid_message_state
    else done (
        some (record {
          id = b.id;
          lease_token = i.token;
          attempt_count = b.attempt_count;
          first_attempt_at = first;
          messages = messages;
        }))

abbrev pub read_batch : ClaimInput → Db → Option Batch → Outcome Fault (Option ClaimedBatch)
read_batch i db none = threw record_not_found
read_batch i db (some b) =
    checked_batch i b b.first_attempt_at
      (entry_messages db.messages (batch_entries b.id db.entries))

abbrev pub read_claimed : ClaimInput → Option ℕ × Db → Outcome Fault (Option ClaimedBatch)
read_claimed i (none, db) = done none
read_claimed i (some id, db) = read_batch i db (find (batch_has_id id) db.batches)

-- The transaction's writes. Its reads cannot fail, so it commits.
unfoldable pub lease_tables : ClaimInput → Db → Option ℕ × Db
unfolding retryable_batch queued_entries
lease_tables i db =
    let cleaned = delete_stale db in
    lease_existing_or_new i (retryable_batch i cleaned.batches) (queued_entries i cleaned) cleaned

unfoldable pub claim_outbox_batch : ClaimInput → Action Db Fault (Option ClaimedBatch)
unfolding lease_tables
claim_outbox_batch i db = let leased = lease_tables i db in (read_claimed i leased, leased.1)
