-- ===== src/Attachments/Ingest.antt =====
-- src/lib/attachments/ingest-runtime.ts: fetching the files of received messages. What the provider
-- and the object storage answer is an argument.
pub mod Leases
use resend_conversation_serv.Prelude.{
  ℕ, zero, suc, ◌+◌, ◌-◌, min, String, Bool, true, false, ◌&&◌, ◌||◌, not, Option, none, some, List,
  [], ◌∷◌, ◌++◌, map, ◌==◌, ltb, leb, if◌then◌else◌, holds, null_or_past, is_null, key_le,
  get_elem?, update, count, take, due, is_among,
}
use resend_conversation_serv.Prelude.Text.{Text, codes, decimal}
use resend_conversation_serv.Database.{
  Db, Attachment, AttachmentState, AttachmentSource, pending, stored, inbound,
}
use resend_conversation_serv.Outbox.Policy.{delay_at, short_code}
use resend_conversation_serv.Attachments.Reaper.{LeaseInput, delete_stored_object}

abbrev pub lease_ms : ℕ
lease_ms = 60000

abbrev pub batch_size : ℕ
batch_size = 10

abbrev pub retry_delays_ms : List ℕ
retry_delays_ms = 1000 ∷ 5000 ∷ 30000 ∷ 120000 ∷ 300000 ∷ []

abbrev pub max_attempts : ℕ
max_attempts = 6

pub record ClaimedAttachment : Type 0 where
  pub id : ℕ
  pub resend_email_id : Option String
  pub resend_attachment_id : Option String
  pub storage_key : String
  pub content_type : String
  pub lease_token : ℕ
  pub attempt_count : ℕ

abbrev pub is_pending : AttachmentState → Bool
is_pending pending = true
is_pending _ = false

abbrev pub is_inbound : AttachmentSource → Bool
is_inbound inbound = true
is_inbound _ = false

abbrev pub is_due : LeaseInput → Attachment → Bool
is_due i a =
    is_pending a.state
    && is_inbound a.source
    && not (is_null a.resend_email_id)
    && not (is_null a.resend_attachment_id)
    && leb a.next_attempt_at i.now
    && null_or_past a.lease_until i.now
    && not (i.locked a.id)

abbrev pub due_first : Attachment → Attachment → Bool
due_first a b = key_le (a.next_attempt_at, a.id) (b.next_attempt_at, b.id)

unfoldable pub due_attachments : LeaseInput → List Attachment → List Attachment
unfolding due
due_attachments i rows = due due_first (is_due i) batch_size rows

abbrev pub lease_attachment : LeaseInput → Attachment → Attachment
lease_attachment i a = record a {
  lease_token = some i.token;
  lease_until = some (i.now + lease_ms);
  attempt_count = suc a.attempt_count;
}

abbrev pub claimed_attachment : LeaseInput → Attachment → ClaimedAttachment
claimed_attachment i a = record {
  id = a.id;
  resend_email_id = a.resend_email_id;
  resend_attachment_id = a.resend_attachment_id;
  storage_key = a.storage_key;
  content_type = a.content_type;
  lease_token = i.token;
  attempt_count = suc a.attempt_count;
}

unfoldable pub claim_pending_attachments : LeaseInput → Db → List ClaimedAttachment × Db
unfolding due_attachments
claim_pending_attachments i db =
    let rows = due_attachments i db.attachments in
    (
      map (claimed_attachment i) rows,
      record db {
        attachments =
            update (λ a. is_among (λ x. x.id) rows a.id) (lease_attachment i) db.attachments;
      },
    )

-- What an attempt throws: the file is too large, an Error with a name and a message, or another
-- value.
pub data IngestError : Type 0 where
  too_large : ℕ → IngestError
  named_error : Text → Text → IngestError
  other_value : IngestError

-- What the provider and the storage answer: the metadata, the file and the upload of an attempt.
-- `sha256` is the checksum of the file.
pub data Fetched : Type 0 where
  fetch_failed : IngestError → Fetched
  no_download_url : Fetched
  downloaded : ℕ → String → Option IngestError → Fetched

pub data IngestResult : Type 0 where
  ingested : IngestResult
  ingest_failed : IngestError → IngestResult

abbrev pub owned : ClaimedAttachment → Attachment → Bool
owned claimed a = a.id == claimed.id && holds a.lease_token claimed.lease_token

abbrev pub store_attachment : ℕ → String → Attachment → Attachment
store_attachment size sha256 a = record a {
  state = stored;
  state_detail = none;
  size_bytes = size;
  checksum = some sha256;
  lease_token = none;
  lease_until = none;
  last_error_code = none;
}

-- After the upload: the row, or a tombstone for the object if the lease was lost.
unfoldable pub complete_ingest : ClaimedAttachment → ℕ → String → Db → IngestResult × Db
unfolding delete_stored_object
complete_ingest claimed size sha256 db =
    if count (owned claimed) db.attachments == 1
    then (
      ingested,
      record db {
        attachments = update (owned claimed) (store_attachment size sha256) db.attachments;
      },
    )
    else (
      ingest_failed
          (named_error (codes "Error") (codes "Attachment lease was lost before completion")),
      delete_stored_object claimed.storage_key (record db {
        attachments = update (owned claimed) (store_attachment size sha256) db.attachments;
      }),
    )

abbrev pub upload_body :
    ClaimedAttachment → ℕ → String → Option IngestError → Db → IngestResult × Db
upload_body claimed size sha256 (some e) db = (ingest_failed e, db)
upload_body claimed size sha256 none db = complete_ingest claimed size sha256 db

unfoldable pub ingest : ℕ → ClaimedAttachment → Fetched → Db → IngestResult × Db
unfolding complete_ingest
ingest max_bytes claimed (fetch_failed e) db = (ingest_failed e, db)
ingest max_bytes claimed no_download_url db = (
  ingest_failed (named_error (codes "Error") (codes "Resend attachment is missing a download URL")),
  db,
)
ingest max_bytes claimed (downloaded size sha256 put) db =
    if ltb max_bytes size
    then (ingest_failed (too_large max_bytes), db)
    else upload_body claimed size sha256 put db

unfoldable pub error_code : IngestError → Text
error_code (too_large max_bytes) = codes "AttachmentTooLargeError"
error_code (named_error name message) = short_code name
error_code other_value = codes "ingest_error"

unfoldable pub error_detail : IngestError → Text
unfolding decimal
error_detail (too_large max_bytes) =
    take 1000 (codes "Attachment exceeds " ++ decimal max_bytes ++ codes " bytes")
error_detail (named_error name message) = take 1000 message
error_detail other_value = codes "Unknown ingest error"

abbrev pub is_too_large : IngestError → Bool
is_too_large (too_large max_bytes) = true
is_too_large _ = false

unfoldable pub is_terminal : ClaimedAttachment → IngestError → Bool
is_terminal claimed error = is_too_large error || leb max_attempts claimed.attempt_count

-- RETRY_DELAYS_MS[Math.min(attemptCount - 1, RETRY_DELAYS_MS.length - 1)]. At 0 the index is -1, where
-- the source reads undefined; a claim counts its attempt first, so that this is never asked.
unfoldable pub retry_delay : ℕ → ℕ
retry_delay zero = delay_at none
retry_delay (suc n) = delay_at (get_elem? retry_delays_ms (min n 4))

abbrev pub close_attachment : IngestError → Attachment → Attachment
close_attachment error a = record a {
  state = AttachmentState.failed;
  state_detail = some (error_detail error);
  lease_token = none;
  lease_until = none;
  last_error_code = some (error_code error);
}

abbrev pub release_attachment : ℕ → ClaimedAttachment → IngestError → Attachment → Attachment
release_attachment now claimed error a = record a {
  next_attempt_at = now + retry_delay claimed.attempt_count;
  lease_token = none;
  lease_until = none;
  last_error_code = some (error_code error);
}

pub data FailOutcome : Type 0 where
  failed retry_scheduled : FailOutcome

unfoldable pub fail_attachment : ℕ → ClaimedAttachment → IngestError → Db → FailOutcome × Db
unfolding error_code error_detail is_terminal retry_delay
fail_attachment now claimed error db =
    if is_terminal claimed error
    then (
      failed,
      record db { attachments = update (owned claimed) (close_attachment error) db.attachments },
    )
    else (
      retry_scheduled,
      record db {
        attachments = update (owned claimed) (release_attachment now claimed error) db.attachments;
      },
    )

abbrev pub after_ingest : ℕ → ClaimedAttachment → IngestResult × Db → Bool × Db
after_ingest now claimed (ingested, db) = (true, db)
after_ingest now claimed (ingest_failed error, db) =
    (false, (fail_attachment now claimed error db).1)

-- One claimed attachment in a cycle: whether it was stored, and the database. `meanwhile` is what
-- other transactions do while the file is fetched.
unfoldable pub process : ℕ → ℕ → Fetched → (Db → Db) → ClaimedAttachment → Db → Bool × Db
unfolding ingest fail_attachment
process max_bytes now fetched meanwhile claimed db =
    after_ingest now claimed (ingest max_bytes claimed fetched (meanwhile db))
