-- ===== src/Attachments/Reaper.antt =====
-- src/lib/attachments/reaper.ts: tombstones of stored objects, their claims and retries, and the
-- expiry of uploads that no message uses. The object storage is an argument.
pub mod Keys
use resend_conversation_serv.Prelude.{
  ℕ, zero, suc, ◌+◌, ◌-◌, min, String, Bool, true, false, ◌&&◌, not, Option, none, some, List, [],
  ◌∷◌, ◌++◌, map, ◌==◌, ltb, leb, str_eq, if◌then◌else◌, holds, null_or_past, is_null, key_le,
  Action, Outcome, done, threw, get_elem?, update, delete, count, any, due, is_among,
}
use resend_conversation_serv.Prelude.Text.{Text, codes}
use resend_conversation_serv.Database.{Db, Attachment, Tombstone, Fault}
use resend_conversation_serv.Outbox.Policy.{delay_at, short_code}
use resend_conversation_serv.Attachments.Claim.{is_upload}

abbrev pub lease_ms : ℕ
lease_ms = 60000

abbrev pub batch_size : ℕ
batch_size = 50

abbrev pub retry_delays_ms : List ℕ
retry_delays_ms = 30000 ∷ 120000 ∷ 300000 ∷ 900000 ∷ []

abbrev pub unreferenced_upload_ttl_ms : ℕ
unreferenced_upload_ttl_ms = 86400000

pub record ClaimedTombstone : Type 0 where
  pub id : ℕ
  pub storage_key : String
  pub lease_token : ℕ
  pub attempt_count : ℕ

-- The new lease token, the time, and the rows that FOR UPDATE SKIP LOCKED skips.
pub record LeaseInput : Type 0 where
  pub token : ℕ
  pub now : ℕ
  pub locked : ℕ → Bool

abbrev pub new_tombstone : ℕ → ℕ → String → Tombstone
new_tombstone id now storage_key = record {
  id = id;
  storage_key = storage_key;
  attempt_count = 0;
  next_attempt_at = now;
  lease_token = none;
  lease_until = none;
  last_error_code = none;
}

abbrev pub has_key : String → Tombstone → Bool
has_key storage_key t = str_eq t.storage_key storage_key

-- Also what the trigger on deleted attachments does: ON CONFLICT DO NOTHING.
unfoldable pub delete_stored_object : String → Db → Db
delete_stored_object storage_key db =
    if any (has_key storage_key) db.tombstones then db else record db {
      tombstones = db.tombstones ++ new_tombstone (db.uuid db.drawn) db.now storage_key ∷ [];
      drawn = suc db.drawn;
    }

abbrev pub is_expired : ℕ → Attachment → Bool
is_expired now a =
    is_upload a.source
    && is_null a.message_id
    && ltb a.created_at (now - unreferenced_upload_ttl_ms)

-- The trigger, for each deleted row.
unfoldable pub tombstone_rows : (Attachment → Bool) → List Attachment → Db → Db
unfolding delete_stored_object
tombstone_rows p [] db = db
tombstone_rows p (a ∷ rows) db =
    tombstone_rows p rows (if p a then delete_stored_object a.storage_key db else db)

unfoldable pub expire_unreferenced_uploads : ℕ → Db → ℕ × Db
unfolding tombstone_rows
expire_unreferenced_uploads now db =
    let queued = tombstone_rows (is_expired now) db.attachments db in
    (
      count (is_expired now) db.attachments,
      record queued { attachments = delete (is_expired now) db.attachments },
    )

abbrev pub is_due : LeaseInput → Tombstone → Bool
is_due i t = leb t.next_attempt_at i.now && null_or_past t.lease_until i.now && not (i.locked t.id)

abbrev pub due_first : Tombstone → Tombstone → Bool
due_first a b = key_le (a.next_attempt_at, a.id) (b.next_attempt_at, b.id)

unfoldable pub due_tombstones : LeaseInput → List Tombstone → List Tombstone
unfolding due
due_tombstones i rows = due due_first (is_due i) batch_size rows

abbrev pub lease_tombstone : LeaseInput → Tombstone → Tombstone
lease_tombstone i t = record t {
  lease_token = some i.token;
  lease_until = some (i.now + lease_ms);
  attempt_count = suc t.attempt_count;
}

abbrev pub claimed_tombstone : LeaseInput → Tombstone → ClaimedTombstone
claimed_tombstone i t = record {
  id = t.id;
  storage_key = t.storage_key;
  lease_token = i.token;
  attempt_count = suc t.attempt_count;
}

unfoldable pub claim_tombstones : LeaseInput → Db → List ClaimedTombstone × Db
unfolding due_tombstones
claim_tombstones i db =
    let rows = due_tombstones i db.tombstones in
    (
      map (claimed_tombstone i) rows,
      record db {
        tombstones = update (λ t. is_among (λ x. x.id) rows t.id) (lease_tombstone i) db.tombstones;
      },
    )

abbrev pub owned : ClaimedTombstone → Tombstone → Bool
owned claimed t = t.id == claimed.id && holds t.lease_token claimed.lease_token

-- RETRY_DELAYS_MS[Math.min(attemptCount - 1, RETRY_DELAYS_MS.length - 1)]. At 0 the index is -1, where
-- the source reads undefined; a claim counts its attempt first, so that this is never asked.
unfoldable pub retry_delay : ℕ → ℕ
retry_delay zero = delay_at none
retry_delay (suc n) = delay_at (get_elem? retry_delays_ms (min n 3))

-- What deleting an object does: the key is gone, or was, or an error with this code is thrown
-- (`delete_error` where the thrown value is no Error).
pub data Deletion : Type 0 where
  removed not_found : Deletion
  refused : Text → Deletion

abbrev pub release_tombstone : ℕ → ℕ → Text → Tombstone → Tombstone
release_tombstone now attempt_count error_code t = record t {
  next_attempt_at = now + retry_delay attempt_count;
  lease_token = none;
  lease_until = none;
  last_error_code = some (short_code error_code);
}

unfoldable pub retry_tombstone : ℕ → ClaimedTombstone → Text → Db → Db
retry_tombstone now claimed error_code db = record db {
  tombstones =
      update (owned claimed) (release_tombstone now claimed.attempt_count error_code) db.tombstones;
}

abbrev pub drop_tombstone : ClaimedTombstone → Db → Db
drop_tombstone claimed db = record db { tombstones = delete (owned claimed) db.tombstones }

pub record ReapResult : Type 0 where
  pub expired : ℕ
  pub deleted : ℕ
  pub retry_scheduled : ℕ

abbrev pub reap_one : ℕ → ClaimedTombstone → Deletion → ReapResult × Db → ReapResult × Db
reap_one now claimed (refused code) (r, db) =
    (record r { retry_scheduled = suc r.retry_scheduled }, retry_tombstone now claimed code db)
reap_one now claimed removed (r, db) =
    (record r { deleted = suc r.deleted }, drop_tombstone claimed db)
reap_one now claimed not_found (r, db) =
    (record r { deleted = suc r.deleted }, drop_tombstone claimed db)

-- for (const tombstone of await claimTombstones(…)); `now` is the time of the retries.
unfoldable pub reap_all :
    (String → Deletion) → ℕ → List ClaimedTombstone → ReapResult × Db → ReapResult × Db
unfolding retry_tombstone
reap_all storage now [] s = s
reap_all storage now (t ∷ ts) s = reap_all storage now ts (reap_one now t (storage t.storage_key) s)

-- One cycle of an enabled, idle reaper in which the database does not fail. `expired_at` and `now`
-- are the times of the expiry and of the retries.
unfoldable pub drain : (String → Deletion) → ℕ → LeaseInput → ℕ → Db → ReapResult × Db
unfolding expire_unreferenced_uploads claim_tombstones reap_all
drain storage expired_at i now db =
    let (expired, db₁) = expire_unreferenced_uploads expired_at db in
    let (claimed, db₂) = claim_tombstones i db₁ in
    reap_all storage now claimed
      (record { expired = expired; deleted = 0; retry_scheduled = 0 }, db₂)
