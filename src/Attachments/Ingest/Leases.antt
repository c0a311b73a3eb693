-- ===== src/Attachments/Ingest/Leases.antt =====
-- The leases of the attachments to fetch: who may claim one, how an attempt ends its own, and what an
-- attempt that has lost it leaves.
use resend_conversation_serv.Prelude.{
  ℕ, ◌+◌, ◌<◌, String, ◌≡◌, inl, inr, refl, Bool, true, false, none, some, List, [], ◌∷◌, arith,
  Bool-cases, All, update, update-none, any, count, ltb, ◌==◌, is_among, due-excludes, lease-Held,
  ◌++◌, eq_iff,
}
use resend_conversation_serv.Database.{Db, Attachment, Tombstone}
use resend_conversation_serv.Attachments.Reaper.{
  LeaseInput, delete_stored_object, has_key, new_tombstone,
}
use resend_conversation_serv.Attachments.Ingest.{
  ClaimedAttachment, IngestError, Fetched, IngestResult, ingested, ingest_failed, lease_ms,
  due_attachments, claim_pending_attachments, is_due, due_first, batch_size, lease_attachment,
  owned, store_attachment, complete_ingest, ingest, fail_attachment, is_terminal, close_attachment,
  release_attachment, process, after_ingest,
}

abbrev attachment_id : Attachment → ℕ
attachment_id a = a.id

-- Once a worker has claimed attachments, a claim made before its lease ends, while nothing else
-- writes to the table, takes none of them.
pub claim_pending-excludes :
    (i j : LeaseInput) (db : Db)
    → j.now < i.now + 60000
    → All
        (λ a. is_among (λ x. x.id) (due_attachments i db.attachments) a.id ≡ false)
        (due_attachments j (claim_pending_attachments i db).1.attachments)
unfolding claim_pending_attachments due_attachments
claim_pending-excludes i j db before =
    due-excludes (λ a. a.id) (λ a. a.lease_until) due_first (is_due j) batch_size j.now
      (i.now + lease_ms) (due_attachments i db.attachments)
      (claim_pending_attachments i db).1.attachments (λ a h. ground arith) before
      (lease-Held (λ a. a.id) (λ a. a.lease_until) (lease_attachment i)
        (due_attachments i db.attachments) (i.now + lease_ms) db.attachments (λ a. refl))

update-clears :
    (p : Attachment → Bool) (f : Attachment → Attachment) (rows : List Attachment)
    → ((a : Attachment) → p (f a) ≡ false)
    → All (λ a. p a ≡ false) (update p f rows)
update-clears p f [] h = tt
update-clears p f (a ∷ rows) h = elim (Bool-cases (p a)) [
  | inl e ↦ rw e (h a, update-clears p f rows h)
  | inr e ↦ rw e (e, update-clears p f rows h)
]

abbrev Released : ClaimedAttachment → Db → Type 0
Released claimed db = All (λ a. owned claimed a ≡ false) db.attachments

fail-Released :
    (now : ℕ) (claimed : ClaimedAttachment) (error : IngestError) (db : Db)
    → Released claimed (fail_attachment now claimed error db).1
unfolding fail_attachment
fail-Released now claimed error db = elim (Bool-cases (is_terminal claimed error)) [
  | inl e ↦
      rw e
        (update-clears (owned claimed) (close_attachment error) db.attachments (λ a. ground arith))
  | inr e ↦ rw e (
      update-clears (owned claimed) (release_attachment now claimed error) db.attachments
        (λ a. ground arith))
]

after-Released :
    (now : ℕ) (claimed : ClaimedAttachment) (r : IngestResult) (db : Db)
    → (r ≡ ingested → Released claimed db)
    → Released claimed (after_ingest now claimed (r, db)).1
after-Released now claimed ingested db h = h refl
after-Released now claimed (ingest_failed error) db h = fail-Released now claimed error db

complete-Released :
    (claimed : ClaimedAttachment) (size : ℕ) (sha256 : String) (db : Db)
    → (complete_ingest claimed size sha256 db).0 ≡ ingested
    → Released claimed (complete_ingest claimed size sha256 db).1
unfolding complete_ingest
complete-Released claimed size sha256 db h =
    elim (Bool-cases (count (owned claimed) db.attachments == 1)) [
      | inl e ↦ rw e (
          update-clears (owned claimed) (store_attachment size sha256) db.attachments
            (λ a. ground arith))
      | inr e ↦ absurd (ground arith)
    ]

ingest-Released :
    (max_bytes : ℕ) (claimed : ClaimedAttachment) (fetched : Fetched) (db : Db)
    → (ingest max_bytes claimed fetched db).0 ≡ ingested
    → Released claimed (ingest max_bytes claimed fetched db).1
unfolding ingest
ingest-Released max_bytes claimed (Fetched.fetch_failed e) db h = cc
ingest-Released max_bytes claimed Fetched.no_download_url db h = cc
ingest-Released max_bytes claimed (Fetched.downloaded size sha256 (some e)) db h =
    absurd (ground arith)
ingest-Released max_bytes claimed (Fetched.downloaded size sha256 none) db h =
    elim (Bool-cases (ltb max_bytes size)) [
      | inl e ↦ absurd (ground arith)
      | inr e ↦ rw e (complete-Released claimed size sha256 db (rw e at h))
    ]

-- However an attempt ends (stored, failed for good, or to be tried again), and whatever other
-- transactions do while the file is fetched, afterwards no row holds the attempt's lease.
pub process-Released :
    (max_bytes now : ℕ) (fetched : Fetched) (meanwhile : Db → Db) (claimed : ClaimedAttachment)
    (db : Db)
    → All
        (λ a. owned claimed a ≡ false)
        (process max_bytes now fetched meanwhile claimed db).1.attachments
unfolding process
process-Released max_bytes now fetched meanwhile claimed db =
    let r = ingest max_bytes claimed fetched (meanwhile db) in
    after-Released now claimed r.0 r.1 (ingest-Released max_bytes claimed fetched (meanwhile db))

any-has_key-snoc :
    (k : String) (rows : List Tombstone) (t : Tombstone)
    → t.storage_key ≡ k
    → any (has_key k) (rows ++ t ∷ []) ≡ true
any-has_key-snoc k [] t h = let e = (eq_iff t.storage_key k).1 h in rw e refl
any-has_key-snoc k (x ∷ rows) t h = let ih = any-has_key-snoc k rows t h in ground arith

tombstoned : (k : String) (db : Db) → any (has_key k) (delete_stored_object k db).tombstones ≡ true
unfolding delete_stored_object
tombstoned k db = elim (Bool-cases (any (has_key k) db.tombstones)) [
  | inl e ↦ rw e e
  | inr e ↦ rw e (any-has_key-snoc k db.tombstones (new_tombstone (db.uuid db.drawn) db.now k) refl)
]

same-attachments : (k : String) (db : Db) → (delete_stored_object k db).attachments ≡ db.attachments
unfolding delete_stored_object
same-attachments k db = elim (Bool-cases (any (has_key k) db.tombstones)) [
  | inl e ↦ rw e refl
  | inr e ↦ rw e refl
]

-- When no row holds the attempt's lease any more (another worker took the row over), an attempt that
-- has uploaded its file changes no row, whatever the row's state, but queues the object under the
-- row's storage key for deletion.
pub complete-lease_lost :
    (claimed : ClaimedAttachment) (size : ℕ) (sha256 : String) (db : Db)
    → count (owned claimed) db.attachments ≡ 0
    → ((complete_ingest claimed size sha256 db).1.attachments ≡ db.attachments)
      × (any (has_key claimed.storage_key) (complete_ingest claimed size sha256 db).1.tombstones
          ≡ true)
unfolding complete_ingest
complete-lease_lost claimed size sha256 db h =
    rw (h, update-none (owned claimed) (store_attachment size sha256) db.attachments h)
      (same-attachments claimed.storage_key db, tombstoned claimed.storage_key db)
