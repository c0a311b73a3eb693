-- ===== src/Examples/Files.antt =====
-- The theorems on attachments, at concrete tables.
use resend_conversation_serv.Prelude.{
  ◌≡◌, ◌⊎◌, refl, none, some, [], ◌∷◌, arith, done, threw, true, false, All, any, is_among,
}
use resend_conversation_serv.Database.{
  Db, empty_db, Attachment, pending, stored, upload, inbound, attachment_claim_refused,
}
use resend_conversation_serv.Attachments.Claim.{
  AttachmentRef, AttachmentConfig, claim_attachments_for_message, total_size, bind_rows,
  set_content_ids,
}
use resend_conversation_serv.Attachments.Claim.Exclusive.{claim-excludes}
use resend_conversation_serv.Attachments.Reaper.{
  due_tombstones, claim_tombstones, expire_unreferenced_uploads, has_key, new_tombstone,
}
use resend_conversation_serv.Attachments.Reaper.Keys.{
  claim_tombstones-excludes, Row, Abandoned, expire-queues,
}
use resend_conversation_serv.Attachments.Ingest.{
  ClaimedAttachment, Fetched, due_attachments, claim_pending_attachments, owned, complete_ingest,
  process,
}
use resend_conversation_serv.Attachments.Ingest.Leases.{
  claim_pending-excludes, process-Released, complete-lease_lost,
}
use resend_conversation_serv.Examples.Data.{file, generated, lease_at}

abbrev files_db : Db
files_db = record (empty_db generated 1000) {
  attachments = file 5 upload stored ∷ file 6 inbound pending ∷ [];
  tombstones = new_tombstone 30 100 "files/old" ∷ [];
}

abbrev config : AttachmentConfig
config = record { enabled = true; max_total_bytes = 100 }

abbrev ref : AttachmentRef
ref = record { id = 5; content_id = some "logo" }

claimed_once : (claim_attachments_for_message config 1 (ref ∷ []) files_db).0 ≡ done 1
unfolding claim_attachments_for_message total_size bind_rows set_content_ids
claimed_once = refl

claim-excludes_example :
    (claim_attachments_for_message config 2
      (ref ∷ [])
      (claim_attachments_for_message config 1 (ref ∷ []) files_db).1).0
    ≡ threw attachment_claim_refused
claim-excludes_example =
    claim-excludes config 1 2 5 (ref ∷ []) (ref ∷ []) files_db 1
      ((((λ e. omega arith), tt), (tt, tt))) claimed_once refl refl

claim_pending-excludes_example :
    All
      (λ a.
        is_among (λ x. x.id) (due_attachments (lease_at 7 1000) files_db.attachments) a.id ≡ false)
      (due_attachments
        (lease_at 8 2000)
        (claim_pending_attachments (lease_at 7 1000) files_db).1.attachments)
claim_pending-excludes_example =
    claim_pending-excludes (lease_at 7 1000) (lease_at 8 2000) files_db (omega arith)

claim_tombstones-excludes_example :
    All
      (λ t.
        is_among (λ x. x.id) (due_tombstones (lease_at 7 1000) files_db.tombstones) t.id ≡ false)
      (due_tombstones (lease_at 8 2000) (claim_tombstones (lease_at 7 1000) files_db).1.tombstones)
claim_tombstones-excludes_example =
    claim_tombstones-excludes (lease_at 7 1000) (lease_at 8 2000) files_db (omega arith)

expire-queues_example :
    All
      (λ a.
        Row a (expire_unreferenced_uploads 90000000 files_db).1.attachments
        ⊎ (Abandoned 90000000 a
            × (any
                  (has_key a.storage_key)
                  (expire_unreferenced_uploads 90000000 files_db).1.tombstones
                ≡ true)))
      files_db.attachments
expire-queues_example = expire-queues 90000000 files_db

abbrev attempt : ClaimedAttachment
attempt = record {
  id = 6;
  resend_email_id = some "email";
  resend_attachment_id = some "part";
  storage_key = "files/report";
  content_type = "application/pdf";
  lease_token = 7;
  attempt_count = 1;
}

abbrev leased : Attachment
leased = record (file 6 inbound pending) { lease_token = some 7; lease_until = some 61000 }

abbrev leased_db : Db
leased_db = record files_db { attachments = leased ∷ [] }

process-Released_example :
    All
      (λ a. owned attempt a ≡ false)
      (process 1000 2000
        (Fetched.downloaded 20 "sum" none)
        (λ db. db)
        attempt
        leased_db).1.attachments
process-Released_example =
    process-Released 1000 2000 (Fetched.downloaded 20 "sum" none) (λ db. db) attempt leased_db

-- Another worker has taken the row over and stored the file.
abbrev stored_db : Db
stored_db = record files_db { attachments = file 6 inbound stored ∷ [] }

complete-lease_lost_example :
    ((complete_ingest attempt 20 "sum" stored_db).1.attachments ≡ stored_db.attachments)
    × (any (has_key "files/report") (complete_ingest attempt 20 "sum" stored_db).1.tombstones
        ≡ true)
complete-lease_lost_example = complete-lease_lost attempt 20 "sum" stored_db refl
