-- ===== src/Attachments/Claim.antt =====
-- src/lib/attachments/claim.ts: binding uploaded attachments to a message, and reading them back for
-- a send. The object storage and its base64 encoder are arguments; so is the configuration.
pub mod Exclusive
use resend_conversation_serv.Prelude.{
  ℕ, suc, ◌+◌, String, Bool, true, false, ◌&&◌, not, Option, none, some, List, [], ◌∷◌, map, ◌==◌,
  ltb, str_eq, if◌then◌else◌, holds, is_null, Action, Outcome, done, threw, ◌>>=◌, length, update,
  count, any, select, order_by, leb,
}
use resend_conversation_serv.Prelude.Text.{Text, codes}
use resend_conversation_serv.Database.{
  Db, Attachment, AttachmentState, AttachmentSource, stored, upload, Disposition, inline, Fault,
  attachments_disabled, attachment_claim_refused, attachments_too_large,
}
use resend_conversation_serv.Outbox.Policy.{SendError, named_error}

pub record AttachmentRef : Type 0 where
  pub id : ℕ
  pub content_id : Option String

-- attachmentsEnabled() and resolveAttachmentLimits().maxTotalBytes
pub record AttachmentConfig : Type 0 where
  pub enabled : Bool
  pub max_total_bytes : ℕ

abbrev pub is_upload : AttachmentSource → Bool
is_upload upload = true
is_upload _ = false

abbrev pub is_stored : AttachmentState → Bool
is_stored stored = true
is_stored _ = false

abbrev pub is_requested : List AttachmentRef → ℕ → Bool
is_requested refs id = any (λ r. r.id == id) refs

-- `messageId: null, source: 'UPLOAD', state: 'STORED'`
abbrev pub is_free : Attachment → Bool
is_free a = is_null a.message_id && is_upload a.source && is_stored a.state

abbrev pub is_claimable : List AttachmentRef → Attachment → Bool
is_claimable refs a = is_requested refs a.id && is_free a

abbrev pub bind_to : ℕ → Attachment → Attachment
bind_to message_id a = record a { message_id = some message_id }

abbrev pub belongs_to : ℕ → Attachment → Bool
belongs_to message_id a = holds a.message_id message_id

abbrev pub make_inline : String → Attachment → Attachment
make_inline content_id a = record a { content_id = some content_id; content_disposition = inline }

abbrev pub set_content_id : ℕ → ℕ → Option String → List Attachment → List Attachment
set_content_id message_id id none rows = rows
set_content_id message_id id (some content_id) rows =
    if str_eq content_id ""
    then rows
    else update (λ a. a.id == id && belongs_to message_id a) (make_inline content_id) rows

-- for (const ref of withContentId)
unfoldable pub set_content_ids : ℕ → List AttachmentRef → List Attachment → List Attachment
set_content_ids message_id [] rows = rows
set_content_ids message_id (r ∷ refs) rows =
    set_content_ids message_id refs (set_content_id message_id r.id r.content_id rows)

unfoldable pub total_size : ℕ → List Attachment → ℕ
total_size message_id [] = 0
total_size message_id (a ∷ rows) =
    let rest = total_size message_id rows in
    if belongs_to message_id a then a.size_bytes + rest else rest

-- The bound rows, with the content identifiers, before the size check.
unfoldable pub bind_rows : ℕ → List AttachmentRef → List Attachment → List Attachment
unfolding set_content_ids
bind_rows message_id refs rows =
    set_content_ids message_id refs (update (is_claimable refs) (bind_to message_id) rows)

abbrev pub check_size : AttachmentConfig → ℕ → ℕ → Db → Outcome Fault ℕ × Db
check_size config message_id claimed db =
    if ltb config.max_total_bytes (total_size message_id db.attachments)
    then (threw attachments_too_large, db)
    else (done claimed, db)

abbrev pub bind_claimed : AttachmentConfig → ℕ → List AttachmentRef → ℕ → Db → Outcome Fault ℕ × Db
bind_claimed config message_id refs claimed db =
    if claimed == length refs
    then check_size config message_id claimed
        (record db { attachments = bind_rows message_id refs db.attachments })
    else (
      threw attachment_claim_refused,
      record db { attachments = update (is_claimable refs) (bind_to message_id) db.attachments },
    )

-- An absent list of references is an empty one.
unfoldable pub claim_attachments_for_message :
    AttachmentConfig → ℕ → List AttachmentRef → Action Db Fault ℕ
unfolding total_size bind_rows
claim_attachments_for_message config message_id [] db = (done 0, db)
claim_attachments_for_message config message_id (r ∷ refs) db =
    if config.enabled
    then bind_claimed config message_id (r ∷ refs) (count (is_claimable (r ∷ refs)) db.attachments)
        db
    else (threw attachments_disabled, db)

unfoldable pub list_message_attachments : ℕ → List Attachment → List Attachment
list_message_attachments message_id rows =
    order_by (λ a b. leb a.id b.id) (select (belongs_to message_id) rows)

pub record Storage : Type 0 where
  pub get_buffer : String → Outcome SendError Text
  pub base64 : Text → Text

pub record SendAttachment : Type 0 where
  pub filename : String
  pub content : Text
  pub content_type : String
  pub content_id : Option String

abbrev pub nonempty : Option String → Option String
nonempty none = none
nonempty (some t) = if str_eq t "" then none else some t

abbrev pub prepared_with :
    Storage → Attachment → Outcome SendError Text → Outcome SendError SendAttachment
prepared_with storage a (threw e) = threw e
prepared_with storage a (done body) = done (record {
  filename = a.filename;
  content = storage.base64 body;
  content_type = a.content_type;
  content_id = nonempty a.content_id;
})

abbrev pub prepare : Storage → Attachment → Outcome SendError SendAttachment
prepare storage a =
    if is_stored a.state
    then prepared_with storage a (storage.get_buffer a.storage_key)
    else threw (named_error (codes "AttachmentClaimError"))

abbrev pub add_prepared :
    Outcome SendError SendAttachment
    → Outcome SendError (List SendAttachment)
    → Outcome SendError (List SendAttachment)
add_prepared (threw e) rest = threw e
add_prepared (done a) (threw e) = threw e
add_prepared (done a) (done rest) = done (a ∷ rest)

unfoldable pub prepare_all : Storage → List Attachment → Outcome SendError (List SendAttachment)
prepare_all storage [] = done []
prepare_all storage (a ∷ rows) = add_prepared (prepare storage a) (prepare_all storage rows)

unfoldable pub build_send_attachments :
    Bool → Storage → ℕ → Db → Outcome SendError (List SendAttachment)
unfolding list_message_attachments prepare_all
build_send_attachments enabled storage message_id db =
    if enabled
    then prepare_all storage (list_message_attachments message_id db.attachments)
    else done []

pub data OutboxLane : Type 0 where
  no_lane batch_lane attachment_lane : OutboxLane

unfoldable pub outbox_relation_data : Bool → Bool → OutboxLane
outbox_relation_data queued has_attachments =
    if queued then (if has_attachments then attachment_lane else batch_lane) else no_lane
