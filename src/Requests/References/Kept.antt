-- ===== src/Requests/References/Kept.antt =====
-- Checking accepted references to attachments again.
use resend_conversation_serv.Prelude.{
  ℕ, suc, ◌≡◌, refl, ap, arith, true, false, Option, none, some, List, [], ◌∷◌, leb, length, any,
  All, All-mono,
}
use resend_conversation_serv.Prelude.Text.{Text, codes, text_eq}
use resend_conversation_serv.Requests.Json.{
  Json, text, array, object, property, end, Items, item, nil, listed, Properties,
}
use resend_conversation_serv.Requests.Checks.{accepted}
use resend_conversation_serv.Requests.Inputs.{EmailAttachmentRefInput, AttachmentSettings}
use resend_conversation_serv.Requests.Fields.{
  attachment_ref, attachments_from, normalize_attachment_refs,
}
use resend_conversation_serv.Requests.Tags.{nonempty-same}
use resend_conversation_serv.Requests.References.{
  IsRef, IsNew, Differ, Differ-IsNew, AreRefs, AreAttachments,
}

abbrev content_json : Option Text → Properties
content_json none = end
content_json (some s) = property (codes "contentId") (text s) end

abbrev ref_json : EmailAttachmentRefInput → Json
ref_json r = object (property (codes "id") (text r.id) (content_json r.content_id))

abbrev ref_items : List EmailAttachmentRefInput → Items
ref_items [] = nil
ref_items (r ∷ rs) = item (ref_json r) (ref_items rs)

abbrev pub attachments_json : Option (List EmailAttachmentRefInput) → Option Json
attachments_json none = none
attachments_json (some rs) = some (array (ref_items rs))

attachment_ref-json :
    (index : ℕ) (field : Text) (seen : List Text) (id : Text) (content_id : Option Text)
    → IsRef (record { id = id; content_id = content_id })
    → any (text_eq id) seen ≡ false
    → attachment_ref index field seen
        (some (ref_json (record { id = id; content_id = content_id })))
      ≡ accepted (record { id = id; content_id = content_id })
unfolding attachment_ref
attachment_ref-json index field seen id none v n = rw (v.uuid, v.lower_case, n) refl
attachment_ref-json index field seen id (some s) v n =
    rw
      (v.uuid, v.lower_case, n, v.content.0.safe, v.content.0.filled, v.content.1, v.content.0.same)
      refl

All-IsNew :
    (seen : List Text) (r : EmailAttachmentRefInput) (qs : List EmailAttachmentRefInput)
    → All (Differ r) qs
    → All (IsNew seen) qs
    → All (IsNew (r.id ∷ seen)) qs
All-IsNew seen r [] d n = tt
All-IsNew seen r (q ∷ qs) d n = (Differ-IsNew seen r q d.0 n.0, All-IsNew seen r qs d.1 n.1)

attachments_from-json :
    (rs : List EmailAttachmentRefInput) (index : ℕ) (field : Text) (seen : List Text)
    → AreRefs seen rs
    → attachments_from index field seen (listed (ref_items rs)) ≡ accepted rs
unfolding attachments_from
attachments_from-json [] index field seen v = refl
attachments_from-json (r ∷ rs) index field seen v =
    let next : AreRefs (r.id ∷ seen) rs = record {
      each = v.each.1;
      distinct = v.distinct.1;
      new = All-IsNew seen r rs v.distinct.0 v.new.1;
    } in
    rw
      (
        attachment_ref-json index field seen r.id r.content_id v.each.0 v.new.0,
        attachments_from-json rs (suc index) field (r.id ∷ seen) next,
      )
      refl

length-ref_items : (rs : List EmailAttachmentRefInput) → length (listed (ref_items rs)) ≡ length rs
length-ref_items [] = refl
length-ref_items (r ∷ rs) = ap suc (length-ref_items rs)

pub attachments_json-accepted :
    (settings : AttachmentSettings) (field : Text) (rs : Option (List EmailAttachmentRefInput))
    → AreAttachments settings rs
    → normalize_attachment_refs settings (attachments_json rs) field ≡ accepted rs
unfolding normalize_attachment_refs
attachments_json-accepted settings field none v = refl
attachments_json-accepted settings field (some rs) v =
    let short : leb (length rs) settings.max_count ≡ true = let k = v.bounded.1 in ground arith in
    let refs : AreRefs [] rs = record {
      each = v.bounded.2;
      distinct = v.distinct;
      new = All-mono (λ r v. refl) rs v.bounded.2;
    } in
    rw
      (
        v.enabled,
        length-ref_items rs,
        short,
        attachments_from-json rs 0 field [] refs,
        nonempty-same rs v.bounded.0,
      )
      refl
