-- ===== src/Requests/References.antt =====
-- What accepted references to attachments are.
mod Cases
pub mod Kept
use resend_conversation_serv.Prelude.{
  ℕ, zero, suc, ◌≡◌, ◌≢◌, ◌≤◌, refl, sym, ap, subst, ◌∙◌, arith, Bool, true, false, ◌&&◌, ◌||◌, not,
  Option, none, some, List, [], ◌∷◌, ◌==◌, leb, length, any, All, All-mono, AllPairs, leb_le, inl,
  inr, Bool-cases,
}
use resend_conversation_serv.Prelude.Text.{
  Text, codes, text_eq, text_eq_refl, text_eq_sound, some_char, trim, to_lower, lower,
}
use resend_conversation_serv.Prelude.Text.Chars.{to_lower-to_lower, lower-lower}
use resend_conversation_serv.Email.Routing.{is_hex}
use resend_conversation_serv.Requests.Json.{
  Json, text, null, boolean, number, array, object, property, end, Items, item, nil, listed,
  Properties, get, as_record, as_text, as_array, is_undefined,
}
use resend_conversation_serv.Requests.Checks.{
  Checked, accepted, accepted-eq, ◌>>=◌, ◌>>◌, guard, require, >>=-accepted, guard-accepted,
  require-accepted, header_safe, dash_class, hexes, is_uuid, matches, uuid_classes, hex_class,
  version_class, variant_class, is_header_safe_text, is_blank,
}
use resend_conversation_serv.Requests.Inputs.{EmailAttachmentRefInput, AttachmentSettings}
use resend_conversation_serv.Requests.Fields.{
  attachment_ref, attachments_from, normalize_attachment_refs, nonempty, max_content_id_length,
  indexed, uuid_of, id_and_content_id, with_id, content_id_safe, trimmed_text,
  is_content_id_bracket,
}
use resend_conversation_serv.Requests.Texts.{IsTrimmed, IsName, some_char-trim, trim-IsTrimmed}
use resend_conversation_serv.Requests.Tags.{IsFilled, nonempty-IsFilled, nonempty-same}
use resend_conversation_serv.Requests.References.Cases.{is_uuid-to_lower, not-true}

abbrev is_token_text : Text → Bool
is_token_text s = not (some_char is_content_id_bracket s)

-- A reference as the validation returns it.
pub record IsRef (r : EmailAttachmentRefInput) : Type 0 where
  pub uuid : is_uuid r.id ≡ true
  pub lower_case : to_lower r.id ≡ r.id
  pub content : IsName is_token_text max_content_id_length r.content_id

uuid_of-some : (o : Option Text) (s : Text) → uuid_of o ≡ some s → is_uuid s ≡ true
uuid_of-some none s h = cc
uuid_of-some (some t) s h = elim (Bool-cases (is_uuid t)) [
  | inl e ↦ subst (λ x. is_uuid x ≡ true) (ground arith) e
  | inr e ↦ absurd (ground arith)
]

some-eq : {A : Type 0} {a b : A} → some a ≡ some b → a ≡ b
some-eq h = cc

parts-IsUuid :
    (o : Option Properties) (parts : Text × Option Json)
    → id_and_content_id o ≡ some parts
    → is_uuid parts.0 ≡ true
parts-IsUuid none parts h = cc
parts-IsUuid (some fields) parts h = go (uuid_of (as_text (get fields "id"))) refl h
  where
    go :
        (o : Option Text)
        → uuid_of (as_text (get fields "id")) ≡ o
        → with_id (get fields "contentId") o ≡ some parts
        → is_uuid parts.0 ≡ true
    go none e k = cc
    go (some id) e k =
        let same : (id, get fields "contentId") ≡ parts = some-eq k in
        subst (λ (x : Text × Option Json). is_uuid x.0 ≡ true) same
          (uuid_of-some (as_text (get fields "id")) id e)

text-IsToken :
    (s : Text)
    → content_id_safe (header_safe (some (text s)) max_content_id_length) ≡ true
    → IsName is_token_text max_content_id_length (some (trim s))
text-IsToken s h = elim (Bool-cases (is_header_safe_text s max_content_id_length)) [
  | inr e ↦ absurd (ground arith)
  | inl e ↦
      let filled : is_blank s ≡ false = ground arith in
      let plain : some_char is_content_id_bracket s ≡ false = ground arith in
      (
        trim-IsTrimmed max_content_id_length s e filled,
        ap not (some_char-trim is_content_id_bracket s plain),
      )
]

content-IsName :
    (value : Option Json)
    → (is_undefined value || content_id_safe (header_safe value max_content_id_length)) ≡ true
    → IsName is_token_text max_content_id_length (trimmed_text (as_text value))
content-IsName none h = tt
content-IsName (some (text s)) h = text-IsToken s h
content-IsName (some null) h = tt
content-IsName (some (boolean b)) h = tt
content-IsName (some (number n)) h = tt
content-IsName (some (array items)) h = tt
content-IsName (some (object fields)) h = tt

abbrev pub IsNew : List Text → EmailAttachmentRefInput → Type 0
IsNew seen r = any (text_eq r.id) seen ≡ false

attachment_ref-IsRef :
    (index : ℕ) (field : Text) (seen : List Text) (value : Option Json)
    (r : EmailAttachmentRefInput)
    → attachment_ref index field seen value ≡ accepted r
    → IsRef r × IsNew seen r
unfolding attachment_ref
attachment_ref-IsRef index field seen value r h =
    let (parts, read, rest) = require-accepted (id_and_content_id (as_record value)) _ _ r h in
    let (new, rest') = guard-accepted (not (any (text_eq (to_lower parts.0)) seen)) _ _ r rest in
    let (safe, made) =
      guard-accepted
        (is_undefined parts.1 || content_id_safe (header_safe parts.1 max_content_id_length)) _ _ r
        rest' in
    subst (λ x. IsRef x × IsNew seen x) (accepted-eq made)
      (
        record {
          uuid = is_uuid-to_lower parts.0 (parts-IsUuid (as_record value) parts read);
          lower_case = to_lower-to_lower parts.0;
          content = content-IsName parts.1 safe;
        },
        not-true (any (text_eq (to_lower parts.0)) seen) new,
      )

abbrev pub Differ : EmailAttachmentRefInput → EmailAttachmentRefInput → Type 0
Differ r q = r.id ≢ q.id

IsNew-Differ :
    (seen : List Text) (r q : EmailAttachmentRefInput)
    → IsNew (r.id ∷ seen) q
    → Differ r q × IsNew seen q
IsNew-Differ seen r q h = (
  λ e.
      let same : text_eq q.id r.id ≡ true =
        subst (λ x. text_eq q.id x ≡ true) (sym e) (text_eq_refl q.id) in
      ground arith,
  ground arith,
)

pub Differ-IsNew :
    (seen : List Text) (r q : EmailAttachmentRefInput)
    → Differ r q
    → IsNew seen q
    → IsNew (r.id ∷ seen) q
Differ-IsNew seen r q d h = elim (Bool-cases (text_eq q.id r.id)) [
  | inl e ↦ absurd (d (sym (text_eq_sound q.id r.id e)))
  | inr e ↦ ground arith
]

-- References of which no two have the same id, and none a seen one.
pub record AreRefs (seen : List Text) (rs : List EmailAttachmentRefInput) : Type 0 where
  pub each : All IsRef rs
  pub distinct : AllPairs Differ rs
  pub new : All (IsNew seen) rs

AreRefs-cons :
    (seen : List Text) (r : EmailAttachmentRefInput) (rs : List EmailAttachmentRefInput)
    → IsRef r
    → IsNew seen r
    → AreRefs (r.id ∷ seen) rs
    → AreRefs seen (r ∷ rs)
AreRefs-cons seen r rs v n h = record {
  each = (v, h.each);
  distinct = (All-mono (λ q k. (IsNew-Differ seen r q k).0) rs h.new, h.distinct);
  new = (n, All-mono (λ q k. (IsNew-Differ seen r q k).1) rs h.new);
}

attachments_from-AreRefs :
    (items : List (Option Json)) (index : ℕ) (field : Text) (seen : List Text)
    (rs : List EmailAttachmentRefInput)
    → attachments_from index field seen items ≡ accepted rs
    → AreRefs seen rs × (length rs ≡ length items)
unfolding attachments_from
attachments_from-AreRefs [] index field seen rs h =
    subst (λ x. AreRefs seen x × (length x ≡ 0)) (accepted-eq h)
      (record { each = tt; distinct = tt; new = tt }, refl)
attachments_from-AreRefs (value ∷ items) index field seen rs h =
    let (r, first, rest) = >>=-accepted (attachment_ref index field seen value) _ rs h in
    let (qs, others, made) =
      >>=-accepted (attachments_from (suc index) field (r.id ∷ seen) items) _ rs rest in
    let (refs, long) = attachments_from-AreRefs items (suc index) field (r.id ∷ seen) qs others in
    let (v, n) = attachment_ref-IsRef index field seen value r first in
    subst (λ x. AreRefs seen x × (length x ≡ suc (length items))) (accepted-eq made)
      (AreRefs-cons seen r qs v n refs, ap suc long)

abbrev pub IsDistinct : Option (List EmailAttachmentRefInput) → Type 0
IsDistinct none = Unit {0}
IsDistinct (some rs) = AllPairs Differ rs

abbrev pub NeedsEnabled : AttachmentSettings → Option (List EmailAttachmentRefInput) → Type 0
NeedsEnabled settings none = Unit {0}
NeedsEnabled settings (some rs) = settings.enabled ≡ true

nonempty-IsDistinct :
    (rs : List EmailAttachmentRefInput) → AllPairs Differ rs → IsDistinct (nonempty rs)
nonempty-IsDistinct [] h = tt
nonempty-IsDistinct (r ∷ rs) h = h

nonempty-NeedsEnabled :
    (settings : AttachmentSettings) (rs : List EmailAttachmentRefInput)
    → settings.enabled ≡ true
    → NeedsEnabled settings (nonempty rs)
nonempty-NeedsEnabled settings [] h = tt
nonempty-NeedsEnabled settings (r ∷ rs) h = h

-- The references of an accepted request: none while attachments are disabled, at most as many as
-- the limit, and no id twice.
pub record AreAttachments (settings : AttachmentSettings)
    (refs : Option (List EmailAttachmentRefInput)) : Type 0 where
  pub bounded : IsFilled IsRef settings.max_count refs
  pub distinct : IsDistinct refs
  pub enabled : NeedsEnabled settings refs

pub normalize_attachment_refs-AreAttachments :
    (settings : AttachmentSettings) (value : Option Json) (field : Text)
    (rs : Option (List EmailAttachmentRefInput))
    → normalize_attachment_refs settings value field ≡ accepted rs
    → AreAttachments settings rs
unfolding normalize_attachment_refs
normalize_attachment_refs-AreAttachments settings none field rs h =
    subst (AreAttachments settings) (accepted-eq h)
      (record { bounded = tt; distinct = tt; enabled = tt })
normalize_attachment_refs-AreAttachments settings (some value) field rs h =
    let (on, rest) = guard-accepted settings.enabled _ _ rs h in
    let (items, read, rest') = require-accepted (as_array (some value)) _ _ rs rest in
    let (short, rest'') = guard-accepted (leb (length items) settings.max_count) _ _ rs rest' in
    let (qs, each, made) = >>=-accepted (attachments_from 0 field [] items) _ rs rest'' in
    let (refs, long) = attachments_from-AreRefs items 0 field [] qs each in
    subst (AreAttachments settings) (accepted-eq made) (record {
      bounded =
          nonempty-IsFilled IsRef settings.max_count qs
            (subst (λ n. n ≤ settings.max_count) (sym long)
              (leb_le (length items) settings.max_count short))
            refs.each;
      distinct = nonempty-IsDistinct qs refs.distinct;
      enabled = nonempty-NeedsEnabled settings qs on;
    })
