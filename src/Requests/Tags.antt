-- ===== src/Requests/Tags.antt =====
-- What accepted tags are, and checking them again.
use resend_conversation_serv.Prelude.{
  ℕ, suc, ◌≡◌, ◌≤◌, refl, ap, subst, arith, true, Option, none, some, List, [], ◌∷◌, leb, length,
  All,
}
use resend_conversation_serv.Prelude.Text.{Text, codes}
use resend_conversation_serv.Requests.Json.{
  Json, text, array, object, property, end, Items, item, nil, listed, Properties, get, as_record,
  as_array,
}
use resend_conversation_serv.Requests.Checks.{
  accepted, accepted-eq, >>=-accepted, guard-accepted, require-accepted,
}
use resend_conversation_serv.Requests.Inputs.{EmailTagInput}
use resend_conversation_serv.Requests.Fields.{
  tag_text, pair_of, tag_of, tags_from, nonempty, normalize_tags, max_tags, max_tag_length,
}
use resend_conversation_serv.Requests.Texts.{IsTrimmed, trimmed-IsTrimmed}

pub record IsTag (t : EmailTagInput) : Type 0 where
  pub name_trimmed : IsTrimmed max_tag_length t.name
  pub value_trimmed : IsTrimmed max_tag_length t.value

pair_of-IsTag :
    (name value : Option Json) (o p : Option Text) (t : EmailTagInput)
    → tag_text name ≡ o
    → tag_text value ≡ p
    → pair_of o p ≡ some t
    → IsTag t
pair_of-IsTag name value (some n) (some v) t e f h = subst IsTag (ground arith) (record {
  name_trimmed = trimmed-IsTrimmed max_tag_length name n e;
  value_trimmed = trimmed-IsTrimmed max_tag_length value v f;
})
pair_of-IsTag name value (some n) none t e f h = cc
pair_of-IsTag name value none p t e f h = cc

tag_of-IsTag : (o : Option Properties) (t : EmailTagInput) → tag_of o ≡ some t → IsTag t
unfolding tag_of
tag_of-IsTag none t h = cc
tag_of-IsTag (some fields) t h =
    pair_of-IsTag (get fields "name") (get fields "value") (tag_text (get fields "name"))
      (tag_text (get fields "value")) t refl refl h

tags_from-IsTag :
    (items : List (Option Json)) (index : ℕ) (field : Text) (ts : List EmailTagInput)
    → tags_from index field items ≡ accepted ts
    → All IsTag ts × (length ts ≡ length items)
unfolding tags_from
tags_from-IsTag [] index field ts h =
    subst (λ x. All IsTag x × (length x ≡ 0)) (accepted-eq h) (tt, refl)
tags_from-IsTag (value ∷ items) index field ts h =
    let (t, first, rest) = require-accepted (tag_of (as_record value)) _ _ ts h in
    let (us, others, made) = >>=-accepted (tags_from (suc index) field items) _ ts rest in
    let ih = tags_from-IsTag items (suc index) field us others in
    subst (λ x. All IsTag x × (length x ≡ suc (length items))) (accepted-eq made)
      ((tag_of-IsTag (as_record value) t first, ih.0), ap suc ih.1)

-- A list that is left out when it is empty.
abbrev pub IsFilled : {A : Type 0} → (A → Type 0) → ℕ → Option (List A) → Type 0
IsFilled P most none = Unit {0}
IsFilled P most (some xs) = (1 ≤ length xs) × (length xs ≤ most) × All P xs

pub nonempty-IsFilled :
    {A : Type 0} (P : A → Type 0) (most : ℕ) (xs : List A)
    → length xs ≤ most
    → All P xs
    → IsFilled P most (nonempty xs)
nonempty-IsFilled P most [] l a = tt
nonempty-IsFilled P most (x ∷ xs) l a = (omega arith, l, a)

pub normalize_tags-IsFilled :
    (value : Option Json) (field : Text) (ts : Option (List EmailTagInput))
    → normalize_tags value field ≡ accepted ts
    → IsFilled IsTag max_tags ts
unfolding normalize_tags
normalize_tags-IsFilled none field ts h = subst (IsFilled IsTag max_tags) (accepted-eq h) tt
normalize_tags-IsFilled (some value) field ts h =
    let (items, read, rest) = require-accepted (as_array (some value)) _ _ ts h in
    let (short, rest') = guard-accepted (leb (length items) max_tags) _ _ ts rest in
    let (us, each, made) = >>=-accepted (tags_from 0 field items) _ ts rest' in
    let (tagged, long) = tags_from-IsTag items 0 field us each in
    subst (IsFilled IsTag max_tags) (accepted-eq made)
      (nonempty-IsFilled IsTag max_tags us (ground arith) tagged)

abbrev tag_json : EmailTagInput → Json
tag_json t =
    object (property (codes "name") (text t.name) (property (codes "value") (text t.value) end))

abbrev tag_items : List EmailTagInput → Items
tag_items [] = nil
tag_items (t ∷ ts) = item (tag_json t) (tag_items ts)

abbrev pub tags_json : Option (List EmailTagInput) → Option Json
tags_json none = none
tags_json (some ts) = some (array (tag_items ts))

tag_of-json :
    (t : EmailTagInput)
    → IsTag t
    → tag_of
        (some (property (codes "name") (text t.name) (property (codes "value") (text t.value) end)))
      ≡ some t
unfolding tag_of
tag_of-json t v =
    rw
      (
        v.name_trimmed.safe, v.name_trimmed.filled, v.name_trimmed.same, v.value_trimmed.safe,
        v.value_trimmed.filled, v.value_trimmed.same,
      )
      refl

tags_from-json :
    (ts : List EmailTagInput) (index : ℕ) (field : Text)
    → All IsTag ts
    → tags_from index field (listed (tag_items ts)) ≡ accepted ts
unfolding tags_from
tags_from-json [] index field v = refl
tags_from-json (t ∷ ts) index field v =
    rw (tag_of-json t v.0, tags_from-json ts (suc index) field v.1) refl

length-tag_items : (ts : List EmailTagInput) → length (listed (tag_items ts)) ≡ length ts
length-tag_items [] = refl
length-tag_items (t ∷ ts) = ap suc (length-tag_items ts)

pub nonempty-same : {A : Type 0} (xs : List A) → 1 ≤ length xs → nonempty xs ≡ some xs
nonempty-same [] h = absurd (omega arith)
nonempty-same (x ∷ xs) h = refl

pub tags_json-accepted :
    (field : Text) (ts : Option (List EmailTagInput))
    → IsFilled IsTag max_tags ts
    → normalize_tags (tags_json ts) field ≡ accepted ts
unfolding normalize_tags
tags_json-accepted field none v = refl
tags_json-accepted field (some ts) v =
    let short : leb (length ts) max_tags ≡ true = let k = v.1 in ground arith in
    rw (length-tag_items ts, short, tags_from-json ts 0 field v.2, nonempty-same ts v.0) refl
