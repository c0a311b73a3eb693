-- ===== src/Requests/Identities.antt =====
-- What accepted senders and recipients are, and checking them again.
use resend_conversation_serv.Prelude.{
  ℕ, suc, ◌≡◌, ◌≤◌, refl, sym, ap, subst, arith, Bool, true, false, ◌||◌, not, Option, none, some,
  List, [], ◌∷◌, ◌==◌, leb, Bool-cases, inl, inr, length, All,
}
use resend_conversation_serv.Prelude.Text.{Text, codes, some_char, trim, to_lower}
use resend_conversation_serv.Requests.Json.{
  Json, text, null, array, object, property, end, Items, item, nil, listed, number, boolean,
  as_text, as_record, as_array, is_nullish,
}
use resend_conversation_serv.Requests.Checks.{
  Checked, accepted, refused, >>=-accepted, guard-accepted, require-accepted, max_name_length,
  header_safe, is_header_safe_text, is_blank, accepted-eq, is_bracket, trimmed,
}
use resend_conversation_serv.Requests.Inputs.{EmailIdentityInput}
use resend_conversation_serv.Requests.Fields.{
  identity_name_safe, address_accepted, identity_of, address_and_name, normalize_email_identity,
  indexed, identities_from, recipients_of, as_single, normalize_email_identities, max_recipients,
}
use resend_conversation_serv.Requests.Texts.{
  IsName, name_json, some_char-trim, trim-IsTrimmed, trimmed-kept, lower-trim-same,
}

abbrev pub is_plain_name : Text → Bool
is_plain_name s = not (some_char is_bracket s)

-- An identity as the validation returns it: an address in lower case that the check accepts, and no
-- name or a trimmed one.
pub record IsIdentity (reply_to : Bool) (i : EmailIdentityInput) : Type 0 where
  pub valid : address_accepted reply_to i.address ≡ true
  pub same : to_lower (trim i.address) ≡ i.address
  pub named : IsName is_plain_name max_name_length i.name

text-IsName :
    (s : Text)
    → identity_name_safe (header_safe (some (text s)) max_name_length) ≡ true
    → IsName is_plain_name max_name_length (trimmed (some s))
text-IsName s h = elim (Bool-cases (is_header_safe_text s max_name_length)) [
  | inr e ↦ absurd (ground arith)
  | inl e ↦ elim (Bool-cases (is_blank s)) [
    | inl f ↦ subst (IsName is_plain_name max_name_length) (sym (blank f)) tt
    | inr f ↦
        let plain : some_char is_bracket s ≡ false = ground arith in
        subst (IsName is_plain_name max_name_length) (sym (filled f))
          (trim-IsTrimmed max_name_length s e f, ap not (some_char-trim is_bracket s plain))
  ]
]
  where
    blank : is_blank s ≡ true → trimmed (some s) ≡ none
    blank f = rw f refl

    filled : is_blank s ≡ false → trimmed (some s) ≡ some (trim s)
    filled f = rw f refl

trimmed-IsName :
    (name : Option Json)
    → (is_nullish name || identity_name_safe (header_safe name max_name_length)) ≡ true
    → IsName is_plain_name max_name_length (trimmed (as_text name))
trimmed-IsName none h = tt
trimmed-IsName (some (text s)) h = text-IsName s h
trimmed-IsName (some null) h = tt
trimmed-IsName (some (boolean b)) h = tt
trimmed-IsName (some (number n)) h = tt
trimmed-IsName (some (array items)) h = tt
trimmed-IsName (some (object fields)) h = tt

identity_of-IsIdentity :
    (name : Option Json) (field : Text) (reply_to : Bool) (address : Text) (i : EmailIdentityInput)
    → to_lower (trim address) ≡ address
    → identity_of name field reply_to address ≡ accepted i
    → IsIdentity reply_to i
identity_of-IsIdentity name field reply_to address i same h =
    let (valid, rest) = guard-accepted (address_accepted reply_to address) _ _ i h in
    let (named, made) =
      guard-accepted (is_nullish name || identity_name_safe (header_safe name max_name_length)) _ _
        i rest in
    subst (IsIdentity reply_to) (accepted-eq made)
      (record { valid = valid; same = same; named = trimmed-IsName name named })

pub normalize_email_identity-IsIdentity :
    (value : Option Json) (field : Text) (reply_to : Bool) (i : EmailIdentityInput)
    → normalize_email_identity value field reply_to ≡ accepted i
    → IsIdentity reply_to i
unfolding normalize_email_identity
normalize_email_identity-IsIdentity value field reply_to i h =
    let (parts, read, made) = require-accepted (address_and_name (as_record value)) _ _ i h in
    identity_of-IsIdentity parts.1 field reply_to (to_lower (trim parts.0)) i
      (lower-trim-same parts.0) made

-- An identity as a request.
abbrev pub identity_json : EmailIdentityInput → Json
identity_json i =
    object
      (property (codes "address") (text i.address) (property (codes "name") (name_json i.name) end))

named-again :
    (name : Option Text)
    → IsName is_plain_name max_name_length name
    → (is_nullish (some (name_json name))
        || identity_name_safe (header_safe (some (name_json name)) max_name_length))
      ≡ true
named-again none h = refl
named-again (some s) h = rw h.0.safe h.1

name-again :
    (name : Option Text)
    → IsName is_plain_name max_name_length name
    → trimmed (as_text (some (name_json name))) ≡ name
name-again none h = refl
name-again (some s) h = trimmed-kept h.0

pub identity_json-accepted :
    (field : Text) (reply_to : Bool) (i : EmailIdentityInput)
    → IsIdentity reply_to i
    → normalize_email_identity (some (identity_json i)) field reply_to ≡ accepted i
unfolding normalize_email_identity
identity_json-accepted field reply_to i v =
    rw (v.same, v.valid, named-again i.name v.named, name-again i.name v.named) refl

pub identities_from-IsIdentity :
    (items : List (Option Json)) (index : ℕ) (field : Text) (is : List EmailIdentityInput)
    → identities_from index field items ≡ accepted is
    → All (IsIdentity false) is × (length is ≡ length items)
unfolding identities_from
identities_from-IsIdentity [] index field is h =
    subst (λ x. All (IsIdentity false) x × (length x ≡ 0)) (accepted-eq h) (tt, refl)
identities_from-IsIdentity (value ∷ items) index field is h =
    let (i, first, rest) =
      >>=-accepted (normalize_email_identity value (indexed field index) false) _ is h in
    let (js, others, made) = >>=-accepted (identities_from (suc index) field items) _ is rest in
    let ih = identities_from-IsIdentity items (suc index) field js others in
    subst (λ x. All (IsIdentity false) x × (length x ≡ suc (length items))) (accepted-eq made)
      (
        (normalize_email_identity-IsIdentity value (indexed field index) false i first, ih.0),
        ap suc ih.1,
      )

abbrev pub identities_json : List EmailIdentityInput → Items
identities_json [] = nil
identities_json (i ∷ is) = item (identity_json i) (identities_json is)

identities_from-accepted :
    (is : List EmailIdentityInput) (index : ℕ) (field : Text)
    → All (IsIdentity false) is
    → identities_from index field (listed (identities_json is)) ≡ accepted is
unfolding identities_from
identities_from-accepted [] index field v = refl
identities_from-accepted (i ∷ is) index field v =
    rw
      (
        identity_json-accepted (indexed field index) false i v.0,
        identities_from-accepted is (suc index) field v.1,
      )
      refl

-- Between one recipient and the limit.
pub record AreRecipients (is : List EmailIdentityInput) : Type 0 where
  pub some_recipient : 1 ≤ length is
  pub within : length is ≤ max_recipients
  pub each : All (IsIdentity false) is

pub normalize_email_identities-AreRecipients :
    (value : Option Json) (field : Text) (is : List EmailIdentityInput)
    → normalize_email_identities value field ≡ accepted is
    → AreRecipients is
unfolding normalize_email_identities
normalize_email_identities-AreRecipients value field is h = go (as_array value) h
  where
    single :
        (m : Checked (List EmailIdentityInput)) → as_single field m ≡ accepted is → m ≡ accepted is
    single (accepted js) k = k
    single (refused e) k = cc

    go :
        (o : Option (List (Option Json)))
        → recipients_of value field o ≡ accepted is
        → AreRecipients is
    go none k =
        let (each, long) =
          identities_from-IsIdentity (value ∷ []) 0 field is
            (single (identities_from 0 field (value ∷ [])) k) in
        record { some_recipient = omega arith; within = omega arith; each = each }
    go (some items) k =
        let (filled, rest) = guard-accepted (not (length items == 0)) _ _ is k in
        let (short, made) = guard-accepted (leb (length items) max_recipients) _ _ is rest in
        let (each, long) = identities_from-IsIdentity items 0 field is made in
        record { some_recipient = ground arith; within = ground arith; each = each }

length-identities_json :
    (is : List EmailIdentityInput) → length (listed (identities_json is)) ≡ length is
length-identities_json [] = refl
length-identities_json (i ∷ is) = ap suc (length-identities_json is)

pub identities_json-accepted :
    (field : Text) (is : List EmailIdentityInput)
    → AreRecipients is
    → normalize_email_identities (some (array (identities_json is))) field ≡ accepted is
unfolding normalize_email_identities
identities_json-accepted field is v =
    let filled : not (length is == 0) ≡ true = let k = v.some_recipient in ground arith in
    let short : leb (length is) max_recipients ≡ true = let k = v.within in ground arith in
    rw (length-identities_json is, filled, short, identities_from-accepted is 0 field v.each) refl
