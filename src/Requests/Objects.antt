-- ===== src/Requests/Objects.antt =====
-- Objects of which some properties may be left out, the contents of mails and the names of replies.
use resend_conversation_serv.Prelude.{
  ◌≡◌, refl, ap, subst, ◌∙◌, arith, Bool, true, false, ◌&&◌, not, Option, none, some, List, [], ◌∷◌,
  String, Bool-cases, inl, inr, if◌then◌else◌,
}
use resend_conversation_serv.Prelude.Text.{Text, codes, text_eq, some_char, trim}
use resend_conversation_serv.Requests.Json.{
  Json, text, null, boolean, number, array, object, property, end, Properties, lookup, get, as_text,
}
use resend_conversation_serv.Requests.Checks.{
  max_name_length, header_safe, is_header_safe_text, is_blank, is_bracket,
}
use resend_conversation_serv.Requests.Fields.{normalize_reply_to_name, reply_to_name_of}
use resend_conversation_serv.Requests.Bodies.{present, within_limit, has_content}
use resend_conversation_serv.Requests.Texts.{IsName, trim-IsTrimmed}
use resend_conversation_serv.Requests.Identities.{is_plain_name}

-- The properties that are not left out.
abbrev pub object_of : List (Text × Option Json) → Properties
object_of [] = end
object_of ((name, none) ∷ l) = object_of l
object_of ((name, some j) ∷ l) = property name j (object_of l)

abbrev pub first_of : Option Json → Option Json → Option Json
first_of none p = p
first_of (some j) p = some j

abbrev pub pick : Text → List (Text × Option Json) → Option Json
pick name [] = none
pick name ((n, o) ∷ l) = let rest = pick name l in if text_eq n name then first_of o rest else rest

lookup-object_of :
    (name : Text) (l : List (Text × Option Json)) → lookup name (object_of l) ≡ pick name l
lookup-object_of name [] = refl
lookup-object_of name ((n, none) ∷ l) = rw (lookup-object_of name l) (either (text_eq n name))
  where
    either : (b : Bool) → pick name l ≡ (if b then pick name l else pick name l)
    either true = refl
    either false = refl
lookup-object_of name ((n, some j) ∷ l) = rw (lookup-object_of name l) refl

pub get-object_of :
    (name : String) (l : List (Text × Option Json)) (o : Option Json)
    → pick (codes name) l ≡ first_of o none
    → get (object_of l) name ≡ o
get-object_of name l none h = lookup-object_of (codes name) l ∙ h
get-object_of name l (some j) h = lookup-object_of (codes name) l ∙ h

abbrev pub text_json : Option Text → Option Json
text_json none = none
text_json (some s) = some (text s)

pub as_text-text_json : (o : Option Text) → as_text (text_json o) ≡ o
as_text-text_json none = refl
as_text-text_json (some s) = refl

pub present-present : (o : Option Text) → present (present o) ≡ present o
present-present none = refl
present-present (some []) = refl
present-present (some (c ∷ s)) = refl

within-present : (o : Option Text) → within_limit o ≡ true → within_limit (present o) ≡ true
within-present none h = refl
within-present (some []) h = refl
within-present (some (c ∷ s)) h = h

-- A text and a version in HTML, of which at least one is there, neither of them empty or too long.
pub record IsContent (plain html : Option Text) : Type 0 where
  pub plain_same : present plain ≡ plain
  pub html_same : present html ≡ html
  pub filled : has_content plain html ≡ true
  pub within : (within_limit plain && within_limit html) ≡ true

pub present-IsContent :
    (plain html : Option Text)
    → has_content plain html ≡ true
    → (within_limit plain && within_limit html) ≡ true
    → IsContent (present plain) (present html)
present-IsContent plain html h k =
    let a = within-present plain (ground arith) in
    let b = within-present html (ground arith) in
    record {
      plain_same = present-present plain;
      html_same = present-present html;
      filled = rw (present-present plain, present-present html) h;
      within = rw (a, b) refl;
    }

-- The name that replies go to: null, or a trimmed text without angle brackets.
text-named :
    (s : Text) (o : Option Text)
    → reply_to_name_of (header_safe (some (text s)) max_name_length) ≡ some o
    → IsName is_plain_name max_name_length o
text-named s o h = elim (Bool-cases (is_header_safe_text s max_name_length)) [
  | inr e ↦ absurd (ground arith)
  | inl e ↦ elim (Bool-cases (is_blank s)) [
    | inl f ↦ subst (IsName is_plain_name max_name_length) (blank e f h) tt
    | inr f ↦ elim (Bool-cases (some_char is_bracket (trim s))) [
      | inl g ↦ absurd (bracketed e f g h)
      | inr g ↦
          subst (IsName is_plain_name max_name_length) (plain e f g h)
            (trim-IsTrimmed max_name_length s e f, ap not g)
    ]
  ]
]
  where
    blank :
        is_header_safe_text s max_name_length ≡ true
        → is_blank s ≡ true
        → reply_to_name_of (header_safe (some (text s)) max_name_length) ≡ some o
        → none ≡ o
    blank e f k = let k' : some none ≡ some o = rw (e, f) at k in ground arith

    bracketed :
        is_header_safe_text s max_name_length ≡ true
        → is_blank s ≡ false
        → some_char is_bracket (trim s) ≡ true
        → reply_to_name_of (header_safe (some (text s)) max_name_length) ≡ some o
        → ⊥
    bracketed e f g k = let k' : none ≡ some o = rw (e, f, g) at k in cc

    plain :
        is_header_safe_text s max_name_length ≡ true
        → is_blank s ≡ false
        → some_char is_bracket (trim s) ≡ false
        → reply_to_name_of (header_safe (some (text s)) max_name_length) ≡ some o
        → some (trim s) ≡ o
    plain e f g k = let k' : some (some (trim s)) ≡ some o = rw (e, f, g) at k in ground arith

null-named : (o : Option Text) → some none ≡ some o → IsName is_plain_name max_name_length o
null-named none h = tt
null-named (some s) h = cc

pub normalize_reply_to_name-IsName :
    (value : Option Json) (o : Option Text)
    → normalize_reply_to_name value ≡ some o
    → IsName is_plain_name max_name_length o
unfolding normalize_reply_to_name
normalize_reply_to_name-IsName none o h = null-named o h
normalize_reply_to_name-IsName (some null) o h = null-named o h
normalize_reply_to_name-IsName (some (text s)) o h = text-named s o h
normalize_reply_to_name-IsName (some (boolean b)) o h = cc
normalize_reply_to_name-IsName (some (number n)) o h = cc
normalize_reply_to_name-IsName (some (array items)) o h = cc
normalize_reply_to_name-IsName (some (object fields)) o h = cc

pub normalize_reply_to_name-json :
    (o : Option Text)
    → IsName is_plain_name max_name_length o
    → normalize_reply_to_name (text_json o) ≡ some o
unfolding normalize_reply_to_name
normalize_reply_to_name-json none h = refl
normalize_reply_to_name-json (some s) h =
    let plain : some_char is_bracket s ≡ false = ground arith in
    rw (h.0.safe, h.0.filled, h.0.same, plain) refl
