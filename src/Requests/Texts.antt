-- ===== src/Requests/Texts.antt =====
-- Checking texts that have passed the checks again.
use mathlib.Core.List.{reverse, reverse-cons}
use resend_conversation_serv.Prelude.{
  ℕ, ◌≡◌, refl, sym, ap, subst, ◌∙◌, arith, Bool, true, false, not, Option, none, some, [], ◌∷◌,
  ◌++◌, Bool-cases, inl, inr,
}
use resend_conversation_serv.Prelude.Text.{Text, some_char, every, trim, to_lower, lower}
use resend_conversation_serv.Prelude.Text.Chars.{
  trim-trim, trim-every, length-trim, trim-has_ends, trim_keeps, first_visible, is_space-lower,
  to_lower-to_lower,
}
use resend_conversation_serv.Requests.Json.{Json, text, null, as_text}
use resend_conversation_serv.Requests.Checks.{
  is_control, is_header_safe_text, safe_within, header_safe, is_blank, trimmed,
}

-- A nonempty header-safe text within a limit, trimmed.
pub record IsTrimmed (max_length : ℕ) (s : Text) : Type 0 where
  pub safe : is_header_safe_text s max_length ≡ true
  pub filled : is_blank s ≡ false
  pub same : trim s ≡ s

some_char-every : (p : ℕ → Bool) (s : Text) → not (some_char p s) ≡ every (λ c. not (p c)) s
unfolding some_char every
some_char-every p [] = refl
some_char-every p (c ∷ s) = let ih = some_char-every p s in ground arith

pub some_char-trim :
    (p : ℕ → Bool) (s : Text) → some_char p s ≡ false → some_char p (trim s) ≡ false
some_char-trim p s h =
    let whole : every (λ c. not (p c)) s ≡ true = sym (some_char-every p s) ∙ ap not h in
    let cut = some_char-every p (trim s) ∙ trim-every (λ c. not (p c)) s whole in ground arith

header_safe-trim :
    (max_length : ℕ) (s : Text)
    → is_header_safe_text s max_length ≡ true
    → is_header_safe_text (trim s) max_length ≡ true
unfolding is_header_safe_text
header_safe-trim max_length s h =
    let shorter = length-trim s in
    let visible = some_char-trim is_control s (ground arith) in ground arith

pub trim-IsTrimmed :
    (max_length : ℕ) (s : Text)
    → is_header_safe_text s max_length ≡ true
    → is_blank s ≡ false
    → IsTrimmed max_length (trim s)
trim-IsTrimmed max_length s h k = record {
  safe = header_safe-trim max_length s h;
  filled = rw (trim-trim s) k;
  same = trim-trim s;
}

-- What a text is that passes the guard.
pub safe_within-some :
    (max_length : ℕ) (o : Option Text) (s : Text)
    → safe_within max_length o ≡ some s
    → (o ≡ some s) × (is_header_safe_text s max_length ≡ true)
safe_within-some max_length none s h = cc
safe_within-some max_length (some t) s h = elim (Bool-cases (is_header_safe_text t max_length)) [
  | inl e ↦
      let same : t ≡ s = ground arith in
      (ap some same, subst (λ x. is_header_safe_text x max_length ≡ true) same e)
  | inr e ↦ absurd (ground arith)
]

pub trimmed-some :
    (o : Option Text) (s : Text)
    → trimmed o ≡ some s
    → (t : Text) × (o ≡ some t) × (is_blank t ≡ false) × (trim t ≡ s)
trimmed-some none s h = cc
trimmed-some (some t) s h = elim (Bool-cases (is_blank t)) [
  | inl e ↦ absurd (ground arith)
  | inr e ↦ (t, refl, e, ground arith)
]

pub trimmed-IsTrimmed :
    (max_length : ℕ) (value : Option Json) (s : Text)
    → trimmed (header_safe value max_length) ≡ some s
    → IsTrimmed max_length s
trimmed-IsTrimmed max_length value s h =
    let (t, whole, filled, same) = trimmed-some (header_safe value max_length) s h in
    let safe = safe_within-some max_length (as_text value) t whole in
    subst (IsTrimmed max_length) same (trim-IsTrimmed max_length t safe.1 filled)

pub header_safe-text :
    (max_length : ℕ) (s : Text)
    → IsTrimmed max_length s
    → header_safe (some (text s)) max_length ≡ some s
header_safe-text max_length s h = rw h.safe refl

pub trimmed-kept : {max_length : ℕ} {s : Text} → IsTrimmed max_length s → trimmed (some s) ≡ some s
trimmed-kept h = rw (h.filled, h.same) refl

-- A name that may be absent.
abbrev pub name_json : Option Text → Json
name_json none = null
name_json (some s) = text s

abbrev pub IsName : (Text → Bool) → ℕ → Option Text → Type 0
IsName ok max_length none = Unit {0}
IsName ok max_length (some s) = IsTrimmed max_length s × (ok s ≡ true)

first_visible-to_lower : (s : Text) → first_visible (to_lower s) ≡ first_visible s
unfolding first_visible to_lower
first_visible-to_lower [] = refl
first_visible-to_lower (c ∷ s) = rw (is_space-lower c) refl

to_lower-append : (s t : Text) → to_lower (s ++ t) ≡ to_lower s ++ to_lower t
unfolding to_lower
to_lower-append [] t = refl
to_lower-append (c ∷ s) t = ap (◌∷◌ (lower c)) (to_lower-append s t)

to_lower-cons : (c : ℕ) (s : Text) → to_lower (c ∷ s) ≡ lower c ∷ to_lower s
unfolding to_lower
to_lower-cons c s = refl

to_lower-nil : (s : Text) (c : ℕ) → to_lower s ++ lower c ∷ [] ≡ to_lower s ++ lower c ∷ to_lower []
unfolding to_lower
to_lower-nil s c = refl

reverse-to_lower : (s : Text) → reverse (to_lower s) ≡ to_lower (reverse s)
reverse-to_lower [] = unfold to_lower in refl
reverse-to_lower (c ∷ s) =
    let ih = reverse-to_lower s in
    rw
      (
        to_lower-cons c s,
        reverse-cons (lower c) (to_lower s),
        ih,
        reverse-cons c s,
        to_lower-append (reverse s) (c ∷ []),
        to_lower-cons c [],
      )
      (to_lower-nil (reverse s) c)

-- An address, trimmed and in lower case, is kept.
pub lower-trim-same : (s : Text) → to_lower (trim (to_lower (trim s))) ≡ to_lower (trim s)
lower-trim-same s =
    let t = trim s in
    let ends = trim-has_ends s in
    let kept : trim (to_lower t) ≡ to_lower t = trim_keeps (to_lower t) (
      rw (first_visible-to_lower t, reverse-to_lower t, first_visible-to_lower (reverse t)) ends) in
    ap to_lower kept ∙ to_lower-to_lower t
