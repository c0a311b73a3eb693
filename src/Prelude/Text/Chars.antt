-- ===== src/Prelude/Text/Chars.antt =====
-- Laws of character classes over a whole text, and of `trim` and `toLowerCase`.
use Prim.Native.Nat.{ℕ, suc, ◌≤◌}
use mathlib.Core.Path.{◌≡◌, ◌∙◌, refl, sym, ap, subst}
use mathlib.Core.Bool.{Bool, true, false, ◌&&◌, not}
use mathlib.Core.Logic.{inl, inr}
use mathlib.Core.List.{[], ◌∷◌, ◌++◌, reverse, reverse-cons, reverse-reverse, reverse-append}
use native.Mathlib.Omega.{arith}
use resend_conversation_serv.Prelude.Tests.{◌==◌, Bool-cases}
use resend_conversation_serv.Prelude.Text.Search.{is_empty}
use resend_conversation_serv.Prelude.Table.{length}
use resend_conversation_serv.Prelude.Text.{Text, every, is_space, trim, trim_start, to_lower, lower}

abbrev pub is_visible : ℕ → Bool
is_visible c = not (is_space c)

module _ (p : ℕ → Bool) where
  pub every-append : (s t : Text) → every p s ≡ true → every p t ≡ true → every p (s ++ t) ≡ true
  unfolding every
  every-append [] t h k = k
  every-append (c ∷ s) t h k = let ih = every-append s t (ground arith) k in ground arith

  pub every-left : (s t : Text) → every p (s ++ t) ≡ true → every p s ≡ true
  unfolding every
  every-left [] t h = refl
  every-left (c ∷ s) t h = let ih = every-left s t (ground arith) in ground arith

  pub every-right : (s t : Text) → every p (s ++ t) ≡ true → every p t ≡ true
  unfolding every
  every-right [] t h = h
  every-right (c ∷ s) t h = every-right s t (ground arith)

  pub every-reverse : (s : Text) → every p s ≡ true → every p (reverse s) ≡ true
  every-reverse [] h = unfold every in refl
  every-reverse (c ∷ s) h = rw (reverse-cons c s) (
      every-append (reverse s) (c ∷ []) (every-reverse s (every-right (c ∷ []) s h))
        (every-left (c ∷ []) s h))

  pub every_mono :
      (q : ℕ → Bool) (s : Text)
      → ((c : ℕ) → p c ≡ true → q c ≡ true)
      → every p s ≡ true
      → every q s ≡ true
  unfolding every
  every_mono q [] k h = refl
  every_mono q (c ∷ s) k h =
      let first = k c (ground arith) in let ih = every_mono q s k (ground arith) in ground arith

-- No white space at the front.
unfoldable pub first_visible : Text → Bool
first_visible [] = true
first_visible (c ∷ s) = is_visible c

pub trim_start-first_visible : (s : Text) → first_visible (trim_start s) ≡ true
unfolding first_visible trim_start
trim_start-first_visible [] = refl
trim_start-first_visible (c ∷ s) = elim (Bool-cases (is_space c)) [
  | inl e ↦ rw e (trim_start-first_visible s)
  | inr e ↦ rw (e, e) refl
]

pub first_visible-trim_start : (s : Text) → first_visible s ≡ true → trim_start s ≡ s
unfolding first_visible trim_start
first_visible-trim_start [] h = refl
first_visible-trim_start (c ∷ s) h = ground arith

pub trim_start-suffix : (s : Text) → (p : Text) × (s ≡ p ++ trim_start s)
unfolding trim_start
trim_start-suffix [] = ([], refl)
trim_start-suffix (c ∷ s) = elim (Bool-cases (is_space c)) [
  | inl e ↦ let h = trim_start-suffix s in (c ∷ h.0, rw e (ap (◌∷◌ c) h.1))
  | inr e ↦ ([], rw e refl)
]

pub first_visible-prefix : (s t : Text) → first_visible (s ++ t) ≡ true → first_visible s ≡ true
unfolding first_visible
first_visible-prefix [] t h = refl
first_visible-prefix (c ∷ s) t h = h

pub first_visible-append :
    (s t : Text) → is_empty s ≡ false → first_visible s ≡ true → first_visible (s ++ t) ≡ true
unfolding first_visible
first_visible-append [] t e h = cc
first_visible-append (c ∷ s) t e h = h

pub is_empty-reverse : (s : Text) → is_empty s ≡ false → is_empty (reverse s) ≡ false
is_empty-reverse [] h = cc
is_empty-reverse (c ∷ s) h = rw (reverse-cons c s) (go (reverse s))
  where
    go : (t : Text) → is_empty (t ++ c ∷ []) ≡ false
    go [] = refl
    go (d ∷ t) = refl

-- No white space at either end.
abbrev pub has_ends : Text → Bool
has_ends s = first_visible s && first_visible (reverse s)

-- What is trimmed is kept.
pub trim_keeps : (s : Text) → has_ends s ≡ true → trim s ≡ s
unfolding trim
trim_keeps s h =
    rw
      (
        first_visible-trim_start s (ground arith),
        first_visible-trim_start (reverse s) (ground arith),
        reverse-reverse s,
      )
      refl

pub trim-has_ends : (s : Text) → has_ends (trim s) ≡ true
unfolding trim
trim-has_ends s =
    let t = trim_start s in
    let u = trim_start (reverse t) in
    let cut = trim_start-suffix (reverse t) in
    let whole : t ≡ reverse u ++ reverse cut.0 =
      sym (reverse-reverse t) ∙ ap reverse cut.1 ∙ reverse-append cut.0 u in
    let front : first_visible (reverse u) ≡ true =
      first_visible-prefix (reverse u) (reverse cut.0)
        (subst (λ x. first_visible x ≡ true) whole (trim_start-first_visible s)) in
    rw (front, reverse-reverse u, trim_start-first_visible (reverse t)) refl

pub trim-trim : (s : Text) → trim (trim s) ≡ trim s
trim-trim s = trim_keeps (trim s) (trim-has_ends s)

every-first_visible : (s : Text) → every is_visible s ≡ true → first_visible s ≡ true
unfolding first_visible every
every-first_visible [] h = refl
every-first_visible (c ∷ s) h = ground arith

-- A text without white space is trimmed.
pub trim-same : (s : Text) → every is_visible s ≡ true → trim s ≡ s
unfolding trim
trim-same s h =
    rw
      (
        first_visible-trim_start s (every-first_visible s h),
        first_visible-trim_start (reverse s)
            (every-first_visible (reverse s) (every-reverse is_visible s h)),
      )
      (reverse-reverse s)

trim_start-every : (p : ℕ → Bool) (s : Text) → every p s ≡ true → every p (trim_start s) ≡ true
trim_start-every p s h =
    let cut = trim_start-suffix s in
    every-right p cut.0 (trim_start s) (subst (λ x. every p x ≡ true) cut.1 h)

pub trim-every : (p : ℕ → Bool) (s : Text) → every p s ≡ true → every p (trim s) ≡ true
unfolding trim
trim-every p s h = every-reverse p (trim_start (reverse (trim_start s))) (
    trim_start-every p (reverse (trim_start s))
      (every-reverse p (trim_start s) (trim_start-every p s h)))

length-snoc : (s : Text) (c : ℕ) → length (s ++ c ∷ []) ≡ suc (length s)
length-snoc [] c = refl
length-snoc (d ∷ s) c = ap suc (length-snoc s c)

length-reverse : (s : Text) → length (reverse s) ≡ length s
length-reverse [] = refl
length-reverse (c ∷ s) =
    ap length (reverse-cons c s) ∙ length-snoc (reverse s) c ∙ ap suc (length-reverse s)

pub length-trim_start : (s : Text) → length (trim_start s) ≤ length s
unfolding trim_start
length-trim_start [] = omega arith
length-trim_start (c ∷ s) = let ih = length-trim_start s in ground arith

pub length-trim : (s : Text) → length (trim s) ≤ length s
unfolding trim
length-trim s =
    let a = length-trim_start s in
    let b = length-reverse (trim_start s) in
    let c = length-trim_start (reverse (trim_start s)) in
    let d = length-reverse (trim_start (reverse (trim_start s))) in omega arith

pub lower-lower : (c : ℕ) → lower (lower c) ≡ lower c
unfolding lower
lower-lower c = ground arith

pub is_space-lower : (c : ℕ) → is_space (lower c) ≡ is_space c
unfolding lower is_space
is_space-lower c = ground arith

pub to_lower-to_lower : (s : Text) → to_lower (to_lower s) ≡ to_lower s
unfolding to_lower
to_lower-to_lower [] = refl
to_lower-to_lower (c ∷ s) = rw (lower-lower c) (ap (◌∷◌ (lower c)) (to_lower-to_lower s))

pub every-to_lower :
    (p q : ℕ → Bool) (s : Text)
    → ((c : ℕ) → p c ≡ true → q (lower c) ≡ true)
    → every p s ≡ true
    → every q (to_lower s) ≡ true
unfolding to_lower every
every-to_lower p q [] k h = refl
every-to_lower p q (c ∷ s) k h =
    let first = k c (ground arith) in let ih = every-to_lower p q s k (ground arith) in ground arith

abbrev pub is_lower : ℕ → Bool
is_lower c = lower c == c

-- A text in lower case is kept.
pub to_lower-same : (s : Text) → every is_lower s ≡ true → to_lower s ≡ s
unfolding to_lower every
to_lower-same [] h = refl
to_lower-same (c ∷ s) h =
    let first : lower c ≡ c = ground arith in rw first (ap (◌∷◌ c) (to_lower-same s (ground arith)))
