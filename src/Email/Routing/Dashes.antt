-- ===== src/Email/Routing/Dashes.antt =====
-- A routing token, with and without the dashes of a uuid.
use mathlib.Core.List.{append_assoc}
use resend_conversation_serv.Prelude.{
  ℕ, zero, suc, ◌+◌, ◌-◌, ◌≡◌, refl, sym, ap, ◌∙◌, arith, Bool, true, false, not, [], ◌∷◌, ◌++◌,
  ◌==◌, take, Bool-cases, inl, inr,
}
use resend_conversation_serv.Prelude.Text.{Text, every}
use resend_conversation_serv.Prelude.Text.Search.{drop, slice}
use resend_conversation_serv.Email.Routing.{strip_dashes, dashed, is_token, is_hex}
use resend_conversation_serv.Prelude.Text.Chars.{every_mono}

abbrev no_dash : ℕ → Bool
no_dash c = not (c == b'-')

strip-append : (s t : Text) → strip_dashes (s ++ t) ≡ strip_dashes s ++ strip_dashes t
strip-append [] t = refl
strip-append (c ∷ s) t = elim (Bool-cases (c == b'-')) [
  | inl e ↦ rw e (strip-append s t)
  | inr e ↦ rw e (ap (◌∷◌ c) (strip-append s t))
]

strip-same : (s : Text) → every no_dash s ≡ true → strip_dashes s ≡ s
unfolding every
strip-same [] h = refl
strip-same (c ∷ s) h =
    let e : (c == b'-') ≡ false = ground arith in rw e (ap (◌∷◌ c) (strip-same s (ground arith)))

take-drop : (n : ℕ) (s : Text) → take n s ++ drop n s ≡ s
take-drop zero s = refl
take-drop (suc n) [] = refl
take-drop (suc n) (c ∷ s) = ap (◌∷◌ c) (take-drop n s)

drop-nil : (n : ℕ) → drop n [] ≡ []
drop-nil zero = refl
drop-nil (suc n) = refl

drop-drop : (n m : ℕ) (s : Text) → drop n (drop m s) ≡ drop (m + n) s
drop-drop n zero s = ap (λ k. drop k s) (let e : n ≡ 0 + n = omega arith in e)
drop-drop n (suc m) [] = drop-nil n ∙ sym (drop-nil (suc m + n))
drop-drop n (suc m) (c ∷ s) =
    drop-drop n m s ∙ ap (λ k. drop k (c ∷ s)) (let e : suc (m + n) ≡ suc m + n = omega arith in e)

every-take : (n : ℕ) (s : Text) → every no_dash s ≡ true → every no_dash (take n s) ≡ true
unfolding every
every-take zero s h = refl
every-take (suc n) [] h = refl
every-take (suc n) (c ∷ s) h = let ih = every-take n s (ground arith) in ground arith

every-drop : (n : ℕ) (s : Text) → every no_dash s ≡ true → every no_dash (drop n s) ≡ true
unfolding every
every-drop zero s h = h
every-drop (suc n) [] h = refl
every-drop (suc n) (c ∷ s) h = every-drop n s (ground arith)

slice-plain :
    (a b : ℕ) (s : Text) → every no_dash s ≡ true → strip_dashes (slice a b s) ≡ slice a b s
slice-plain a b s h = strip-same (slice a b s) (every-take (b - a) (drop a s) (every-drop a s h))

-- The parts of a token, joined.
parts-same :
    (t : Text)
    → slice 0 8 t ++ (slice 8 12 t ++ (slice 12 16 t ++ (slice 16 20 t ++ drop 20 t))) ≡ t
parts-same t =
    rw
      (
        ← drop-drop 4 16 t,
        take-drop 4 (drop 16 t),
        ← drop-drop 4 12 t,
        take-drop 4 (drop 12 t),
        ← drop-drop 4 8 t,
        take-drop 4 (drop 8 t),
      )
      (take-drop 8 t)

strip-dash : (s t : Text) → strip_dashes (s ++ b'-' ∷ t) ≡ strip_dashes s ++ strip_dashes t
strip-dash s t = strip-append s (b'-' ∷ t)

strip-dashed : (t : Text) → every no_dash t ≡ true → strip_dashes (dashed t) ≡ t
unfolding dashed
strip-dashed t h =
    let a = slice 0 8 t in
    let b = slice 8 12 t in
    let c = slice 12 16 t in
    let d = slice 16 20 t in
    let e = drop 20 t in
    let joined : (((a ++ b) ++ c) ++ d) ++ e ≡ t =
      append_assoc ((a ++ b) ++ c) d e
      ∙ append_assoc (a ++ b) c (d ++ e)
      ∙ append_assoc a b (c ++ (d ++ e))
      ∙ parts-same t in
    rw
      (
        strip-append,
        strip-append,
        strip-append,
        strip-append,
        slice-plain 0 8 t h,
        slice-plain 8 12 t h,
        slice-plain 12 16 t h,
        slice-plain 16 20 t h,
        strip-same (drop 20 t) (every-drop 20 t h),
      )
      joined

hex-plain : (c : ℕ) → is_hex c ≡ true → no_dash c ≡ true
unfolding is_hex
hex-plain c h = ground arith

-- The dashes of a token in the form of a uuid are taken out again.
pub strip_dashes-dashed : (t : Text) → is_token t ≡ true → strip_dashes (dashed t) ≡ t
unfolding is_token
strip_dashes-dashed t h = strip-dashed t (every_mono is_hex no_dash t hex-plain (ground arith))
