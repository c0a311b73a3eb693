-- ===== src/Prelude/Text/Search.antt =====
-- Searching, splitting and slicing texts.
use Prim.Native.Nat.{ℕ, zero, suc, ◌-◌}
use mathlib.Core.Path.{◌≡◌, refl}
use mathlib.Core.Bool.{Bool, true, false, ◌&&◌, not}
use mathlib.Core.Option.{Option, none, some}
use mathlib.Core.List.{List, [], ◌∷◌, ◌++◌}
use native.Mathlib.Omega.{arith}
use resend_conversation_serv.Prelude.Tests.{◌==◌, if◌then◌else◌}
use resend_conversation_serv.Prelude.Table.{take, length}
use resend_conversation_serv.Prelude.Text.{Text, every, some_char}

abbrev pub drop : ℕ → Text → Text
drop zero s = s
drop (suc n) [] = []
drop (suc n) (c ∷ s) = drop n s

-- `slice(from, to)`
abbrev pub slice : ℕ → ℕ → Text → Text
slice from to s = take (to - from) (drop from s)

abbrev pub is_empty : Text → Bool
is_empty [] = true
is_empty (c ∷ s) = false

-- `includes` of one character
unfoldable pub includes : ℕ → Text → Bool
unfolding some_char
includes c s = some_char (λ d. d == c) s

abbrev pub starts_with : Text → Text → Bool
starts_with [] s = true
starts_with (c ∷ p) [] = false
starts_with (c ∷ p) (d ∷ s) = c == d && starts_with p s

abbrev pub ends_in : ℕ → Text → Bool
ends_in c [] = false
ends_in c (d ∷ []) = d == c
ends_in c (d ∷ e ∷ s) = ends_in c (e ∷ s)

-- What precedes and what follows the last occurrence of a character, `lastIndexOf`.
abbrev split_before : ℕ → ℕ → Text → Option (Text × Text) → Option (Text × Text)
split_before c x s (some (before, after)) = some (x ∷ before, after)
split_before c x s none = if x == c then some ([], s) else none

unfoldable pub split_last : ℕ → Text → Option (Text × Text)
split_last c [] = none
split_last c (x ∷ s) = split_before c x s (split_last c s)

-- The same for the last occurrence of a text.
abbrev marker_before : Text → ℕ → Text → Option (Text × Text) → Option (Text × Text)
marker_before m x s (some (before, after)) = some (x ∷ before, after)
marker_before m x s none =
    if starts_with m (x ∷ s) then some ([], drop (length m) (x ∷ s)) else none

unfoldable pub split_marker : Text → Text → Option (Text × Text)
split_marker m [] = none
split_marker m (x ∷ s) = marker_before m x s (split_marker m s)

-- `split(c)`
abbrev pub push_first : ℕ → List Text → List Text
push_first x [] = (x ∷ []) ∷ []
push_first x (p ∷ ps) = (x ∷ p) ∷ ps

unfoldable pub split_on : ℕ → Text → List Text
split_on c [] = [] ∷ []
split_on c (x ∷ s) = let rest = split_on c s in if x == c then [] ∷ rest else push_first x rest

pub split_last-none :
    (c : ℕ) (s : Text) → every (λ d. not (d == c)) s ≡ true → split_last c s ≡ none
unfolding split_last every
split_last-none c [] h = refl
split_last-none c (x ∷ s) h = let ih = split_last-none c s (ground arith) in rw ih (ground arith)

-- Where the character does not occur after this occurrence, this one is the last.
pub split_last-append :
    (c : ℕ) (before after : Text)
    → every (λ d. not (d == c)) after ≡ true
    → split_last c (before ++ c ∷ after) ≡ some (before, after)
unfolding split_last
split_last-append c [] after h = rw (split_last-none c after h) (ground arith)
split_last-append c (x ∷ before) after h = rw (split_last-append c before after h) refl

pub split_marker-none :
    (c : ℕ) (m s : Text) → every (λ d. not (d == c)) s ≡ true → split_marker (c ∷ m) s ≡ none
unfolding split_marker every
split_marker-none c m [] h = refl
split_marker-none c m (x ∷ s) h =
    let ih = split_marker-none c m s (ground arith) in rw ih (ground arith)

pub split_marker-append :
    (m : Text) (before after : Text)
    → split_marker m (m ++ after) ≡ some ([], after)
    → split_marker m (before ++ (m ++ after)) ≡ some (before, after)
unfolding split_marker
split_marker-append m [] after h = h
split_marker-append m (x ∷ before) after h = rw (split_marker-append m before after h) refl

pub not-includes : (c : ℕ) (s : Text) → every (λ d. not (d == c)) s ≡ true → includes c s ≡ false
unfolding includes every some_char
not-includes c [] h = refl
not-includes c (d ∷ s) h = let ih = not-includes c s (ground arith) in ground arith
