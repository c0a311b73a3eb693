-- ===== src/Prelude/Tests.antt =====
-- Boolean tests on the native numbers and on texts, and the conditional.
use Prim.Native.Nat.{ℕ, ◌≤◌, compare, Ordering}
use Prim.Native.String.{String}
use text.Mathlib.Text.{◌==◌ as str_eq}
use mathlib.Core.Path.{◌≡◌, refl}
use mathlib.Core.Logic.{◌↔◌, ◌⊎◌, inl, inr}
use mathlib.Core.Bool.{Bool, true, false, ◌&&◌, ◌||◌}
use mathlib.Core.Option.{Option, none, some}
use native.Mathlib.Omega.{arith}

abbrev pub ltb : ℕ → ℕ → Bool
ltb a b = elim (compare a b) [ Ordering.lt ↦ true | _ ↦ false ]

abbrev pub leb : ℕ → ℕ → Bool
leb a b = elim (compare a b) [ Ordering.gt ↦ false | _ ↦ true ]

infix 50 ◌==◌
abbrev pub ◌==◌ : ℕ → ℕ → Bool
a == b = elim (compare a b) [ Ordering.eq ↦ true | _ ↦ false ]

infix 1 if◌then◌else◌
abbrev pub if◌then◌else◌ {ℓ} : {A : Type ℓ} → Bool → A → A → A
if true then x else y = x
if false then x else y = y

-- `column = value` in SQL: a NULL column equals nothing.
abbrev pub holds : Option ℕ → ℕ → Bool
holds none b = false
holds (some a) b = a == b

-- `column IS NULL OR column <= now`.
abbrev pub null_or_past : Option ℕ → ℕ → Bool
null_or_past none now = true
null_or_past (some t) now = leb t now

abbrev pub is_null {ℓ} : {A : Type ℓ} → Option A → Bool
is_null none = true
is_null (some a) = false

-- The order of `ORDER BY first, second`, and of three columns.
abbrev pub key_le : ℕ × ℕ → ℕ × ℕ → Bool
key_le a b = ltb a.0 b.0 || (a.0 == b.0 && leb a.1 b.1)

abbrev pub key₃_le : ℕ × ℕ × ℕ → ℕ × ℕ × ℕ → Bool
key₃_le a b = ltb a.0 b.0 || (a.0 == b.0 && (ltb a.1 b.1 || (a.1 == b.1 && leb a.2 b.2)))

-- `column = value` for a text column that may be NULL.
abbrev pub text_holds : Option String → String → Bool
text_holds none t = false
text_holds (some s) t = str_eq s t

pub ==_iff : (a b : ℕ) → ((a == b) ≡ true) ↔ (a ≡ b)
==_iff a b = ground arith

pub ==_refl : (a : ℕ) → (a == a) ≡ true
==_refl a = ground arith

pub leb_le : (a b : ℕ) → leb a b ≡ true → a ≤ b
leb_le a b h = ground arith

-- To split on a computed value and keep the equation.
pub Bool-cases : (b : Bool) → (b ≡ true) ⊎ (b ≡ false)
Bool-cases true = inl refl
Bool-cases false = inr refl

pub Option-cases {ℓ} : {A : Type ℓ} (o : Option A) → (o ≡ none) ⊎ ((a : A) × (o ≡ some a))
Option-cases none = inl refl
Option-cases (some a) = inr (a, refl)
