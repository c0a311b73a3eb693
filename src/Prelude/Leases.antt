-- ===== src/Prelude/Leases.antt =====
-- The statement with which every worker claims rows (SELECT … WHERE … ORDER BY … LIMIT … FOR UPDATE
-- SKIP LOCKED, then an UPDATE that sets the lease), and what a claim keeps from another one.
use Prim.Native.Nat.{ℕ, zero, suc, ◌<◌}
use mathlib.Core.Path.{◌≡◌}
use mathlib.Core.Bool.{Bool, true, false}
use mathlib.Core.Option.{Option, some}
use mathlib.Core.Logic.{inl, inr}
use mathlib.Core.List.{List, [], ◌∷◌}
use native.Mathlib.Omega.{arith}
use resend_conversation_serv.Prelude.Tests.{Bool-cases, ◌==◌, null_or_past}
use resend_conversation_serv.Prelude.Table.{
  take, select, update, any, insert_by, order_by, All, All-mono,
}

module _ {ℓ} {A : Type ℓ} where
  unfoldable pub due : (A → A → Bool) → (A → Bool) → ℕ → List A → List A
  due le ready limit rows = take limit (order_by le (select ready rows))

  -- `where: { id: { in: rows.map((row) => row.id) } }`
  abbrev pub is_among : (A → ℕ) → List A → ℕ → Bool
  is_among key rows k = any (λ x. key x == k) rows

  select-All :
      (P : A → Type 0) (p : A → Bool) (xs : List A)
      → ((a : A) → p a ≡ true → P a)
      → All P (select p xs)
  select-All P p [] k = tt
  select-All P p (x ∷ xs) k = elim (Bool-cases (p x)) [
    | inl e ↦ rw e (k x e, select-All P p xs k)
    | inr e ↦ rw e (select-All P p xs k)
  ]

  pub select-All_of : (P : A → Type 0) (p : A → Bool) (xs : List A) → All P xs → All P (select p xs)
  select-All_of P p [] h = tt
  select-All_of P p (x ∷ xs) h = elim (Bool-cases (p x)) [
    | inl e ↦ rw e (h.0, select-All_of P p xs h.1)
    | inr e ↦ rw e (select-All_of P p xs h.1)
  ]

  pub select-holds : (p : A → Bool) (xs : List A) → All (λ a. p a ≡ true) (select p xs)
  select-holds p xs = select-All (λ a. p a ≡ true) p xs (λ a h. h)

  insert_by-All :
      (P : A → Type 0) (le : A → A → Bool) (a : A) (xs : List A)
      → P a
      → All P xs
      → All P (insert_by le a xs)
  unfolding insert_by
  insert_by-All P le a [] p h = (p, tt)
  insert_by-All P le a (x ∷ xs) p h = elim (Bool-cases (le a x)) [
    | inl e ↦ rw e (p, h)
    | inr e ↦ rw e (h.0, insert_by-All P le a xs p h.1)
  ]

  pub order_by-All :
      (P : A → Type 0) (le : A → A → Bool) (xs : List A) → All P xs → All P (order_by le xs)
  unfolding order_by
  order_by-All P le [] h = tt
  order_by-All P le (x ∷ xs) h =
      insert_by-All P le x (order_by le xs) h.0 (order_by-All P le xs h.1)

  take-All : (P : A → Type 0) (n : ℕ) (xs : List A) → All P xs → All P (take n xs)
  take-All P zero xs h = tt
  take-All P (suc n) [] h = tt
  take-All P (suc n) (x ∷ xs) h = (h.0, take-All P n xs h.1)

  All-both : (P Q : A → Type 0) (xs : List A) → All P xs → All Q xs → All (λ a. P a × Q a) xs
  All-both P Q [] h k = tt
  All-both P Q (x ∷ xs) h k = ((h.0, k.0), All-both P Q xs h.1 k.1)

  -- The rows of a claim satisfy its WHERE clause, and whatever all rows of the table satisfy.
  pub due-All :
      (P : A → Type 0) (le : A → A → Bool) (ready : A → Bool) (limit : ℕ) (rows : List A)
      → All P rows
      → All (λ a. (ready a ≡ true) × P a) (due le ready limit rows)
  unfolding due
  due-All P le ready limit rows h =
      take-All (λ a. (ready a ≡ true) × P a) limit (order_by le (select ready rows))
        (order_by-All (λ a. (ready a ≡ true) × P a) le (select ready rows)
          (All-both (λ a. ready a ≡ true) P (select ready rows) (select-holds ready rows)
            (select-All_of P ready rows h)))

  module _ (key : A → ℕ) (lease_until : A → Option ℕ) where
    -- The row is not one of the claimed ones, or its lease ends at the time.
    abbrev pub Held : List A → ℕ → A → Type 0
    Held claimed t a = is_among key claimed (key a) ≡ true → lease_until a ≡ some t

    pub lease-Held :
        (lease : A → A) (claimed : List A) (t : ℕ) (rows : List A)
        → ((a : A) → lease_until (lease a) ≡ some t)
        → All (Held claimed t) (update (λ a. is_among key claimed (key a)) lease rows)
    lease-Held lease claimed t [] h = tt
    lease-Held lease claimed t (x ∷ xs) h = elim (Bool-cases (is_among key claimed (key x))) [
      | inl e ↦ rw e ((λ _. h x), lease-Held lease claimed t xs h)
      | inr e ↦ rw e ((λ e'. absurd (ground arith)), lease-Held lease claimed t xs h)
    ]

    -- Until the lease ends, a claim whose WHERE clause asks for an expired lease takes none of the
    -- rows that are held.
    pub due-excludes :
        (le : A → A → Bool) (ready : A → Bool) (limit now t : ℕ) (claimed rows : List A)
        → ((a : A) → ready a ≡ true → null_or_past (lease_until a) now ≡ true)
        → now < t
        → All (Held claimed t) rows
        → All (λ a. is_among key claimed (key a) ≡ false) (due le ready limit rows)
    due-excludes le ready limit now t claimed rows expired before h =
        All-mono
          (λ a k. elim (Bool-cases (is_among key claimed (key a))) [
            | inl e ↦ absurd (let past = expired a k.0 in let held = k.1 e in ground arith)
            | inr e ↦ e
          ])
          (due le ready limit rows) (due-All (Held claimed t) le ready limit rows h)
