-- ===== src/Prelude/Table.antt =====
-- Tables as lists of rows: the statements that the program sends to the database, and their laws.
use Prim.Native.Nat.{ℕ, zero, suc}
use mathlib.Core.Path.{◌≡◌, refl, ap, subst}
use mathlib.Core.Bool.{Bool, true, false, ◌||◌}
use mathlib.Core.Option.{Option, none, some}
use mathlib.Core.Logic.{inl, inr}
use mathlib.Core.List.{List, [], ◌∷◌, ◌++◌}
use native.Mathlib.Omega.{arith}
use resend_conversation_serv.Prelude.Tests.{if◌then◌else◌, Bool-cases}

module _ {ℓ} {A : Type ℓ} where
  abbrev pub length : List A → ℕ
  length [] = 0
  length (x ∷ xs) = suc (length xs)

  abbrev pub take : ℕ → List A → List A
  take zero xs = []
  take (suc n) [] = []
  take (suc n) (x ∷ xs) = x ∷ take n xs

  abbrev pub get_elem? : List A → ℕ → Option A
  get_elem? [] i = none
  get_elem? (x ∷ xs) zero = some x
  get_elem? (x ∷ xs) (suc i) = get_elem? xs i

  -- SELECT … WHERE
  abbrev pub select : (A → Bool) → List A → List A
  select p [] = []
  select p (x ∷ xs) = let rest = select p xs in if p x then x ∷ rest else rest

  -- UPDATE … SET … WHERE
  abbrev pub update : (A → Bool) → (A → A) → List A → List A
  update p f [] = []
  update p f (x ∷ xs) = (if p x then f x else x) ∷ update p f xs

  -- DELETE … WHERE
  abbrev pub delete : (A → Bool) → List A → List A
  delete p [] = []
  delete p (x ∷ xs) = let rest = delete p xs in if p x then rest else x ∷ rest

  -- The number of rows that a WHERE clause selects.
  abbrev pub count : (A → Bool) → List A → ℕ
  count p [] = 0
  count p (x ∷ xs) = let rest = count p xs in if p x then suc rest else rest

  abbrev pub find : (A → Bool) → List A → Option A
  find p [] = none
  find p (x ∷ xs) = let rest = find p xs in if p x then some x else rest

  abbrev pub any : (A → Bool) → List A → Bool
  any p [] = false
  any p (x ∷ xs) = p x || any p xs

  -- ORDER BY, for an order given as a test.
  unfoldable pub insert_by : (A → A → Bool) → A → List A → List A
  insert_by le a [] = a ∷ []
  insert_by le a (x ∷ xs) = let rest = insert_by le a xs in if le a x then a ∷ x ∷ xs else x ∷ rest

  unfoldable pub order_by : (A → A → Bool) → List A → List A
  unfolding insert_by
  order_by le [] = []
  order_by le (x ∷ xs) = insert_by le x (order_by le xs)

module _ {ℓ} {A : Type ℓ} where
  abbrev pub All : (A → Type 0) → List A → Type 0
  All P [] = Unit
  All P (x ∷ xs) = P x × All P xs

  -- The rows of two states of one table, in pairs.
  abbrev pub All₂ : (A → A → Type 0) → List A → List A → Type 0
  All₂ R [] [] = Unit
  All₂ R [] (y ∷ ys) = ⊥
  All₂ R (x ∷ xs) [] = ⊥
  All₂ R (x ∷ xs) (y ∷ ys) = R x y × All₂ R xs ys

  pub All-mono : {P Q : A → Type 0} → ((a : A) → P a → Q a) → (xs : List A) → All P xs → All Q xs
  All-mono f [] h = tt
  All-mono f (x ∷ xs) h = (f x h.0, All-mono f xs h.1)

  pub All-update :
      {P : A → Type 0} (p : A → Bool) (f : A → A) (xs : List A)
      → ((a : A) → p a ≡ true → P a → P (f a))
      → All P xs
      → All P (update p f xs)
  All-update p f [] k h = tt
  All-update p f (x ∷ xs) k h = elim (Bool-cases (p x)) [
    | inl e ↦ rw e (k x e h.0, All-update p f xs k h.1)
    | inr e ↦ rw e (h.0, All-update p f xs k h.1)
  ]

  pub All₂-refl : (R : A → A → Type 0) → ((a : A) → R a a) → (xs : List A) → All₂ R xs xs
  All₂-refl R r [] = tt
  All₂-refl R r (x ∷ xs) = (r x, All₂-refl R r xs)

  pub All₂-trans :
      (R : A → A → Type 0)
      → ((a b c : A) → R a b → R b c → R a c)
      → (xs ys zs : List A) → All₂ R xs ys
      → All₂ R ys zs
      → All₂ R xs zs
  All₂-trans R t [] [] [] h k = tt
  All₂-trans R t [] [] (z ∷ zs) h k = absurd k
  All₂-trans R t [] (y ∷ ys) zs h k = absurd h
  All₂-trans R t (x ∷ xs) [] zs h k = absurd h
  All₂-trans R t (x ∷ xs) (y ∷ ys) [] h k = absurd k
  All₂-trans R t (x ∷ xs) (y ∷ ys) (z ∷ zs) h k = (t x y z h.0 k.0, All₂-trans R t xs ys zs h.1 k.1)

  -- What an UPDATE does to each row.
  pub All₂-map :
      {R Q : A → A → Type 0}
      → ((a b : A) → R a b → Q a b)
      → (xs ys : List A) → All₂ R xs ys
      → All₂ Q xs ys
  All₂-map f [] [] h = tt
  All₂-map f [] (y ∷ ys) h = absurd h
  All₂-map f (x ∷ xs) [] h = absurd h
  All₂-map f (x ∷ xs) (y ∷ ys) h = (f x y h.0, All₂-map f xs ys h.1)

  pub All₂-update :
      (R : A → A → Type 0) (p : A → Bool) (f : A → A) (xs : List A)
      → ((a : A) → p a ≡ true → R a (f a))
      → ((a : A) → R a a)
      → All₂ R xs (update p f xs)
  All₂-update R p f [] k r = tt
  All₂-update R p f (x ∷ xs) k r = elim (Bool-cases (p x)) [
    | inl e ↦ rw e (k x e, All₂-update R p f xs k r)
    | inr e ↦ rw e (r x, All₂-update R p f xs k r)
  ]

  -- An UPDATE that selects no row changes nothing.
  pub update-none : (p : A → Bool) (f : A → A) (xs : List A) → count p xs ≡ 0 → update p f xs ≡ xs
  update-none p f [] h = refl
  update-none p f (x ∷ xs) h = elim (Bool-cases (p x)) [
    | inl e ↦ absurd (let h' : suc (count p xs) ≡ 0 = rw e at h in omega arith)
    | inr e ↦ rw e (ap (◌∷◌ x) (update-none p f xs (rw e at h)))
  ]

  pub count-find : (p : A → Bool) (xs : List A) → find p xs ≡ none → count p xs ≡ 0
  count-find p [] h = refl
  count-find p (x ∷ xs) h = ground (arith, count-find p xs)

  -- Where related rows are selected alike, what is found among the one is found among the other.
  pub All₂-find :
      (R : A → A → Type 0) (p : A → Bool)
      → ((a b : A) → R a b → p b ≡ p a)
      → (xs ys : List A) (m : A) → All₂ R xs ys
      → find p xs ≡ some m
      → (r : A) × (find p ys ≡ some r) × R m r
  All₂-find R p k [] ys m h e = cc
  All₂-find R p k (a ∷ xs) [] m h e = absurd h
  All₂-find R p k (a ∷ xs) (b ∷ ys) m h e = elim (Bool-cases (p a)) [
    | inl q ↦
        let found : some a ≡ some m = rw q at e in
        let same : a ≡ m = cc in (b, rw (k a b h.0, q) refl, subst (λ x. R x b) same h.0)
    | inr q ↦
        let rest : find p xs ≡ some m = rw q at e in
        let (r, found, related) = All₂-find R p k xs ys m h.1 rest in
        (r, rw (k a b h.0, q) found, related)
  ]

  pub All-append : (P : A → Type 0) (xs ys : List A) → All P xs → All P ys → All P (xs ++ ys)
  All-append P [] ys h k = k
  All-append P (x ∷ xs) ys h k = (h.0, All-append P xs ys h.1 k)

  -- A property of every row, required only of the rows that an UPDATE selects or leaves.
  pub All-update_cases :
      {P Q : A → Type 0} (p : A → Bool) (f : A → A) (xs : List A)
      → ((a : A) → p a ≡ true → P a → Q (f a))
      → ((a : A) → p a ≡ false → P a → Q a)
      → All P xs
      → All Q (update p f xs)
  All-update_cases p f [] k l h = tt
  All-update_cases p f (x ∷ xs) k l h = elim (Bool-cases (p x)) [
    | inl e ↦ rw e (k x e h.0, All-update_cases p f xs k l h.1)
    | inr e ↦ rw e (l x e h.0, All-update_cases p f xs k l h.1)
  ]

  -- A property of every two rows, the earlier one first.
  abbrev pub AllPairs : (A → A → Type 0) → List A → Type 0
  AllPairs R [] = Unit
  AllPairs R (x ∷ xs) = All (R x) xs × AllPairs R xs

  pub AllPairs-snoc :
      (R : A → A → Type 0) (xs : List A) (y : A)
      → AllPairs R xs
      → All (λ x. R x y) xs
      → AllPairs R (xs ++ y ∷ [])
  AllPairs-snoc R [] y h k = (tt, tt)
  AllPairs-snoc R (x ∷ xs) y h k =
      (All-append (R x) xs (y ∷ []) h.0 (k.0, tt), AllPairs-snoc R xs y h.1 k.1)

  -- An UPDATE that keeps the relation between rows keeps it for all pairs.
  pub AllPairs-update :
      (R : A → A → Type 0) (p : A → Bool) (f : A → A) (xs : List A)
      → ((a b : A) → R a b → R (f a) b)
      → ((a b : A) → R a b → R a (f b))
      → AllPairs R xs
      → AllPairs R (update p f xs)
  AllPairs-update R p f [] l r h = tt
  AllPairs-update R p f (x ∷ xs) l r h = elim (Bool-cases (p x)) [
    | inl e ↦ rw e (
      All-mono (λ b. l x b) _ (All-update p f xs (λ b _. r x b) h.0),
      AllPairs-update R p f xs l r h.1,
    )
    | inr e ↦ rw e (All-update p f xs (λ b _. r x b) h.0, AllPairs-update R p f xs l r h.1)
  ]

  pub find-holds : (p : A → Bool) (xs : List A) (x : A) → find p xs ≡ some x → p x ≡ true
  find-holds p [] x h = cc
  find-holds p (y ∷ xs) x h = ground (arith, find-holds p xs x)

  -- What holds of every row holds of the one that is found.
  pub find-All :
      (P : A → Type 0) (p : A → Bool) (xs : List A) (x : A) → find p xs ≡ some x → All P xs → P x
  find-All P p [] x h a = cc
  find-All P p (y ∷ xs) x h a = elim (Bool-cases (p y)) [
    | inl e ↦ subst P (ground arith) a.0
    | inr e ↦ find-All P p xs x (rw e at h) a.1
  ]

  -- What holds of every row holds of the row at an index.
  pub get_elem?-All :
      (P : A → Type 0) (xs : List A) (n : ℕ) (x : A) → get_elem? xs n ≡ some x → All P xs → P x
  get_elem?-All P [] n x h a = cc
  get_elem?-All P (y ∷ xs) zero x h a = subst P (ground arith) a.0
  get_elem?-All P (y ∷ xs) (suc n) x h a = get_elem?-All P xs n x h a.1
