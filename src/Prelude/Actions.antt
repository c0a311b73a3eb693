-- ===== src/Prelude/Actions.antt =====
-- Asynchronous functions that read and write the database and may throw. What was written before
-- an exception stays written, except inside a transaction, which rolls back.
use mathlib.Core.Path.{◌≡◌, refl, sym, ◌∙◌}
use mathlib.Core.Logic.{◌≢◌}
use native.Mathlib.Omega.{arith}

pub data Outcome {ℓ} (E A : Type ℓ) : Type ℓ where
  done : A → Outcome E A
  threw : E → Outcome E A

abbrev pub Action {ℓ} : Type ℓ → Type ℓ → Type ℓ → Type ℓ
Action S E A = S → Outcome E A × S

module _ {ℓ} {S E A : Type ℓ} where
  abbrev pub pure : A → Action S E A
  pure a s = (done a, s)

  abbrev pub throw : E → Action S E A
  throw e s = (threw e, s)

  -- `client.$transaction(…)`: all or nothing.
  abbrev rollback : S → Outcome E A × S → Outcome E A × S
  rollback s (done a, s') = (done a, s')
  rollback s (threw e, s') = (threw e, s)

  unfoldable pub transaction : Action S E A → Action S E A
  transaction m s = rollback s (m s)

  -- A transaction that throws has changed nothing.
  pub transaction-threw :
      (m : Action S E A) (s : S) (e : E) → (transaction m s).0 ≡ threw e → (transaction m s).1 ≡ s
  unfolding transaction
  transaction-threw m s e h = ground arith

module _ {ℓ} {S E A B : Type ℓ} where
  abbrev continue : Outcome E A → (A → Action S E B) → Action S E B
  continue (done a) f s = f a s
  continue (threw e) f s = (threw e, s)

  infixl 10 ◌>>=◌ ◌>>◌
  abbrev pub ◌>>=◌ : Action S E A → (A → Action S E B) → Action S E B
  ◌>>=◌ m f s = let (r, s') = m s in continue r f s'

  abbrev pub ◌>>◌ : Action S E A → Action S E B → Action S E B
  m >> n = m >>= λ _. n

-- Every run of the action relates the state before to the state after, whether it throws or not.
abbrev pub Within {ℓ} : {S E A : Type ℓ} → (S → S → Type 0) → Action S E A → Type ℓ
Within {S = S} R m = (s : S) → R s (m s).1

module _ {ℓ} {S E A B : Type ℓ} (R : S → S → Type 0) where
  continue-Within :
      ((a b c : S) → R a b → R b c → R a c)
      → (s s' : S) (r : Outcome E A) (f : A → Action S E B) → R s s'
      → ((a : A) → Within R (f a))
      → R s (continue r f s').1
  continue-Within trans s s' (done a) f h k = trans s s' _ h (k a s')
  continue-Within trans s s' (threw e) f h k = h

  pub Within-bind :
      ((a b c : S) → R a b → R b c → R a c)
      → (m : Action S E A) (f : A → Action S E B) → Within R m
      → ((a : A) → Within R (f a))
      → Within R (m >>= f)
  Within-bind trans m f h k s = continue-Within trans s (m s).1 (m s).0 f (h s) k

module _ {ℓ} {S E A : Type ℓ} (R : S → S → Type 0) where
  rollback-Within : (s : S) (r : Outcome E A) (s' : S) → R s s → R s s' → R s (rollback s (r, s')).1
  rollback-Within s (done a) s' refl_s h = h
  rollback-Within s (threw e) s' refl_s h = refl_s

  -- A transaction, at one state.
  pub related-transaction :
      (m : Action S E A) (s : S) → R s s → R s (m s).1 → R s (transaction m s).1
  unfolding transaction
  related-transaction m s refl_s h = rollback-Within s (m s).0 (m s).1 refl_s h

  pub Within-transaction :
      (m : Action S E A) → ((a : S) → R a a) → Within R m → Within R (transaction m)
  unfolding transaction
  Within-transaction m refl_R h s = rollback-Within s (m s).0 (m s).1 (refl_R s) (h s)

module _ {ℓ} {S E A B : Type ℓ} where
  -- `await m; return b;` returns nothing but `b`.
  pub bind_pure-done :
      (m : Action S E A) (b r : B) (s : S) → ((m >>= λ _. pure b) s).0 ≡ done r → r ≡ b
  bind_pure-done m b r s h = go (m s).0 (m s).1 h
    where
      go : (o : Outcome E A) (s' : S) → (continue o (λ _. pure b) s').0 ≡ done r → r ≡ b
      go (done a) s' k = ground arith
      go (threw e) s' k = cc

-- No run from the state returns a value.
abbrev pub Throws {ℓ} : {S E A : Type ℓ} → Action S E A → S → Type ℓ
Throws {A = A} m s = (a : A) → (m s).0 ≢ done a

module _ {ℓ} {S E A B : Type ℓ} (P : S → Type 0) where
  continue-Throws :
      (r : Outcome E A) (f : A → Action S E B) (s : S)
      → P s
      → ((a : A) (s' : S) → P s' → Throws (f a) s')
      → (b : B) → (continue r f s).0 ≢ done b
  continue-Throws (done a) f s h k = k a s h
  continue-Throws (threw e) f s h k = λ b q. cc

  -- What follows a step throws wherever that step may lead.
  pub bind-Throws :
      (m : Action S E A) (f : A → Action S E B) (s : S)
      → P (m s).1
      → ((a : A) (s' : S) → P s' → Throws (f a) s')
      → Throws (m >>= f) s
  bind-Throws m f s h k = continue-Throws (m s).0 f (m s).1 h k

module _ {ℓ} {S E A : Type ℓ} where
  rollback-Throws :
      (s : S) (r : Outcome E A) (s' : S) → ((a : A) → r ≢ done a) → (rollback s (r, s')).1 ≡ s
  rollback-Throws s (done a) s' h = absurd (h a refl)
  rollback-Throws s (threw e) s' h = refl

  rollback-same : (s : S) (r : Outcome E A) (s' : S) → (rollback s (r, s')).0 ≡ r
  rollback-same s (done a) s' = refl
  rollback-same s (threw e) s' = refl

  -- A transaction returns or throws what its steps return or throw.
  pub transaction-same : (m : Action S E A) (s : S) → (transaction m s).0 ≡ (m s).0
  unfolding transaction
  transaction-same m s = rollback-same s (m s).0 (m s).1

  -- A transaction whose steps throw throws, and changes nothing.
  pub transaction-Throws :
      (m : Action S E A) (s : S) → Throws m s → ((transaction m s).1 ≡ s) × Throws (transaction m) s
  unfolding transaction
  transaction-Throws m s h =
      (rollback-Throws s (m s).0 (m s).1 h, λ a q. h a (sym (rollback-same s (m s).0 (m s).1) ∙ q))
