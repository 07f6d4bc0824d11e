-- ===== src/Base/Result.antt =====
-- A computation that may raise: the value, or the exception.
use mathlib.Core.Path.{◌≡◌, refl, subst}
use mathlib.Core.Logic.{◌⊎◌, inl, inr}
use mathlib.Core.Bool.{Bool, true, false}

pub data Result {ℓ} (E : Type ℓ) (A : Type ℓ) : Type ℓ where
  ok : A → Result E A
  err : E → Result E A

module _ {ℓ} {E : Type ℓ} where
  infixl 5 ◌>>=◌ ◌>>◌
  abbrev pub ◌>>=◌ : {A B : Type ℓ} → Result E A → (A → Result E B) → Result E B
  ok a >>= f = f a
  err e >>= f = err e

  abbrev pub ◌>>◌ : {A B : Type ℓ} → Result E A → Result E B → Result E B
  m >> k = m >>= λ _. k

  pub Result-cases :
      {A : Type ℓ} (r : Result E A) → ((a : A) × (r ≡ ok a)) ⊎ ((e : E) × (r ≡ err e))
  Result-cases (ok a) = inl (a, refl)
  Result-cases (err e) = inr (e, refl)

-- `if failing: raise e`
abbrev pub raise_if : {E : Type 0} → Bool → E → Result E (Unit {0})
raise_if true e = err e
raise_if false e = ok tt

-- What holds of the value of a computation that did not raise.
module _ {E : Type 0} where
  unfoldable pub Ensures : {A : Type 0} → (A → Type 0) → Result E A → Type 0
  Ensures P (ok a) = P a
  Ensures P (err e) = Unit {0}

  pub bind-Ensures :
      {A B : Type 0} {P : A → Type 0} (Q : B → Type 0) (m : Result E A) (k : A → Result E B)
      → Ensures P m
      → ((a : A) → P a → Ensures Q (k a))
      → Ensures Q (m >>= k)
  unfolding Ensures
  bind-Ensures Q (ok a) k h f = f a h
  bind-Ensures Q (err e) k h f = tt

  -- The value that a computation has.
  pub value-Ensures : {A : Type 0} (m : Result E A) → Ensures (λ a. m ≡ ok a) m
  unfolding Ensures
  value-Ensures (ok a) = refl
  value-Ensures (err e) = tt

  pub extract-Ensures :
      {A : Type 0} (P : A → Type 0) (m : Result E A) (a : A) → m ≡ ok a → Ensures P m → P a
  unfolding Ensures
  extract-Ensures P m a e h = subst (Ensures P) e h
