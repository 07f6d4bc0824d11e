-- ===== src/Base/Action.antt =====
-- A computation on mutable state that may raise: it ends with a value or an exception, and in either
-- case with the state that it leaves.
use mathlib.Core.Path.{◌≡◌, refl}
use streaming_system_compass.Base.Result.{Result, ok, err}
use streaming_system_compass.Failure.{Failure}

abbrev pub Action : Type 0 → Type 0 → Type 0
Action S A = S → Result Failure A × S

-- What follows a computation: an exception passes on.
abbrev pub resume :
    {S A B : Type 0} → (A → Action S B) → Result Failure A × S → Result Failure B × S
resume k (ok a, s) = k a s
resume k (err e, s) = (err e, s)

infixl 5 ◌>>=◌ ◌>>◌
abbrev pub ◌>>=◌ : {S A B : Type 0} → Action S A → (A → Action S B) → Action S B
(m >>= k) s = resume k (m s)

abbrev pub ◌>>◌ : {S A B : Type 0} → Action S A → Action S B → Action S B
(m >> k) s = resume (λ _. k) (m s)

abbrev pub return : {S A : Type 0} → A → Action S A
return a s = (ok a, s)

abbrev pub raise : {S A : Type 0} → Failure → Action S A
raise e s = (err e, s)

-- A pure computation that may raise.
abbrev pub lift : {S A : Type 0} → Result Failure A → Action S A
lift r s = (r, s)

-- To split on how a computation ended.
pub resume-rule :
    {S A B : Type 0} (P : Result Failure B × S → Type 0) (k : A → Action S B)
    (m : Result Failure A × S)
    → ((a : A) (s : S) → m ≡ (ok a, s) → P (k a s))
    → ((e : Failure) (s : S) → m ≡ (err e, s) → P (err e, s))
    → P (resume k m)
resume-rule P k (ok a, s) f g = f a s refl
resume-rule P k (err e, s) f g = g e s refl
