-- ===== src/Base/Triple.antt =====
-- What holds after a computation on mutable state: one predicate where it returned, one where it
-- raised.
use mathlib.Core.Path.{◌≡◌, refl}
use mathlib.Core.Bool.{Bool, true, false}
use streaming_system_compass.Base.Result.{Result, ok, err}
use streaming_system_compass.Base.Action.{Action, resume}
use streaming_system_compass.Failure.{Failure}

unfoldable pub Post :
    {S A : Type 0} → (A → S → Type 0) → (S → Type 0) → Result Failure A × S → Type 0
Post Q E (ok a, s) = Q a s
Post Q E (err e, s) = E s

pub resume-Post :
    {S A B : Type 0} {Q : A → S → Type 0} {E : S → Type 0} (Q' : B → S → Type 0) (E' : S → Type 0)
    (k : A → Action S B) (m : Result Failure A × S)
    → Post Q E m
    → ((a : A) (s : S) → Q a s → Post Q' E' (k a s))
    → ((s : S) → E s → E' s)
    → Post Q' E' (resume k m)
unfolding Post
resume-Post Q' E' k (ok a, s) h f g = f a s h
resume-Post Q' E' k (err e, s) h f g = g s h

pub weaken-Post :
    {S A : Type 0} {Q Q' : A → S → Type 0} {E E' : S → Type 0} (m : Result Failure A × S)
    → Post Q E m
    → ((a : A) (s : S) → Q a s → Q' a s)
    → ((s : S) → E s → E' s)
    → Post Q' E' m
unfolding Post
weaken-Post (ok a, s) h f g = f a s h
weaken-Post (err e, s) h f g = g s h

-- A pure computation leaves the state.
pub lift-Post :
    {S A B : Type 0} (Q : B → S → Type 0) (E : S → Type 0) (k : A → Action S B)
    (r : Result Failure A) (s : S)
    → ((a : A) → r ≡ ok a → Post Q E (k a s))
    → E s
    → Post Q E (resume k (r, s))
unfolding Post
lift-Post Q E k (ok a) s f g = f a refl
lift-Post Q E k (err e) s f g = g

pub if-rule :
    {A : Type 0} (P : A → Type 0) (b : Bool) (x y : A)
    → (b ≡ true → P x)
    → (b ≡ false → P y)
    → P (elim b [ true ↦ x | false ↦ y ])
if-rule P true x y f g = f refl
if-rule P false x y f g = g refl

pub returned-Post :
    {S A : Type 0} (Q : A → S → Type 0) (E : S → Type 0) (a : A) (s : S)
    → Q a s
    → Post Q E (ok a, s)
unfolding Post
returned-Post Q E a s h = h

pub lifted-Post :
    {S A : Type 0} (Q : S → Type 0) (E : S → Type 0) (r : Result Failure A) (s : S)
    → Q s
    → E s
    → Post (λ _. Q) E (r, s)
unfolding Post
lifted-Post Q E (ok a) s h g = h
lifted-Post Q E (err e) s h g = g

pub failed-Post :
    {S A : Type 0} (Q : A → S → Type 0) (E : S → Type 0) (e : Failure) (s : S)
    → E s
    → Post Q E (err e, s)
unfolding Post
failed-Post Q E e s h = h
