-- ===== src/Order/Contract/Edition/Checks.antt =====
-- What a passed check means: the guards and loops of the structural checks of
-- src/core/order/correctness_contract.py, and its tests of membership and uniqueness.
use streaming_system_compass.Base.{
  Bool, true, false, not, ◌⊎◌, inl, inr, List, [], ◌∷◌, ◌≡◌, refl, arith, Bool-cases,
}
use streaming_system_compass.Base.Result.{Result, ok, err, ◌>>=◌, ◌>>◌, raise_if, Result-cases}
use streaming_system_compass.Failure.{Failure, invalid_contract}
use streaming_system_compass.Order.{CommandType, EventType, OrderStatus, status_eq, command_eq}
use streaming_system_compass.Order.Contract.{OrderCorrectnessRuleId}
use streaming_system_compass.Order.Contract.Rules.{AmountConstraintKind}
use streaming_system_compass.Order.Contract.Equality.{
  rule_eq, event_type_eq, kind_eq, any_of, is_unique,
}
use streaming_system_compass.Order.Contract.Edition.{each}

module _ {A : Type 0} where
  abbrev pub Occurs : A → List A → Type 0
  Occurs x [] = ⊥
  Occurs x (y ∷ ys) = (x ≡ y) ⊎ Occurs x ys

  abbrev pub All : (A → Type 0) → List A → Type 0
  All P [] = Unit {0}
  All P (x ∷ xs) = P x × All P xs

  -- No element has the relation to a later one.
  abbrev pub Apart : (A → A → Type 0) → List A → Type 0
  Apart R [] = Unit {0}
  Apart R (x ∷ xs) = All (λ y. ¬ R x y) xs × Apart R xs

  pub any_of-Occurs :
      (f : A → Bool) (x : A) (xs : List A)
      → ((y : A) → f y ≡ true → x ≡ y)
      → any_of f xs ≡ true
      → Occurs x xs
  unfolding any_of
  any_of-Occurs f x [] same h = absurd (cc)
  any_of-Occurs f x (y ∷ ys) same h = elim (Bool-cases (f y)) [
    | inl e ↦ inl (same y e)
    | inr e ↦ inr (any_of-Occurs f x ys same (rw e at h))
  ]

  pub any_of-All :
      (f : A → Bool) (P : A → Type 0) (xs : List A)
      → ((y : A) → P y → f y ≡ true)
      → any_of f xs ≡ false
      → All (λ y. ¬ P y) xs
  unfolding any_of
  any_of-All f P [] holds h = tt
  any_of-All f P (y ∷ ys) holds h = elim (Bool-cases (f y)) [
    | inl e ↦ absurd (ground arith)
    | inr e ↦
        (λ p. let q : f y ≡ true = holds y p in absurd (cc), any_of-All f P ys holds (rw e at h))
  ]

  pub is_unique-Apart :
      (eq : A → A → Bool) (R : A → A → Type 0) (xs : List A)
      → ((x y : A) → R x y → eq x y ≡ true)
      → is_unique eq xs ≡ true
      → Apart R xs
  unfolding is_unique
  is_unique-Apart eq R [] holds h = tt
  is_unique-Apart eq R (x ∷ xs) holds h = elim (Bool-cases (any_of (eq x) xs)) [
    | inl e ↦ absurd (ground arith)
    | inr e ↦ (any_of-All (eq x) (R x) xs (holds x) e, is_unique-Apart eq R xs holds (rw e at h))
  ]

  pub each-All :
      (f : A → Result Failure (Unit {0})) (P : A → Type 0) (xs : List A)
      → ((x : A) → f x ≡ ok tt → P x)
      → each f xs ≡ ok tt
      → All P xs
  unfolding each
  each-All f P [] holds h = tt
  each-All f P (x ∷ xs) holds h = elim (Result-cases (f x)) [
    | inl (u, e) ↦ (holds x e, each-All f P xs holds (rw e at h))
    | inr (g, e) ↦ absurd (ground arith)
  ]

-- A guard that raised nothing was passed, and what follows it raised nothing.
pub guard-ok :
    (b : Bool) (k : Result Failure (Unit {0}))
    → (raise_if (not b) invalid_contract >> k) ≡ ok tt
    → (b ≡ true) × (k ≡ ok tt)
guard-ok true k h = (refl, h)
guard-ok false k h = absurd (cc)

pub last_guard-ok : (b : Bool) → raise_if (not b) invalid_contract ≡ ok tt → b ≡ true
last_guard-ok true h = refl
last_guard-ok false h = absurd (cc)

pub bind-ok :
    {A : Type 0} (m : Result Failure A) (k : A → Result Failure (Unit {0}))
    → (m >>= k) ≡ ok tt
    → (a : A) × (m ≡ ok a) × (k a ≡ ok tt)
bind-ok (ok a) k h = (a, refl, h)
bind-ok (err f) k h = absurd (cc)

-- `==` on the vocabularies tells equal members from different ones.
pub command_eq_sound : (a b : CommandType) → command_eq a b ≡ true → a ≡ b
command_eq_sound CommandType.create CommandType.create h = refl
command_eq_sound CommandType.pay CommandType.pay h = refl
command_eq_sound CommandType.create CommandType.pay h = absurd (cc)
command_eq_sound CommandType.pay CommandType.create h = absurd (cc)

pub command_eq_self : (a : CommandType) → command_eq a a ≡ true
command_eq_self CommandType.create = refl
command_eq_self CommandType.pay = refl

pub status_eq_sound : (a b : OrderStatus) → status_eq a b ≡ true → a ≡ b
status_eq_sound a b h = ground arith

pub status_eq_self : (a : OrderStatus) → status_eq a a ≡ true
status_eq_self a = ground arith

pub event_type_eq_sound : (a b : EventType) → event_type_eq a b ≡ true → a ≡ b
event_type_eq_sound a b h = ground arith

pub kind_eq_self : (a : AmountConstraintKind) → kind_eq a a ≡ true
kind_eq_self a = ground arith

pub rule_eq_self : (a : OrderCorrectnessRuleId) → rule_eq a a ≡ true
rule_eq_self a = ground arith
