-- ===== src/Decimal.antt =====
-- Python's `decimal.Decimal`, as far as the money module uses it: finite values as sign,
-- coefficient and exponent, the infinities and the quiet NaN, numeric comparison, and `quantize`
-- to two decimal places by ROUND_HALF_EVEN in the default context, whose precision is 28 digits.
pub mod Rounding
pub mod Parse
use streaming_system_compass.Base.{
  ℕ, zero, suc, ◌+◌, ◌-◌, ◌*◌, ◌/◌, ◌%◌, ◌^◌, ◌≡◌, refl, Bool, true, false, ◌&&◌, ◌||◌, ltb, leb,
  ◌==◌, if◌then◌else◌, arith,
}

-- Exponents: `negsuc n` is -(n + 1).
pub data ℤ : Type 0 where
  pos : ℕ → ℤ
  negsuc : ℕ → ℤ

pub data Decimal : Type 0 where
  finite : Bool → ℕ → ℤ → Decimal
  infinity : Bool → Decimal
  nan : Decimal

-- An amount in cents: a decimal with two places.
abbrev pub cents : Bool → ℕ → Decimal
cents negative c = finite negative c (negsuc 1)

-- `Decimal("0.00")`
abbrev pub zero_amount : Decimal
zero_amount = cents false 0

abbrev bool_eq : Bool → Bool → Bool
bool_eq true b = b
bool_eq false true = false
bool_eq false false = true

-- The coefficient `c` of exponent `e`, written at the lower exponent `e'`: how many zeros it gains.
gap : ℤ → ℤ → ℕ
gap (pos a) (pos b) = a - b
gap (pos a) (negsuc b) = a + b + 1
gap (negsuc a) (pos b) = 0
gap (negsuc a) (negsuc b) = b - a

-- `==` of decimals: by value, so 1.0 == 1.00 and -0 == 0; a NaN equals nothing.
unfoldable pub decimal_eq : Decimal → Decimal → Bool
unfolding gap
decimal_eq (finite s c e) (finite t d f) =
    (c * 10 ^ gap e f == d * 10 ^ gap f e) && (bool_eq s t || (c == 0))
decimal_eq (infinity s) (infinity t) = bool_eq s t
decimal_eq _ _ = false

-- `amount <= Decimal("0.00")`, for an amount that is no NaN
unfoldable pub not_positive : Decimal → Bool
not_positive (finite s c e) = s || (c == 0)
not_positive (infinity s) = s
not_positive nan = false

-- ROUND_HALF_EVEN: `c` divided by `p`.
unfoldable pub half_even : ℕ → ℕ → ℕ
half_even c p =
    let q = c / p in
    let r = c % p in
    if ltb (2 * r) p then q else if ltb p (2 * r) then q + 1 else if q % 2 == 0 then q else q + 1

-- The coefficient at two decimal places.
unfoldable pub rescale : ℕ → ℤ → ℕ
rescale c (pos n) = c * 10 ^ (n + 2)
rescale c (negsuc zero) = c * 10
rescale c (negsuc (suc zero)) = c
rescale c (negsuc (suc (suc k))) = half_even c (10 ^ (k + 1))

-- The default context's `prec`, as a bound on coefficients.
abbrev pub precision_limit : ℕ
precision_limit = 10 ^ 28

-- The test of one equality of amounts with two places.
pub decimal_eq-cents : (c d : ℕ) → decimal_eq (cents false c) (cents false d) ≡ (c == d)
unfolding decimal_eq gap
decimal_eq-cents c d = ground arith
