-- ===== src/Money/Canonical.antt =====
-- Normal amounts: what `normalize_money` and `ensure_positive_money` return.
use streaming_system_compass.Base.{ℕ, ◌<◌, ◌≡◌, refl, Bool, true, false, arith}
use streaming_system_compass.Base.Result.{Result, ok, err, ◌>>=◌, ◌>>◌, raise_if}
use streaming_system_compass.Decimal.{
  Decimal, finite, infinity, nan, cents, rescale, precision_limit, not_positive,
}
use streaming_system_compass.Failure.{Failure, not_positive_money}
use streaming_system_compass.Money.{
  MoneyInput, decimal, parse_money, quantize_money, normalize_money, ensure_positive_money,
}

-- A canonical amount has two places and fits the precision; a positive one is above zero.
pub record IsPositiveMoney (d : Decimal) : Type 0 where
  pub amount : ℕ
  pub is_cents : d ≡ cents false amount
  pub above_zero : 0 < amount
  pub fits : amount < precision_limit

quantize-cents :
    (d r : Decimal)
    → quantize_money d ≡ ok r
    → (s : Bool) × (c : ℕ) × (r ≡ cents s c) × (c < precision_limit)
unfolding quantize_money
quantize-cents (finite s c e) r h = (s, rescale c e, ground arith, ground arith)
quantize-cents (infinity s) r h = absurd (ground arith)
quantize-cents nan r h = absurd (ground arith)

pub normalize-cents :
    (v : MoneyInput) (r : Decimal)
    → normalize_money v ≡ ok r
    → (s : Bool) × (c : ℕ) × (r ≡ cents s c) × (c < precision_limit)
unfolding normalize_money
normalize-cents v r h = elim_parsed (parse_money v) h
  where
    elim_parsed :
        (m : Result Failure Decimal)
        → (m >>= quantize_money) ≡ ok r
        → (s : Bool) × (c : ℕ) × (r ≡ cents s c) × (c < precision_limit)
    elim_parsed (ok d) k = quantize-cents d r k
    elim_parsed (err e) k = absurd (ground arith)

-- An amount in cents that fits is normal already: normalizing it gives it back.
pub normalize-cents_self :
    (s : Bool) (c : ℕ)
    → c < precision_limit
    → normalize_money (decimal (cents s c)) ≡ ok (cents s c)
unfolding normalize_money parse_money quantize_money rescale
normalize-cents_self s c h = ground arith

-- Normalizing twice is normalizing once.
pub normalize_idem :
    (v : MoneyInput) {d : Decimal} → normalize_money v ≡ ok d → normalize_money (decimal d) ≡ ok d
normalize_idem v {d} h =
    let (s, c, e, fits) = normalize-cents v d h in rw e (normalize-cents_self s c fits)

positive-cents :
    (s : Bool) (c : ℕ) (d : Decimal)
    → c < precision_limit
    → (raise_if (not_positive (cents s c)) not_positive_money >> ok (cents s c)) ≡ ok d
    → IsPositiveMoney d
unfolding not_positive
positive-cents true c d fits h = absurd (ground arith)
positive-cents false c d fits h = record {
  amount = c;
  is_cents = ground arith;
  above_zero = ground arith;
  fits = fits;
}

-- Whatever the type of the input, an amount that `ensure_positive_money` accepts is positive, has
-- two decimal places and fits the precision.
pub ensure_positive-IsPositiveMoney :
    (v : MoneyInput) (d : Decimal) → ensure_positive_money v ≡ ok d → IsPositiveMoney d
unfolding ensure_positive_money
ensure_positive-IsPositiveMoney v d h = go (normalize_money v) (normalize-cents v) h
  where
    go :
        (m : Result Failure Decimal)
        → ((r : Decimal)
            → m ≡ ok r
            → (s : Bool) × (c : ℕ) × (r ≡ cents s c) × (c < precision_limit))
        → (m >>= λ amount. raise_if (not_positive amount) not_positive_money >> ok amount) ≡ ok d
        → IsPositiveMoney d
    go (err e) f k = absurd (ground arith)
    go (ok r) f k = let (s, c, e, fits) = f r refl in positive-cents s c d fits (rw e at k)

-- A positive canonical amount is accepted as it is.
pub normalize-IsPositiveMoney :
    {d : Decimal} → IsPositiveMoney d → normalize_money (decimal d) ≡ ok d
normalize-IsPositiveMoney h = rw h.is_cents (normalize-cents_self false h.amount h.fits)

pub ensure_positive_self :
    {d : Decimal} → IsPositiveMoney d → ensure_positive_money (decimal d) ≡ ok d
unfolding ensure_positive_money not_positive
ensure_positive_self {d} h =
    let pos : 0 < h.amount = h.above_zero in
    rw (h.is_cents, normalize-cents_self false h.amount h.fits) (ground arith)
