-- ===== src/Money/Rounding.antt =====
-- `normalize_money` rounds to the nearest cent (src/core/common/money.py, ROUND_HALF_EVEN).
use native.Mathlib.Nat.{one-le-pow, pow-suc}
use streaming_system_compass.Base.{
  ℕ, zero, suc, ◌+◌, ◌*◌, ◌^◌, ◌≡◌, inl, inr, Bool, sym, ap, ◌∙◌, subst, arith,
}
use streaming_system_compass.Base.Result.{ok}
use streaming_system_compass.Decimal.{finite, negsuc, cents, rescale, half_even}
use streaming_system_compass.Decimal.Rounding.{IsNearest, half_even-IsNearest}
use streaming_system_compass.Money.{decimal, parse_money, quantize_money, normalize_money}

IsNearest-hundredfold : (v c p : ℕ) → IsNearest v c p → IsNearest v (c * 100) (p * 100)
IsNearest-hundredfold v c p (low, high, even) =
    let grouped : v * (p * 100) ≡ v * p * 100 = omega arith in
    (
      omega arith,
      omega arith,
      elim [ inl e ↦ even (inl (omega arith)) | inr e ↦ even (inr (omega arith)) ],
    )

rescale-IsNearest : (c n : ℕ) → IsNearest (rescale c (negsuc n)) (c * 100) (10 ^ (n + 1))
unfolding rescale
rescale-IsNearest c zero =
    (omega arith, omega arith, elim [ inl e ↦ omega arith | inr e ↦ omega arith ])
rescale-IsNearest c (suc zero) =
    (omega arith, omega arith, elim [ inl e ↦ omega arith | inr e ↦ omega arith ])
rescale-IsNearest c (suc (suc k)) =
    let lift : suc (suc k) + 1 ≡ suc (suc (k + 1)) = omega arith in
    let ten : 10 ^ (suc (suc (k + 1))) ≡ 10 ^ (k + 1) * 10 * 10 =
      pow-suc 10 (suc (k + 1)) ∙ ap (λ (n : ℕ). n * 10) (pow-suc 10 (k + 1)) in
    let scale : 10 ^ (k + 1) * 100 ≡ 10 ^ (suc (suc k) + 1) =
      omega (arith, ten) ∙ ap (λ (n : ℕ). 10 ^ n) (sym lift) in
    subst (λ (p : ℕ). IsNearest (half_even c (10 ^ (k + 1))) (c * 100) p) scale
      (IsNearest-hundredfold (half_even c (10 ^ (k + 1))) c (10 ^ (k + 1))
        (half_even-IsNearest c (10 ^ (k + 1)) (one-le-pow (k + 1) 10 (omega arith))))

-- A finite amount with at least one decimal place, of sign `s`, coefficient `c` and `n + 1` places:
-- if `normalize_money` accepts it, the result keeps the sign, and its number of cents is a nearest
-- one to the amount, the even one on a tie.
pub normalize_rounds :
    (s t : Bool) (c n v : ℕ)
    → normalize_money (decimal (finite s c (negsuc n))) ≡ ok (cents t v)
    → (t ≡ s) × IsNearest v (c * 100) (10 ^ (n + 1))
unfolding normalize_money parse_money quantize_money
normalize_rounds s t c n v h =
    let same : v ≡ rescale c (negsuc n) = ground arith in
    (ground arith, rw same (rescale-IsNearest c n))
