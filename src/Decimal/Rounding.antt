-- ===== src/Decimal/Rounding.antt =====
-- What ROUND_HALF_EVEN promises, apart from how it is computed.
use Prim.Native.Nat.{◌≤◌, ◌<◌}
use native.Mathlib.Nat.{div-add-mod', mod-lt}
use streaming_system_compass.Base.{
  ℕ, ◌+◌, ◌*◌, ◌/◌, ◌%◌, ◌≡◌, ◌≢◌, arith, ltb, ◌==◌, Bool-cases, inl, inr, ◌⊎◌,
}
use streaming_system_compass.Decimal.{half_even}

-- `v` is a nearest quotient of `c` by `p`, and on a tie the even one.
abbrev pub IsNearest : ℕ → ℕ → ℕ → Type 0
IsNearest v c p =
    (2 * (v * p) ≤ 2 * c + p)
    × (2 * c ≤ 2 * (v * p) + p)
    × ((2 * c + p ≡ 2 * (v * p)) ⊎ (2 * c ≡ 2 * (v * p) + p) → v % 2 ≡ 0)

module _ (q r p c : ℕ) (split : q * p + r ≡ c) (small : r < p) where
  below_half : 2 * r < p → IsNearest q c p
  below_half h = (omega arith, omega arith, elim [ inl e ↦ omega arith | inr e ↦ omega arith ])

  above_half : p < 2 * r → IsNearest (q + 1) c p
  above_half h = (omega arith, omega arith, elim [ inl e ↦ omega arith | inr e ↦ omega arith ])

  even_tie : 2 * r ≡ p → q % 2 ≡ 0 → IsNearest q c p
  even_tie h e = (omega arith, omega arith, λ _. e)

  odd_tie : 2 * r ≡ p → q % 2 ≢ 0 → IsNearest (q + 1) c p
  odd_tie h e = (omega arith, omega arith, λ _. omega arith)

-- For every coefficient and every positive divisor, the rounded quotient is a nearest one, and on a
-- tie it is the even one.
pub half_even-IsNearest : (c p : ℕ) → 0 < p → IsNearest (half_even c p) c p
unfolding half_even
half_even-IsNearest c p pos =
    let q = c / p in
    let r = c % p in
    let split : q * p + r ≡ c = div-add-mod' c p in
    let small : r < p = mod-lt c pos in
    elim (Bool-cases (ltb (2 * r) p)) [
      | inl low ↦ rw low (below_half q r p c split small (ground arith))
      | inr not_low ↦ elim (Bool-cases (ltb p (2 * r))) [
        | inl high ↦ rw (not_low, high) (above_half q r p c split small (ground arith))
        | inr not_high ↦
            let tie : 2 * r ≡ p = ground arith in
            elim (Bool-cases (q % 2 == 0)) [
              | inl even ↦
                  rw (not_low, not_high, even) (even_tie q r p c split small tie (ground arith))
              | inr odd ↦
                  rw (not_low, not_high, odd) (odd_tie q r p c split small tie (ground arith))
            ]
      ]
    ]
