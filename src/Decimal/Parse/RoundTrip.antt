-- ===== src/Decimal/Parse/RoundTrip.antt =====
-- Reading back what was printed.
use streaming_system_compass.Base.{
  ℕ, zero, suc, ◌+◌, ◌*◌, ◌/◌, ◌%◌, ◌<◌, Bool, true, false, ◌||◌, Option, some, List, [], ◌∷◌, ◌≡◌,
  ◌∙◌, refl, ap, arith, ◌==◌, if◌then◌else◌, Bool-cases, inl, inr,
}
use streaming_system_compass.Base.Text.{strip, is_space, NonePass, strip-NonePass}
use streaming_system_compass.Decimal.{Decimal, cents}
use streaming_system_compass.Decimal.Parse.{
  is_digit, scan, take_sign, without_underscores, parse_decimal, show_from, show_cents, sign_text,
  number_from, fraction, exponent, shift, first,
}

-- The code points that a printed amount has.
abbrev pub is_plain : ℕ → Bool
is_plain c = is_digit c || c == b'.' || c == b'-'

abbrev pub AllPlain : List ℕ → Type 0
AllPlain [] = Unit {0}
AllPlain (c ∷ cs) = (is_plain c ≡ true) × AllPlain cs

plain-not_space : (c : ℕ) → is_plain c ≡ true → is_space c ≡ false
unfolding is_digit is_space
plain-not_space c h = ground arith

AllPlain-not_space : (cs : List ℕ) → AllPlain cs → NonePass is_space cs
AllPlain-not_space [] h = tt
AllPlain-not_space (c ∷ cs) h = (plain-not_space c h.0, AllPlain-not_space cs h.1)

without_underscores-AllPlain : (cs : List ℕ) → AllPlain cs → without_underscores cs ≡ cs
unfolding without_underscores is_digit
without_underscores-AllPlain [] h = refl
without_underscores-AllPlain (c ∷ cs) h = ground (arith, without_underscores-AllPlain cs h.1)

digit_of : (n : ℕ) → is_digit (b'0' + n % 10) ≡ true
unfolding is_digit
digit_of n = ground arith

show_from-AllPlain : (f n : ℕ) (out : List ℕ) → AllPlain out → AllPlain (show_from f n out)
unfolding show_from
show_from-AllPlain zero n out h = h
show_from-AllPlain (suc f) n out h =
    let front : AllPlain ((b'0' + n % 10) ∷ out) = (rw (digit_of n) refl, h) in
    elim (Bool-cases (n / 10 == 0)) [
      | inl done ↦ rw done front
      | inr more ↦ rw more (show_from-AllPlain f (n / 10) ((b'0' + n % 10) ∷ out) front)
    ]

-- How many digits `show_from` prints.
count : ℕ → ℕ → ℕ
count zero n = 0
count (suc f) n = let rest = count f (n / 10) in if n / 10 == 0 then 1 else rest + 1

scan_digit :
    (n : ℕ) (out : List ℕ) (m k : ℕ)
    → scan ((b'0' + n % 10) ∷ out) m k ≡ scan out (m * 10 + n % 10) (k + 1)
unfolding scan
scan_digit n out m k = rw (digit_of n) (ap (λ (d : ℕ). scan out (m * 10 + d) (k + 1)) (omega arith))

-- Scanning printed digits gives the number back, and goes on behind them.
scan-show_from :
    (f n : ℕ) (out : List ℕ) (k : ℕ)
    → n < f
    → scan (show_from f n out) 0 k ≡ scan out n (k + count f n)
unfolding show_from count
scan-show_from zero n out k h = absurd (omega arith)
scan-show_from (suc f) n out k h = elim (Bool-cases (n / 10 == 0)) [
  | inl done ↦ rw done (scan_digit n out 0 k ∙ ap (λ (x : ℕ). scan out x (k + 1)) (ground arith))
  | inr more ↦ rw more (
      scan-show_from f (n / 10) ((b'0' + n % 10) ∷ out) k (ground arith)
      ∙ scan_digit n out (n / 10) (k + count f (n / 10))
      ∙ ap (λ (x : ℕ). scan out x (k + count f (n / 10) + 1)) (omega arith)
      ∙ ap (λ (y : ℕ). scan out n y) (omega arith))
]

abbrev StartsDigit : List ℕ → Type 0
StartsDigit [] = ⊥
StartsDigit (c ∷ cs) = is_digit c ≡ true

show_from-StartsDigit : (f n : ℕ) (out : List ℕ) → StartsDigit out → StartsDigit (show_from f n out)
unfolding show_from
show_from-StartsDigit zero n out h = h
show_from-StartsDigit (suc f) n out h = elim (Bool-cases (n / 10 == 0)) [
  | inl done ↦ rw done (digit_of n)
  | inr more ↦ rw more (show_from-StartsDigit f (n / 10) ((b'0' + n % 10) ∷ out) (digit_of n))
]

show_suc-StartsDigit : (f n : ℕ) (out : List ℕ) → StartsDigit (show_from (suc f) n out)
unfolding show_from
show_suc-StartsDigit f n out = elim (Bool-cases (n / 10 == 0)) [
  | inl done ↦ rw done (digit_of n)
  | inr more ↦ rw more (show_from-StartsDigit f (n / 10) ((b'0' + n % 10) ∷ out) (digit_of n))
]

take_sign-StartsDigit : (cs : List ℕ) → StartsDigit cs → take_sign cs ≡ (false, cs)
unfolding take_sign is_digit
take_sign-StartsDigit [] h = absurd h
take_sign-StartsDigit (c ∷ cs) h = ground arith

-- The text behind the sign, of an amount in cents.
abbrev whole_and_cents : ℕ → List ℕ
whole_and_cents c =
    show_from (suc (c / 100)) (c / 100) (b'.' ∷ (b'0' + c / 10 % 10) ∷ (b'0' + c % 10) ∷ [])

whole_and_cents-AllPlain : (c : ℕ) → AllPlain (whole_and_cents c)
unfolding is_digit
whole_and_cents-AllPlain c =
    show_from-AllPlain (suc (c / 100)) (c / 100)
      (b'.' ∷ (b'0' + c / 10 % 10) ∷ (b'0' + c % 10) ∷ [])
      (refl, (rw (digit_of (c / 10)) refl, (rw (digit_of c) refl, tt)))

pub show_cents-AllPlain : (s : Bool) (c : ℕ) → AllPlain (show_cents s c)
unfolding show_cents sign_text is_digit
show_cents-AllPlain true c = (refl, whole_and_cents-AllPlain c)
show_cents-AllPlain false c = whole_and_cents-AllPlain c

scan_fraction :
    (c n : ℕ)
    → scan ((b'0' + c / 10 % 10) ∷ (b'0' + c % 10) ∷ []) n 0
      ≡ ((n * 10 + c / 10 % 10) * 10 + c % 10, 2, [])
unfolding scan
scan_fraction c n =
    scan_digit (c / 10) ((b'0' + c % 10) ∷ []) n 0 ∙ scan_digit c [] (n * 10 + c / 10 % 10) (0 + 1)

scan_point : (n k : ℕ) (cs : List ℕ) → scan (b'.' ∷ cs) n k ≡ (n, k, b'.' ∷ cs)
unfolding scan is_digit
scan_point n k cs = refl

number_from_point :
    (s : Bool) (n k c : ℕ)
    → number_from s (n, k, b'.' ∷ (b'0' + c / 10 % 10) ∷ (b'0' + c % 10) ∷ [])
      ≡ some (cents s ((n * 10 + c / 10 % 10) * 10 + c % 10))
unfolding number_from fraction exponent shift
number_from_point s n k c =
    let some_digits : (k + 2 == 0) ≡ false = ground arith in
    rw (scan_fraction c n, some_digits) refl

number_from-cents :
    (s : Bool) (c : ℕ) → number_from s (scan (whole_and_cents c) 0 0) ≡ some (cents s c)
number_from-cents s c =
    let behind = b'.' ∷ (b'0' + c / 10 % 10) ∷ (b'0' + c % 10) ∷ [] in
    let digits = count (suc (c / 100)) (c / 100) in
    ap (number_from s) (
      scan-show_from (suc (c / 100)) (c / 100) behind 0 (omega arith)
      ∙ scan_point (c / 100) (0 + digits) ((b'0' + c / 10 % 10) ∷ (b'0' + c % 10) ∷ []))
    ∙ number_from_point s (c / 100) (0 + digits) c
    ∙ (let f : ℕ → Option Decimal = λ m. some (cents s m) in ap f (omega arith))

take_sign-show_cents : (s : Bool) (c : ℕ) → take_sign (show_cents s c) ≡ (s, whole_and_cents c)
unfolding show_cents sign_text take_sign
take_sign-show_cents true c = refl
take_sign-show_cents false c =
    take_sign-StartsDigit (whole_and_cents c) (
      show_suc-StartsDigit (c / 100) (c / 100) (b'.' ∷ (b'0' + c / 10 % 10) ∷ (b'0' + c % 10) ∷ []))

-- The printed text of an amount in cents has no whitespace around it and reads back as the amount.
pub parse-show_cents :
    (s : Bool) (c : ℕ) → parse_decimal (strip (show_cents s c)) ≡ some (cents s c)
unfolding parse_decimal first
parse-show_cents s c =
    let plain = show_cents-AllPlain s c in
    let stripped = strip-NonePass (show_cents s c) (AllPlain-not_space (show_cents s c) plain) in
    rw
      (
        stripped,
        stripped,
        without_underscores-AllPlain (show_cents s c) plain,
        take_sign-show_cents s c,
        number_from-cents s c,
      )
      refl
