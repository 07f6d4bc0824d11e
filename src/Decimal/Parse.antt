-- ===== src/Decimal/Parse.antt =====
-- The text form of a decimal: what `Decimal(text)` accepts and `format(amount, "f")` prints.
pub mod RoundTrip
use streaming_system_compass.Base.{
  ℕ, zero, suc, ◌+◌, ◌-◌, ◌*◌, ◌/◌, ◌%◌, Bool, true, false, ◌&&◌, ◌||◌, Option, none, some, List,
  [], ◌∷◌, ◌++◌, leb, ◌==◌, if◌then◌else◌,
}
use streaming_system_compass.Base.Text.{strip}
use streaming_system_compass.Decimal.{ℤ, pos, negsuc, Decimal, finite, infinity, nan}
use mathlib.Core.Option

unfoldable pub is_digit : ℕ → Bool
is_digit c = leb b'0' c && leb c b'9'

lower : ℕ → ℕ
lower c = if leb b'A' c && leb c b'Z' then c + 32 else c

-- `text.replace("_", "")`
unfoldable pub without_underscores : List ℕ → List ℕ
without_underscores [] = []
without_underscores (c ∷ cs) =
    let rest = without_underscores cs in if c == b'_' then rest else c ∷ rest

-- The digits in front, as a number that continues `n`, how many they are, and the rest.
unfoldable pub scan : List ℕ → ℕ → ℕ → ℕ × ℕ × List ℕ
unfolding is_digit
scan [] n k = (n, k, [])
scan (c ∷ cs) n k =
    let rest = scan cs (n * 10 + (c - b'0')) (k + 1) in if is_digit c then rest else (n, k, c ∷ cs)

unfoldable pub take_sign : List ℕ → Bool × List ℕ
take_sign [] = (false, [])
take_sign (c ∷ cs) =
    if c == b'-' then (true, cs) else if c == b'+' then (false, cs) else (false, c ∷ cs)

-- `e - j`, for an exponent of sign `s`
shift : Bool → ℕ → ℕ → ℤ
shift true e zero = elim e [ zero ↦ pos 0 | suc n ↦ negsuc n ]
shift true e (suc j) = negsuc (e + j)
shift false e j = if leb j e then pos (e - j) else negsuc (j - e - 1)

-- The exponent part, behind a fraction of `j` digits.
exponent_digits : Bool → ℕ → ℕ × ℕ × List ℕ → Option ℤ
exponent_digits s j (e, k, []) = if k == 0 then none else some (shift s e j)
exponent_digits s j (e, k, c ∷ cs) = none

exponent : ℕ → List ℕ → Option ℤ
unfolding shift exponent_digits lower
exponent j [] = some (shift false 0 j)
exponent j (c ∷ cs) =
    if lower c == b'e'
    then (let (s, u) = take_sign cs in exponent_digits s j (scan u 0 0))
    else none

-- The fraction, behind `k` digits of value `n`.
fraction : ℕ → ℕ → List ℕ → ℕ × ℕ × List ℕ
fraction n k [] = (n, 0, [])
fraction n k (c ∷ cs) = if c == b'.' then scan cs n 0 else (n, 0, c ∷ cs)

number_from : Bool → ℕ × ℕ × List ℕ → Option Decimal
unfolding fraction exponent
number_from s (n, k, rest) =
    let (m, j, rest') = fraction n k rest in
    if k + j == 0 then none else Option.map (λ e. finite s m e) (exponent j rest')

-- A word in front, whatever its case; the pattern is in lower case.
after_word : List ℕ → List ℕ → Option (List ℕ)
unfolding lower
after_word [] cs = some cs
after_word (w ∷ ws) [] = none
after_word (w ∷ ws) (c ∷ cs) = elim (lower c == w) [ true ↦ after_word ws cs | false ↦ none ]

-- Nothing, or the digits of a NaN's diagnostic, may follow.
all_digits : List ℕ → Bool
all_digits [] = true
all_digits (c ∷ cs) = is_digit c && all_digits cs

nan_tail : Option (List ℕ) → Option Decimal
unfolding all_digits is_digit
nan_tail none = none
nan_tail (some cs) = if all_digits cs then some nan else none

infinity_tail : Bool → Option (List ℕ) → Option Decimal
infinity_tail s (some []) = some (infinity s)
infinity_tail s _ = none

first : Option Decimal → Option Decimal → Option Decimal
first (some d) _ = some d
first none o = o

word_inf : List ℕ
word_inf = b'i' ∷ b'n' ∷ b'f' ∷ []

word_infinity : List ℕ
word_infinity = b'i' ∷ b'n' ∷ b'f' ∷ b'i' ∷ b'n' ∷ b'i' ∷ b't' ∷ b'y' ∷ []

word_nan : List ℕ
word_nan = b'n' ∷ b'a' ∷ b'n' ∷ []

word_snan : List ℕ
word_snan = b's' ∷ b'n' ∷ b'a' ∷ b'n' ∷ []

-- `Decimal(text)` on code points; `none` is InvalidOperation. Of the decimal digits, those of ASCII:
-- Python takes those of the other scripts as well.
unfoldable pub parse_decimal : List ℕ → Option Decimal
unfolding take_sign number_from scan without_underscores first infinity_tail nan_tail after_word
    word_inf word_infinity word_nan word_snan
parse_decimal cs =
    let (s, u) = take_sign (without_underscores (strip cs)) in
    first (number_from s (scan u 0 0)) (
      first (infinity_tail s (after_word word_inf u)) (
        first (infinity_tail s (after_word word_infinity u))
          (first (nan_tail (after_word word_nan u)) (nan_tail (after_word word_snan u)))))

-- The decimal digits of `n`, put in front of `out`; `fuel` above `n` is enough.
unfoldable pub show_from : ℕ → ℕ → List ℕ → List ℕ
show_from zero n out = out
show_from (suc fuel) n out =
    let rest = show_from fuel (n / 10) ((b'0' + n % 10) ∷ out) in
    if n / 10 == 0 then (b'0' + n % 10) ∷ out else rest

sign_text : Bool → List ℕ
sign_text true = b'-' ∷ []
sign_text false = []

-- `format(amount, "f")` of an amount in cents
unfoldable pub show_cents : Bool → ℕ → List ℕ
unfolding show_from sign_text
show_cents s c =
    sign_text s
    ++ show_from (suc (c / 100)) (c / 100) (b'.' ∷ (b'0' + c / 10 % 10) ∷ (b'0' + c % 10) ∷ [])
