-- ===== src/Money.antt =====
-- src/core/common/money.py: exact money. Every accepted amount is a decimal with two places.
pub mod Canonical
pub mod Text
pub mod Rounding
use streaming_system_compass.Base.{
  ℕ, ◌^◌, List, [], Bool, true, false, Option, none, some, ◌<◌, ◌≡◌, refl, ltb, if◌then◌else◌,
  arith,
}
use streaming_system_compass.Base.Text.{strip}
use streaming_system_compass.Base.Result.{Result, ok, err, ◌>>=◌, ◌>>◌, raise_if}
use streaming_system_compass.Decimal.{
  ℤ, pos, Decimal, finite, infinity, nan, cents, rescale, precision_limit, not_positive,
}
use streaming_system_compass.Decimal.Parse.{parse_decimal, show_cents}
use streaming_system_compass.Failure.{
  Failure, float_money, invalid_money, unsupported_money, nan_money, infinite_money,
  not_positive_money, invalid_operation,
}

-- A value of any Python type, as `parse_money` tells them apart; an int is its sign and size.
pub data MoneyInput : Type 0 where
  float : MoneyInput
  decimal : Decimal → MoneyInput
  int : Bool → ℕ → MoneyInput
  str : List ℕ → MoneyInput
  other : MoneyInput

-- `is_nan` and `is_infinite` at the end of `parse_money`
require_finite : Decimal → Result Failure Decimal
require_finite (finite s c e) = ok (finite s c e)
require_finite (infinity s) = err infinite_money
require_finite nan = err nan_money

or_invalid : Option Decimal → Result Failure Decimal
or_invalid none = err invalid_money
or_invalid (some d) = ok d

unfoldable pub parse_money : MoneyInput → Result Failure Decimal
unfolding require_finite or_invalid
parse_money float = err float_money
parse_money (decimal d) = require_finite d
parse_money (int s n) = require_finite (finite s n (pos 0))
parse_money (str cs) = or_invalid (parse_decimal (strip cs)) >>= require_finite
parse_money other = err unsupported_money

-- `amount.quantize(MONEY_QUANT, rounding=ROUND_HALF_EVEN)`
unfoldable pub quantize_money : Decimal → Result Failure Decimal
quantize_money (finite s c e) =
    if ltb (rescale c e) precision_limit then ok (cents s (rescale c e)) else err invalid_operation
quantize_money (infinity s) = err invalid_operation
quantize_money nan = err invalid_operation

unfoldable pub normalize_money : MoneyInput → Result Failure Decimal
unfolding parse_money quantize_money
normalize_money value = do amount ← parse_money value; quantize_money amount

unfoldable pub ensure_positive_money : MoneyInput → Result Failure Decimal
unfolding normalize_money not_positive
ensure_positive_money value = do
  amount ← normalize_money value
  raise_if (not_positive amount) not_positive_money
  ok amount

-- `format(amount, "f")` of a normalized amount, which always has two places.
unfoldable pub format_money : Decimal → List ℕ
format_money (finite s c e) = show_cents s (rescale c e)
format_money (infinity s) = []
format_money nan = []

unfoldable pub money_to_storage_string : MoneyInput → Result Failure (List ℕ)
unfolding normalize_money format_money
money_to_storage_string value = do amount ← normalize_money value; ok (format_money amount)
