-- ===== src/Money/Text.antt =====
-- The stored text of an amount (src/core/common/money.py, `money_to_storage_string`), read back.
use streaming_system_compass.Base.{ℕ, List, Bool, ◌<◌, ◌≡◌, refl, arith}
use streaming_system_compass.Base.Result.{ok}
use streaming_system_compass.Decimal.{Decimal, cents, rescale, precision_limit}
use streaming_system_compass.Decimal.Parse.{show_cents}
use streaming_system_compass.Decimal.Parse.RoundTrip.{parse-show_cents}
use streaming_system_compass.Money.{
  MoneyInput, str, parse_money, quantize_money, normalize_money, money_to_storage_string,
}
use streaming_system_compass.Money.Canonical.{normalize-cents}

normalize-show_cents :
    (s : Bool) (c : ℕ)
    → c < precision_limit
    → normalize_money (str (show_cents s c)) ≡ ok (cents s c)
unfolding normalize_money parse_money quantize_money rescale
normalize-show_cents s c fits = rw (parse-show_cents s c) (ground arith)

-- Whatever the input, if `normalize_money` accepts it then `money_to_storage_string` gives a text,
-- and normalizing that text gives the same amount.
pub stored_text_reads_back :
    (v : MoneyInput) (d : Decimal)
    → normalize_money v ≡ ok d
    → (text : List ℕ) × (money_to_storage_string v ≡ ok text) × (normalize_money (str text) ≡ ok d)
unfolding money_to_storage_string rescale
stored_text_reads_back v d h =
    let (s, c, e, fits) = normalize-cents v d h in
    let printed : money_to_storage_string v ≡ ok (show_cents s c) = rw (h, e) refl in
    let back : normalize_money (str (show_cents s c)) ≡ ok d =
      rw e (normalize-show_cents s c fits) in
    (show_cents s c, printed, back)
