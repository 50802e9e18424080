-- ===== src/Money.antt =====
-- src/money.rs: the supported currencies, and amounts of money between decimal text and a signed
-- 64-bit count of minor units. `i128` is the integers with its bound checked where the code checks
-- it; a scale is at most 18 by the table `accounts`, so `10_i128.pow(scale)` is in range.
pub mod Parse
pub mod Format
mod Tests
use high_performance_ledger.Prelude.{
  ℕ, ◌+◌, ◌-◌, ◌*◌, ◌/◌, ◌%◌, ◌^◌, ◌<◌, ◌≤◌, Bool, true, false, ◌||◌, ◌&&◌, not, Option, none, some,
  List, [], ◌∷◌, ◌++◌, map, ltb, leb, ◌==◌, if◌then◌else◌,
}
use high_performance_ledger.Prelude.Lists.{length, is_empty}
use high_performance_ledger.Prelude.Int.{ℤ, pos, negsuc, pos_part, neg_part, neg_ℕ, try_i64, ltb_ℤ}
use high_performance_ledger.Prelude.Text.{
  Text, codes, ◌=t◌, trim, all_digits, contains, count, split_once, to_upper,
}
use high_performance_ledger.Prelude.Decimal.{value, decimal, padded}
use high_performance_ledger.Prelude.Result.{Result, ok, err, ◌>>=◌, ◌>>◌, return_if, ok_or}

pub record Currency : Type 0 where
  pub code : Text
  pub scale : ℕ  -- u8

abbrev pub currencies : List Currency
currencies =
    record { code = codes "PLN"; scale = 2 }
    ∷ record { code = codes "EUR"; scale = 2 }
    ∷ record { code = codes "USD"; scale = 2 }
    ∷ record { code = codes "JPY"; scale = 0 }
    ∷ []

find_code : Text → List Currency → Option Currency
find_code normalized [] = none
find_code normalized (c ∷ cs) = if c.code =t normalized then some c else find_code normalized cs

unfoldable pub currency : Text → Option Currency
unfolding find_code trim
currency input = find_code (map to_upper (trim input)) currencies

pub data MoneyError : Type 0 where
  malformed too_many_fractional_digits negative overflow : MoneyError

abbrev pub i128_max : ℕ
i128_max = 170141183460469231731687303715884105727

-- `str::parse::<i128>` of a text of digits, with at least one
abbrev pub parse_i128 : Text → Result MoneyError ℕ
parse_i128 s = if leb (value s) i128_max then ok (value s) else err overflow

-- `i128::checked_mul` and `i128::checked_add`, of numbers that are not negative
abbrev pub fit_i128 : ℕ → Option ℕ
fit_i128 n = if leb n i128_max then some n else none

-- `input.strip_prefix('-')`: whether there is a sign, and what follows it
abbrev pub strip_sign : Text → Bool × Text
strip_sign [] = (false, [])
strip_sign (c ∷ s) = if c == b'-' then (true, s) else (false, c ∷ s)

-- `digits.split_once('.').unwrap_or((digits, ""))`
abbrev pub split_point : Text → Text × Text
split_point digits = elim (split_once b'.' digits) [ none ↦ (digits, []) | some parts ↦ parts ]

-- The text before the first point, the text behind it, and whether the shape is one of a number.
abbrev pub is_malformed : Text → Text → Text → Bool
is_malformed digits whole fractional =
    is_empty whole
    || (contains b'.' digits && is_empty fractional)
    || not (all_digits whole)
    || not (all_digits fractional)
    || ltb 1 (count b'.' digits)

-- The value of the fractional digits in minor units.
parse_fraction : Text → ℕ → Result MoneyError ℕ
parse_fraction fractional scale =
    if is_empty fractional
    then ok 0
    else (parse_i128 fractional >>= λ f. ok (f * 10 ^ (scale - length fractional)))

abbrev pub signed : Bool → ℕ → ℤ
signed true amount = neg_ℕ amount
signed false amount = pos amount

combine : ℕ → ℕ → ℕ → Option ℕ
combine whole factor fractional = elim (fit_i128 (whole * factor)) [
  | none ↦ none
  | some value' ↦ fit_i128 (value' + fractional)
]

to_minor_units : Bool → Text → Text → ℕ → Result MoneyError ℤ
unfolding parse_fraction combine
to_minor_units is_negative whole fractional scale = do
  return_if (ltb scale (length fractional)) too_many_fractional_digits
  w ← parse_i128 whole
  f ← parse_fraction fractional scale
  amount ← ok_or (combine w (10 ^ scale) f) overflow
  ok_or (try_i64 (signed is_negative amount)) overflow

-- The scale is at most 18, by a CHECK of the schema, so that the power of ten fits an `i128`.
unfoldable pub parse_minor_units : Text → ℕ → Result MoneyError ℤ
unfolding to_minor_units trim split_once
parse_minor_units input scale = do
  return_if (is_empty input || not (trim input =t input)) malformed
  let (is_negative, digits) = strip_sign input
  let (whole, fractional) = split_point digits
  return_if (is_malformed digits whole fractional) malformed
  to_minor_units is_negative whole fractional scale

unfoldable pub parse_initial_balance : Text → ℕ → Result MoneyError ℤ
parse_initial_balance input scale = do
  amount ← parse_minor_units input scale
  return_if (ltb_ℤ amount (pos 0)) negative
  ok amount

-- The two parts of an absolute amount, as `write!` prints them.
unsigned_text : ℕ → ℕ → Text
unsigned_text absolute scale =
    decimal (absolute / 10 ^ scale)
    ++ (if ltb 0 scale then b'.' ∷ padded scale (absolute % 10 ^ scale) else [])

unfoldable pub format_minor_units : ℤ → ℕ → Text
unfolding unsigned_text
format_minor_units amount scale =
    (if ltb_ℤ amount (pos 0) then b'-' ∷ [] else [])
    ++ unsigned_text (pos_part amount + neg_part amount) scale
