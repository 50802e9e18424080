-- ===== src/Fx.antt =====
-- src/fx.rs, its exact arithmetic: rates read from decimal text, fees in basis points, and amounts
-- converted between currencies. `BigInt` is the unbounded integers.
pub mod Rounding
pub mod Rate
pub mod Select
pub mod Selection
pub mod Chosen
mod Tests
use high_performance_ledger.Prelude.{
  ℕ, ◌+◌, ◌^◌, Bool, true, false, ◌||◌, ◌&&◌, not, ◌++◌, ltb, if◌then◌else◌,
}
use high_performance_ledger.Prelude.Lists.{length, is_empty}
use high_performance_ledger.Prelude.Int.{
  ℤ, pos, ◌+ℤ◌, ◌*ℤ◌, ◌/ℤ◌, ◌%ℤ◌, try_i64, checked_add, leb_ℤ,
}
use high_performance_ledger.Prelude.Text.{Text, all_digits, count}
use high_performance_ledger.Prelude.Decimal.{value}
use high_performance_ledger.Prelude.Result.{Result, ok, err, ◌>>=◌, ◌>>◌, return_if, ok_or}
use high_performance_ledger.Money.{split_point}

pub data ArithmeticError : Type 0 where
  invalid_rate invalid_scale invalid_amount overflow destination_too_small : ArithmeticError

pub record ExactRate : Type 0 where
  pub coefficient : ℤ
  pub scale : ℕ  -- u8

-- The text before the first point, the text behind it, and whether a rate cannot be read from them.
abbrev pub is_invalid : Text → Text → Text → Bool
is_invalid input whole fractional =
    is_empty whole
    || not (all_digits whole)
    || not (all_digits fractional)
    || ltb 18 (length whole)
    || ltb 12 (length fractional)
    || ltb 30 (length whole + length fractional)
    || ltb 1 (count b'.' input)

read_parts : Text → Text → Text → Result ArithmeticError ExactRate
read_parts input whole fractional = do
  return_if (is_invalid input whole fractional) invalid_rate
  let coefficient = pos (value (whole ++ fractional))
  return_if (leb_ℤ coefficient (pos 0)) invalid_rate
  ok (record { coefficient = coefficient; scale = length fractional })

-- `ExactRate::parse`
unfoldable pub parse : Text → Result ArithmeticError ExactRate
unfolding read_parts
parse input = let (whole, fractional) = split_point input in read_parts input whole fractional

abbrev pow10 : ℕ → ℤ
pow10 scale = pos (10 ^ scale)

unfoldable pub half_up_divide : ℤ → ℤ → Result ArithmeticError ℤ
half_up_divide numerator denominator = do
  return_if (leb_ℤ denominator (pos 0)) invalid_amount
  let quotient = numerator /ℤ denominator
  let remainder = numerator %ℤ denominator
  ok (if leb_ℤ denominator (remainder *ℤ pos 2) then quotient +ℤ pos 1 else quotient)

pub record FeeCalculation : Type 0 where
  pub fee_minor : ℤ
  pub total_source_debit_minor : ℤ

unfoldable pub calculate_fee : ℤ → ℤ → Result ArithmeticError FeeCalculation
calculate_fee source_minor fee_bps = do
  return_if (leb_ℤ source_minor (pos 0) || not (leb_ℤ (pos 0) fee_bps && leb_ℤ fee_bps (pos 10000)))
      invalid_amount
  fee ← half_up_divide (source_minor *ℤ fee_bps) (pos 10000)
  fee_minor ← ok_or (try_i64 fee) overflow
  total ← ok_or (checked_add source_minor fee_minor) overflow
  ok (record { fee_minor = fee_minor; total_source_debit_minor = total })

unfoldable pub calculate_destination : ℤ → ℕ → ℕ → ExactRate → Result ArithmeticError ℤ
calculate_destination source_minor source_scale destination_scale rate = do
  return_if (leb_ℤ source_minor (pos 0)) invalid_amount
  return_if (ltb 18 source_scale || ltb 18 destination_scale) invalid_scale
  let numerator = source_minor *ℤ rate.coefficient *ℤ pow10 destination_scale
  let denominator = pow10 rate.scale *ℤ pow10 source_scale
  rounded ← half_up_divide numerator denominator
  return_if (leb_ℤ rounded (pos 0) && leb_ℤ (pos 0) rounded) destination_too_small
  ok_or (try_i64 rounded) overflow
