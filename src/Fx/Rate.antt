-- ===== src/Fx/Rate.antt =====
-- Reading a rate from its decimal text.
use native.Mathlib.Nat.{one-le-pow, pow-suc}
use high_performance_ledger.Prelude.{
  ℕ, zero, suc, ◌+◌, ◌*◌, ◌^◌, ◌≤◌, ◌<◌, ◌≡◌, ◌⊎◌, inl, inr, refl, arith, Bool-cases, Option-cases,
  true, [], ◌∷◌, ◌++◌,
}
use high_performance_ledger.Prelude.Lists.{length, length-append, all-append}
use high_performance_ledger.Prelude.Int.{pos}
use high_performance_ledger.Prelude.Text.{Text, is_digit, split_once, all_digits}
use high_performance_ledger.Prelude.Decimal.{value, value-append, value-lt-pow}
use high_performance_ledger.Prelude.Result.{ok}
use high_performance_ledger.Money.{split_point}
use high_performance_ledger.Money.Parse.{
  IsAmountText, split_inverse, split_at_point, count_at_point,
}
use high_performance_ledger.Fx.{ExactRate, parse, read_parts, is_invalid}

-- A rate is written as digits, or as digits, a point and perhaps more digits.
abbrev pub IsRateText : Text → Text → Text → Type 0
IsRateText input whole fractional =
    ((input ≡ whole) × (fractional ≡ [])) ⊎ (input ≡ whole ++ b'.' ∷ fractional)

-- The rate that digits and fractional digits stand for: positive, below 10^30, of scale up to 12.
abbrev pub IsRateOf : ExactRate → Text → Text → Type 0
IsRateOf rate whole fractional =
    (rate.coefficient ≡ pos (value whole * 10 ^ length fractional + value fractional))
    × (0 < value whole * 10 ^ length fractional + value fractional)
    × (value whole * 10 ^ length fractional + value fractional < 10 ^ 30)
    × (rate.scale ≡ length fractional)
    × (length fractional ≤ 12)

pow_mono : (a b : ℕ) → a ≤ b → 10 ^ a ≤ 10 ^ b
pow_mono zero b h = one-le-pow b 10 (omega arith)
pow_mono (suc a) zero h = absurd (omega arith)
pow_mono (suc a) (suc b) h =
    rw (pow-suc 10 a, pow-suc 10 b) (omega (arith, pow_mono a b (omega arith)))

split_point-IsRateText :
    (input : Text) → IsRateText input (split_point input).0 (split_point input).1
split_point-IsRateText input = elim (Option-cases (split_once b'.' input)) [
  | inl e ↦ rw (e, split_point) (inl (refl, refl))
  | inr (parts, e) ↦ rw (e, split_point) (inr (split_inverse input parts.0 parts.1 e))
]

digits_bound :
    (w f : Text)
    → all_digits w ≡ true
    → all_digits f ≡ true
    → length w + length f ≤ 30
    → value (w ++ f) < 10 ^ 30
digits_bound w f hw hf h = omega (
  arith,
  value-lt-pow (w ++ f) (ground (arith, all-append is_digit w f)),
  pow_mono (length (w ++ f)) 30 (omega (arith, length-append w f)),
)

read_parts_lem :
    (input w f : Text) (rate : ExactRate)
    → read_parts input w f ≡ ok rate
    → IsAmountText w f × IsRateOf rate w f
unfolding read_parts
read_parts_lem input w f rate e = elim (Bool-cases (is_invalid input w f)) [
  | inl bad ↦ ground arith
  | inr fine ↦ (ground arith, ground (arith, value-append w f, digits_bound w f))
]

-- A rate that is read is the positive number that the digits of the text before and behind its
-- point write, below 10^30 and with at most 12 fractional digits.
pub rate_sound :
    (input : Text) (rate : ExactRate)
    → parse input ≡ ok rate
    → (whole : Text) × (fractional : Text) × IsAmountText whole fractional
      × IsRateText input whole fractional
      × IsRateOf rate whole fractional
unfolding parse
rate_sound input rate e =
    let (w, f) = split_point input in
    let (shape, exact) = read_parts_lem input w f rate e in
    (w, f, shape, split_point-IsRateText input, exact)

-- Every positive rate that is written with a point, with 1 to 18 digits before it and up to 12
-- behind it, is read, and as what is written.
pub rate_complete :
    (whole fractional : Text)
    → IsAmountText whole fractional
    → length whole ≤ 18
    → length fractional ≤ 12
    → 0 < value whole * 10 ^ length fractional + value fractional
    → parse (whole ++ b'.' ∷ fractional)
      ≡ ok (record {
        coefficient = pos (value whole * 10 ^ length fractional + value fractional);
        scale = length fractional;
      })
unfolding parse
rate_complete w f h lw lf positive =
    rw (split_at_point w f h.whole_digits, split_point)
      (ground (arith, count_at_point w f, value-append w f))
