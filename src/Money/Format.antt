-- ===== src/Money/Format.antt =====
-- `format_minor_units` prints every amount so that `parse_minor_units` reads it back.
use native.Mathlib.Nat.{one-le-pow, mod-lt, div-add-mod, sub_self}
use high_performance_ledger.Prelude.{
  ℕ, zero, suc, ◌+◌, ◌/◌, ◌%◌, ◌^◌, ◌≡◌, ◌↔◌, refl, [], ◌∷◌, ◌++◌, arith, ltb, lt→ltb, append-nil,
  if◌then◌else◌,
}
use high_performance_ledger.Prelude.Lists.{length}
use high_performance_ledger.Prelude.Int.{
  ℤ, pos, negsuc, pos_part, neg_part, ltb_ℤ, ◌≤ℤ◌, IsI64, try_i64,
}
use high_performance_ledger.Prelude.Text.{Text}
use high_performance_ledger.Prelude.Decimal.{
  value, decimal, padded, value-decimal, decimal_digits, is_empty-decimal, value-padded,
  padded_digits, length-padded,
}
use high_performance_ledger.Prelude.Result.{ok, err, ok_or}
use high_performance_ledger.Money.{
  parse_minor_units, parse_initial_balance, format_minor_units, unsigned_text, signed, overflow,
  too_many_fractional_digits,
}
use high_performance_ledger.Money.Parse.{magnitude, parse_spelled, IsAmountText, spelled, unsigned}

-- The two printed parts of an absolute amount.
whole_text : ℕ → ℕ → Text
whole_text n scale = decimal (n / 10 ^ scale)

fraction_text : ℕ → ℕ → Text
fraction_text n zero = []
fraction_text n (suc k) = padded (suc k) (n % 10 ^ suc k)

abbrev size : ℤ → ℕ
size a = pos_part a + neg_part a

padded-unsigned : (w f : Text) (k : ℕ) → length f ≡ suc k → w ++ b'.' ∷ f ≡ unsigned w f
padded-unsigned w [] k h = absurd (omega (arith, h))
padded-unsigned w (c ∷ f) k h = refl

length-fraction : (n k : ℕ) → length (fraction_text n k) ≡ k
unfolding fraction_text
length-fraction n zero = refl
length-fraction n (suc k) =
    length-padded k (n % 10 ^ suc k) (mod-lt n (one-le-pow (suc k) 10 (omega arith)))

unsigned_text_lem :
    (n scale : ℕ) → unsigned_text n scale ≡ unsigned (whole_text n scale) (fraction_text n scale)
unfolding unsigned_text whole_text fraction_text
unsigned_text_lem n zero = append-nil (decimal (n / 10 ^ 0))
unsigned_text_lem n (suc k) =
    rw (lt→ltb 0 (suc k) (omega arith)) (
      padded-unsigned (whole_text n (suc k)) (fraction_text n (suc k)) k
        (length-fraction n (suc k)))

format_spelled :
    (a : ℤ) (scale : ℕ)
    → format_minor_units a scale
      ≡ spelled (ltb_ℤ a (pos 0)) (whole_text (size a) scale) (fraction_text (size a) scale)
unfolding format_minor_units
format_spelled (pos n) scale = ground (arith, unsigned_text_lem (size (pos n)) scale)
format_spelled (negsuc n) scale = ground (arith, unsigned_text_lem (size (negsuc n)) scale)

printed_shape : (n scale : ℕ) → IsAmountText (whole_text n scale) (fraction_text n scale)
unfolding whole_text fraction_text
printed_shape n zero = record {
  some_whole = is_empty-decimal (n / 10 ^ 0);
  whole_digits = decimal_digits (n / 10 ^ 0);
  fractional_digits = refl;
}
printed_shape n (suc k) = record {
  some_whole = is_empty-decimal (n / 10 ^ suc k);
  whole_digits = decimal_digits (n / 10 ^ suc k);
  fractional_digits = padded_digits (suc k) (n % 10 ^ suc k);
}

value-fraction : (n scale : ℕ) → value (fraction_text n scale) ≡ n % 10 ^ scale
unfolding fraction_text
value-fraction n zero = omega arith
value-fraction n (suc k) = value-padded (suc k) (n % 10 ^ suc k)

magnitude_printed : (n scale : ℕ) → magnitude (whole_text n scale) (fraction_text n scale) scale ≡ n
unfolding whole_text
magnitude_printed n scale =
    rw
      (
        length-fraction n scale,
        value-decimal (n / 10 ^ scale),
        value-fraction n scale,
        sub_self scale,
      )
      (omega (arith, div-add-mod n (10 ^ scale)))

signed-size :
    (a : ℤ) (scale : ℕ)
    → IsI64 a
    → (if ltb scale scale
        then err too_many_fractional_digits
        else ok_or (try_i64 (signed (ltb_ℤ a (pos 0)) (size a))) overflow)
      ≡ ok a
signed-size (pos n) scale h = ground arith
signed-size (negsuc n) scale h = ground arith

-- Every amount of 64 bits is read back from its print, the smallest one included.
pub parse-format :
    (amount : ℤ) (scale : ℕ)
    → IsI64 amount
    → parse_minor_units (format_minor_units amount scale) scale ≡ ok amount
parse-format amount scale fits =
    rw
      (
        format_spelled amount scale,
        parse_spelled (ltb_ℤ amount (pos 0)) (whole_text (size amount) scale)
            (fraction_text (size amount) scale) scale (printed_shape (size amount) scale),
        magnitude_printed (size amount) scale,
        length-fraction (size amount) scale,
      )
      (signed-size amount scale fits)

-- An initial balance is accepted exactly if it is an amount that is not negative.
pub parse_initial_balance_iff :
    (input : Text) (scale : ℕ) (amount : ℤ)
    → (parse_initial_balance input scale ≡ ok amount)
      ↔ ((parse_minor_units input scale ≡ ok amount) × (pos 0 ≤ℤ amount))
unfolding parse_initial_balance
parse_initial_balance_iff input scale amount = (λ h. ground arith, λ h. ground arith)
