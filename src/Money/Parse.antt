-- ===== src/Money/Parse.antt =====
-- The contract of `parse_minor_units`: which texts it reads, as which amounts, and why it refuses
-- the others.
mod Shape
use high_performance_ledger.Prelude.{
  ℕ, ◌+◌, ◌-◌, ◌*◌, ◌^◌, ◌≤◌, ◌<◌, ◌⊎◌, ◌∙◌, ap, ◌↔◌, ◌||◌, not, ◌≡◌, ◌≢◌, refl, sym, inl, inr,
  Bool, true, false, none, some, zero, suc, [], ◌∷◌, arith, ltb, leb, if◌then◌else◌, Bool-cases,
}
use high_performance_ledger.Prelude.Lists.{length, is_empty}
use high_performance_ledger.Prelude.Int.{ℤ, pos, is_i64, try_i64, neg_ℕ, IsI64}
use high_performance_ledger.Prelude.Text.{Text, ◌=t◌, trim, all_digits}
use high_performance_ledger.Prelude.Decimal.{value}
use high_performance_ledger.Prelude.Result.{Result, ok, err, ok_or}
use high_performance_ledger.Money.{
  parse_minor_units, to_minor_units, strip_sign, split_point, is_malformed, parse_i128,
  parse_fraction, combine, fit_i128, signed, malformed, overflow, too_many_fractional_digits,
  i128_max, MoneyError,
}
use native.Mathlib.Nat.{one-le-pow}
pub use Shape.{IsAmountText, spelled, unsigned, split_inverse, split_at_point, count_at_point}
use Shape.{
  IsAmountText, spelled, split_spelled, strip_spelled, trim-spelled, is_empty-spelled,
  unsigned_shape,
}

-- The minor units that a text of digits, and of digits behind a point, stands for.
abbrev pub magnitude : Text → Text → ℕ → ℕ
magnitude whole fractional scale =
    value whole * 10 ^ scale + value fractional * 10 ^ (scale - length fractional)

-- What a parsed amount comes to, within the range of `i64`.
abbrev pub amount_of : Bool → Text → Text → ℕ → Result MoneyError ℤ
amount_of is_negative whole fractional scale =
    ok_or (try_i64 (signed is_negative (magnitude whole fractional scale))) overflow

big_is_overflow :
    (is_negative : Bool) (n : ℕ) → i128_max < n → try_i64 (signed is_negative n) ≡ none
big_is_overflow true (suc n) h = ground arith
big_is_overflow false n h = ground arith
big_is_overflow true zero h = absurd (omega arith)

scaled_up : (n k : ℕ) → n ≤ n * 10 ^ k
scaled_up n k = grind (arith, one-le-pow k 10 (omega arith))

to_minor_units_lem :
    (is_negative : Bool) (w f : Text) (scale : ℕ)
    → to_minor_units is_negative w f scale ≡ (
        if ltb scale (length f)
        then err too_many_fractional_digits
        else amount_of is_negative w f scale)
unfolding to_minor_units
to_minor_units_lem is_negative w [] scale =
    ground (arith, scaled_up (value w) scale, big_is_overflow is_negative (magnitude w [] scale))
to_minor_units_lem is_negative w (c ∷ f) scale = ground (
  arith,
  scaled_up (value w) scale,
  scaled_up (value (c ∷ f)) (scale - length (c ∷ f)),
  big_is_overflow is_negative (magnitude w (c ∷ f) scale),
)

-- A text of the shape of an amount is refused only for its length behind the point, or for its
-- range: within both, the result is exactly the amount that is written.
pub parse_spelled :
    (is_negative : Bool) (whole fractional : Text) (scale : ℕ)
    → IsAmountText whole fractional
    → parse_minor_units (spelled is_negative whole fractional) scale ≡ (
        if ltb scale (length fractional)
        then err too_many_fractional_digits
        else amount_of is_negative whole fractional scale)
unfolding parse_minor_units
parse_spelled is_negative w f scale h =
    rw
      (
        trim-spelled is_negative w f h,
        is_empty-spelled is_negative w f h,
        strip_spelled is_negative w f h,
        (split_spelled w f h).0,
        (split_spelled w f h).1,
      )
      (to_minor_units_lem is_negative w f scale)

-- The text is what its sign and the rest spell.
with_sign : Bool → Text → Text
with_sign true s = b'-' ∷ s
with_sign false s = s

with_sign-strip : (s : Text) → s ≡ with_sign (strip_sign s).0 (strip_sign s).1
unfolding with_sign
with_sign-strip [] = refl
with_sign-strip (c ∷ s) = ground arith

with_sign-unsigned : (b : Bool) (w f : Text) → with_sign b (unsigned w f) ≡ spelled b w f
unfolding with_sign
with_sign-unsigned true w f = refl
with_sign-unsigned false w f = refl

-- How a text is written as an amount.
abbrev pub Spelling : Text → Type 0
Spelling input =
    (is_negative : Bool) × (whole : Text) × (fractional : Text) × IsAmountText whole fractional
    × (input ≡ spelled is_negative whole fractional)

shaped_or_malformed :
    (input : Text) (scale : ℕ) → (parse_minor_units input scale ≡ err malformed) ⊎ Spelling input
unfolding parse_minor_units
shaped_or_malformed input scale =
    let (b, digits) = strip_sign input in
    let (w, f) = split_point digits in
    elim (Bool-cases (is_empty input || not (trim input =t input))) [
      | inl bad ↦ inl (rw bad)
      | inr good ↦ elim (Bool-cases (is_malformed digits w f)) [
        | inl bad ↦ inl (rw (good, bad))
        | inr fine ↦
            let (shape, same) = unsigned_shape digits fine in
            inr (
              b,
              w,
              f,
              shape,
              with_sign-strip input ∙ ap (with_sign b) same ∙ with_sign-unsigned b w f,
            )
      ]
    ]

-- The amount that a spelling stands for at a scale, where it is one.
abbrev pub IsReading : Text → ℕ → ℤ → Type 0
IsReading input scale amount =
    (is_negative : Bool) × (whole : Text) × (fractional : Text) × IsAmountText whole fractional
    × (input ≡ spelled is_negative whole fractional)
    × (length fractional ≤ scale)
    × (amount ≡ signed is_negative (magnitude whole fractional scale))
    × IsI64 amount

accepted :
    (l scale : ℕ) (n amount : ℤ)
    → (if ltb scale l then err too_many_fractional_digits else ok_or (try_i64 n) overflow)
      ≡ ok amount
    → (l ≤ scale) × (amount ≡ n) × IsI64 amount
accepted l scale n amount h = ground arith

not_malformed :
    (over : Bool) (n : ℤ)
    → (if over then err too_many_fractional_digits else ok_or (try_i64 n) overflow) ≢ err malformed
not_malformed over n h = ground arith

-- An amount is read only from a text of the right shape, with no more fractional digits than the
-- scale, and is exactly what the text writes: nothing is rounded, and nothing wraps around.
pub parse_sound :
    (input : Text) (scale : ℕ) (amount : ℤ)
    → parse_minor_units input scale ≡ ok amount
    → IsReading input scale amount
parse_sound input scale amount h = elim (shaped_or_malformed input scale) [
  | inl bad ↦ cc
  | inr (b, w, f, shape, same) ↦ read b w f shape same
]
  where
    read :
        (b : Bool) (w f : Text)
        → IsAmountText w f
        → input ≡ spelled b w f
        → IsReading input scale amount
    read b w f shape same =
        let (short, exact, fits) =
          accepted (length f) scale (signed b (magnitude w f scale)) amount
            (sym (parse_spelled b w f scale shape) ∙ (rw same at h)) in
        (b, w, f, shape, same, short, exact, fits)

-- A text is malformed exactly if it has no spelling as an amount.
pub malformed_iff :
    (input : Text) (scale : ℕ)
    → (parse_minor_units input scale ≡ err malformed) ↔ (¬ Spelling input)
malformed_iff input scale = (
  refused,
  λ h. elim (shaped_or_malformed input scale) [ inl bad ↦ bad | inr shape ↦ absurd (h shape) ],
)
  where
    refused : parse_minor_units input scale ≡ err malformed → ¬ Spelling input
    refused e (b, w, f, shape, same) =
        not_malformed (ltb scale (length f)) (signed b (magnitude w f scale))
          (sym (parse_spelled b w f scale shape) ∙ (rw same at e))
