-- ===== src/Fx/Tests.antt =====
-- Runs of src/fx.rs on the inputs of its own tests.
use high_performance_ledger.Prelude.{ℕ, ◌+◌, ◌*◌, ◌^◌, ◌<◌, ◌≡◌, ◌↔◌, refl, ◌∷◌, ◌++◌, arith}
use high_performance_ledger.Prelude.Lists.{length}
use high_performance_ledger.Prelude.Decimal.{value}
use high_performance_ledger.Prelude.Int.{pos, negsuc, ◌+ℤ◌, i64_mod}
use high_performance_ledger.Prelude.Text.{Text, codes, split_once}
use high_performance_ledger.Prelude.Result.{ok, err, ◌>>=◌}
use high_performance_ledger.Money.Parse.{IsAmountText}
use high_performance_ledger.Fx.Rounding.{
  IsHalfUp, calculate_fee_iff, numerator, denominator, conversion_result,
  calculate_destination_exact,
}
use high_performance_ledger.Fx.Rate.{IsRateText, IsRateOf, rate_sound, rate_complete}
use high_performance_ledger.Fx.{
  ExactRate, FeeCalculation, parse, calculate_fee, half_up_divide, calculate_destination,
  invalid_rate, invalid_amount, overflow, destination_too_small,
}

rounds_up_at_half : (parse (codes "0.5") >>= λ r. calculate_destination (pos 1) 0 0 r) ≡ ok (pos 1)
unfolding parse split_once calculate_destination half_up_divide ◌+ℤ◌
rounds_up_at_half = refl

rounds_down_below_half :
    (parse (codes "0.49") >>= λ r. calculate_destination (pos 1) 0 0 r) ≡ err destination_too_small
unfolding parse split_once calculate_destination half_up_divide ◌+ℤ◌
rounds_down_below_half = refl

wide_intermediate :
    (parse (codes "999999999999999999.999999999999") >>= λ r. calculate_destination (pos 1) 18 18 r)
    ≡ ok (pos 1000000000000000000)
unfolding parse split_once calculate_destination half_up_divide ◌+ℤ◌
wide_intermediate = refl

fee_overflow : calculate_fee (pos 9223372036854775807) (pos 1) ≡ err overflow
unfolding calculate_fee half_up_divide ◌+ℤ◌
fee_overflow = refl

fee_bad : calculate_fee (pos 1) (negsuc 0) ≡ err invalid_amount
unfolding calculate_fee half_up_divide ◌+ℤ◌
fee_bad = refl

no_rate : parse (codes "1.2.3") ≡ err invalid_rate
unfolding parse split_once
no_rate = refl

IsHalfUp-fee : IsHalfUp (3 * 5000) 10000 2
IsHalfUp-fee = record { not_above = omega arith; not_below = omega arith }

calculate_fee_iff_example :
    (calculate_fee (pos 3) (pos 5000)
      ≡ ok (record { fee_minor = pos 2; total_source_debit_minor = pos 5 }))
    ↔ (IsHalfUp (3 * 5000) 10000 2 × (◌≡◌ {A = ℕ} 5 (3 + 2)) × (5 < i64_mod))
calculate_fee_iff_example = calculate_fee_iff 3 5000 2 5 (omega arith) (omega arith)

abbrev fee_of_three : FeeCalculation
fee_of_three = record { fee_minor = pos 2; total_source_debit_minor = pos 5 }

calculate_destination_exact_example :
    (q : ℕ) × IsHalfUp (numerator 100 125 2) (denominator 2 2) q
    × (calculate_destination (pos 100) 2 2 (record { coefficient = pos 125; scale = 2 })
        ≡ conversion_result q)
calculate_destination_exact_example =
    calculate_destination_exact 100 125 2 2 2 (omega arith) (omega arith) (omega arith)

abbrev rate : ExactRate
rate = record { coefficient = pos 125; scale = 2 }

parse_rate : parse (codes "1.25") ≡ ok rate
unfolding parse split_once
parse_rate = refl

rate_sound_example :
    (whole : Text) × (fractional : Text) × IsAmountText whole fractional
    × IsRateText (codes "1.25") whole fractional
    × IsRateOf rate whole fractional
rate_sound_example = rate_sound (codes "1.25") rate parse_rate

rate_complete_example :
    parse (codes "1" ++ b'.' ∷ codes "25")
    ≡ ok (record {
      coefficient = pos (value (codes "1") * 10 ^ length (codes "25") + value (codes "25"));
      scale = length (codes "25");
    })
rate_complete_example =
    rate_complete (codes "1") (codes "25")
      (record { some_whole = refl; whole_digits = refl; fractional_digits = refl }) (omega arith)
      (omega arith) (omega arith)
