-- ===== src/Money/Tests.antt =====
-- Runs of src/money.rs on the inputs of its own tests.
use high_performance_ledger.Prelude.{◌≡◌, ◌↔◌, refl, ltb, if◌then◌else◌, true, arith}
use high_performance_ledger.Prelude.Int.{pos, negsuc}
use high_performance_ledger.Prelude.Text.{codes}
use high_performance_ledger.Prelude.Decimal.{decimal, padded}
use high_performance_ledger.Prelude.Result.{ok, err}
use high_performance_ledger.Money.Parse.{
  IsAmountText, amount_of, IsReading, Spelling, parse_spelled, parse_sound, malformed_iff,
}
use high_performance_ledger.Money.Format.{parse-format}
use high_performance_ledger.Money.{
  parse_minor_units, parse_initial_balance, format_minor_units, overflow, negative, malformed,
  too_many_fractional_digits,
}

parse_short_fraction : parse_minor_units (codes "10.2") 2 ≡ ok (pos 1020)
unfolding parse_minor_units
parse_short_fraction = refl

parse_cent : parse_minor_units (codes "-0.01") 2 ≡ ok (negsuc 0)
unfolding parse_minor_units
parse_cent = refl

parse_edges :
    (parse_minor_units (codes "") 2 ≡ err malformed)
    × (parse_minor_units (codes "1.") 2 ≡ err malformed)
    × (parse_minor_units (codes ".1") 2 ≡ err malformed)
    × (parse_minor_units (codes "1.001") 2 ≡ err too_many_fractional_digits)
    × (parse_initial_balance (codes "-1") 2 ≡ err negative)
    × (parse_minor_units (codes "92233720368547758.08") 2 ≡ err overflow)
unfolding parse_minor_units parse_initial_balance
parse_edges = (refl, refl, refl, refl, refl, refl)

format_cent : format_minor_units (negsuc 0) 2 ≡ codes "-0.01"
unfolding format_minor_units decimal padded
format_cent = refl

format_min : format_minor_units (negsuc 9223372036854775807) 0 ≡ codes "-9223372036854775808"
unfolding format_minor_units decimal padded
format_min = refl

ten_twenty : IsAmountText (codes "10") (codes "25")
ten_twenty = record { some_whole = refl; whole_digits = refl; fractional_digits = refl }

parse_spelled_example : parse_minor_units (codes "-10.25") 2 ≡ (
    if ltb 2 2 then err too_many_fractional_digits else amount_of true (codes "10") (codes "25") 2)
parse_spelled_example = parse_spelled true (codes "10") (codes "25") 2 ten_twenty

parse_sound_example : IsReading (codes "10.2") 2 (pos 1020)
parse_sound_example = parse_sound (codes "10.2") 2 (pos 1020) parse_short_fraction

malformed_iff_example :
    (parse_minor_units (codes "1.") 2 ≡ err malformed) ↔ (¬ Spelling (codes "1."))
malformed_iff_example = malformed_iff (codes "1.") 2

parse-format_example :
    parse_minor_units (format_minor_units (negsuc 9223372036854775807) 2) 2
    ≡ ok (negsuc 9223372036854775807)
parse-format_example = parse-format (negsuc 9223372036854775807) 2 (omega arith)
