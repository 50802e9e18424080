-- ===== src/Fx/Rounding.antt =====
-- Division rounds half up, and fees and conversions are so rounded results of exact products.
use native.Mathlib.Nat.{mod-lt, div-add-mod, one-le-pow, one-le-mul}
use high_performance_ledger.Prelude.{
  ℕ, suc, ◌+◌, ◌*◌, ◌/◌, ◌%◌, ◌^◌, ◌≤◌, ◌<◌, ◌≡◌, ◌↔◌, sym, ◌∙◌, arith, ltb, leb, ◌==◌, ◌&&◌,
  leb→le, if◌then◌else◌, Bool-cases, inl, inr,
}
use high_performance_ledger.Prelude.Int.{ℤ, pos, negsuc, ◌+ℤ◌, i64_mod, ◌≤ℤ◌, IsI64}
use high_performance_ledger.Prelude.Result.{Result, ok, err}
use high_performance_ledger.Fx.{
  ArithmeticError, FeeCalculation, half_up_divide, calculate_fee, calculate_destination, overflow,
  destination_too_small,
}

-- `q` is `n / d` rounded to the nearest whole number, and up from a half.
pub record IsHalfUp (n d q : ℕ) : Type 0 where
  pub not_above : 2 * (q * d) ≤ 2 * n + d
  pub not_below : 2 * n + d < 2 * (q * d) + 2 * d

half_up : ℕ → ℕ → ℕ
half_up n d = if leb d (n % d * 2) then n / d + 1 else n / d

half_up-IsHalfUp : (n d : ℕ) → 0 < d → IsHalfUp n d (half_up n d)
unfolding half_up
half_up-IsHalfUp n d h = grind (arith, mod-lt n h, div-add-mod n d)

half_up_divide_lem : (n d : ℕ) → 0 < d → half_up_divide (pos n) (pos d) ≡ ok (pos (half_up n d))
unfolding half_up_divide half_up ◌+ℤ◌
half_up_divide_lem n d h = ground arith

mul_mono : (a b d : ℕ) → a ≤ b → a * d ≤ b * d
mul_mono a b d h = grind arith

pos_inj : {a b : ℕ} → ◌≡◌ {A = Result ArithmeticError ℤ} (ok (pos a)) (ok (pos b)) → a ≡ b
pos_inj h = cc

le_of_IsHalfUp : (n d q r : ℕ) → IsHalfUp n d q → IsHalfUp n d r → q ≤ r
le_of_IsHalfUp n d q r a b = elim (Bool-cases (leb q r)) [
  | inl le ↦ leb→le q r le
  | inr gt ↦ absurd (omega (arith, a, b, mul_mono (suc r) q d (ground arith)))
]

-- The rounded quotient is determined.
IsHalfUp-unique : (n d q r : ℕ) → IsHalfUp n d q → IsHalfUp n d r → q ≡ r
IsHalfUp-unique n d q r a b = omega (arith, le_of_IsHalfUp n d q r a b, le_of_IsHalfUp n d r q b a)

-- A division by a positive number rounds half up, and returns no other quotient.
pub half_up_divide_iff :
    (n d q : ℕ) → 0 < d → (half_up_divide (pos n) (pos d) ≡ ok (pos q)) ↔ IsHalfUp n d q
half_up_divide_iff n d q h = (
  λ e. rw (← pos_inj (sym (half_up_divide_lem n d h) ∙ e)) (half_up-IsHalfUp n d h),
  λ r.
      rw (IsHalfUp-unique n d q (half_up n d) r (half_up-IsHalfUp n d h))
        (half_up_divide_lem n d h),
)

abbrev pub fee_result : ℕ → ℕ → Result ArithmeticError FeeCalculation
fee_result source fee =
    if ltb (source + fee) i64_mod
    then ok (record { fee_minor = pos fee; total_source_debit_minor = pos (source + fee) })
    else err overflow

calculate_fee_lem :
    (source bps : ℕ)
    → 0 < source
    → bps ≤ 10000
    → calculate_fee (pos source) (pos bps) ≡ fee_result source (half_up (source * bps) 10000)
unfolding calculate_fee ◌+ℤ◌
calculate_fee_lem source bps h k =
    ground (arith, half_up_divide_lem (source * bps) 10000 (omega arith))

fee_result_iff :
    (source f fee total : ℕ)
    → (fee_result source f
        ≡ ok (record { fee_minor = pos fee; total_source_debit_minor = pos total }))
      ↔ ((f ≡ fee) × (total ≡ source + fee) × (total < i64_mod))
fee_result_iff source f fee total = (λ h. ground arith, λ h. ground arith)

-- For a positive amount and at most 10000 basis points: a fee is charged exactly if it is the share
-- rounded half up, the total debit is the sum of the two, and that sum is in the range of `i64`.
pub calculate_fee_iff :
    (source bps fee total : ℕ)
    → 0 < source
    → bps ≤ 10000
    → (calculate_fee (pos source) (pos bps)
        ≡ ok (record { fee_minor = pos fee; total_source_debit_minor = pos total }))
      ↔ (IsHalfUp (source * bps) 10000 fee × (total ≡ source + fee) × (total < i64_mod))
calculate_fee_iff source bps fee total h k = rw (calculate_fee_lem source bps h k) (
  λ e.
      let (same, sum, fits) = (fee_result_iff source f fee total).0 e in
      (rw same at (half_up-IsHalfUp n 10000 (omega arith)), sum, fits),
  λ (r, sum, fits).
      (fee_result_iff source f fee total).1
        (IsHalfUp-unique n 10000 f fee (half_up-IsHalfUp n 10000 (omega arith)) r, sum, fits),
)
  where
    n : ℕ
    n = source * bps

    f : ℕ
    f = half_up n 10000

fee_le_source : (s b f : ℕ) → b ≤ 10000 → IsHalfUp (s * b) 10000 f → f ≤ s
fee_le_source s b f h r = grind arith

fee_result_bounds :
    (s f : ℕ) (c : FeeCalculation)
    → 0 < s
    → f ≤ s
    → fee_result s f ≡ ok c
    → (pos 1 ≤ℤ pos s)
      × (pos 0 ≤ℤ c.fee_minor)
      × (c.fee_minor ≤ℤ pos s)
      × (c.total_source_debit_minor ≡ pos s +ℤ c.fee_minor)
      × IsI64 c.total_source_debit_minor
unfolding ◌+ℤ◌
fee_result_bounds s f c h k e = ground arith

-- Whatever the inputs, a calculated fee is neither negative nor above the amount, which is positive,
-- and the total debit is the sum of the two, in the range of `i64`.
pub calculate_fee_bounds :
    (source bps : ℤ) (c : FeeCalculation)
    → calculate_fee source bps ≡ ok c
    → (pos 1 ≤ℤ source)
      × (pos 0 ≤ℤ c.fee_minor)
      × (c.fee_minor ≤ℤ source)
      × (c.total_source_debit_minor ≡ source +ℤ c.fee_minor)
      × IsI64 c.total_source_debit_minor
calculate_fee_bounds (pos s) (pos b) c e = elim (Bool-cases (leb 1 s && leb b 10000)) [
  | inl inside ↦
      let n = s * b in
      fee_result_bounds s (half_up n 10000) c (ground arith)
        (fee_le_source s b (half_up n 10000) (ground arith)
          (half_up-IsHalfUp n 10000 (omega arith)))
        (sym (calculate_fee_lem s b (ground arith) (ground arith)) ∙ e)
  | inr outside ↦ unfold calculate_fee in ground arith
]
calculate_fee_bounds (pos s) (negsuc b) c e = unfold calculate_fee in ground arith
calculate_fee_bounds (negsuc s) b c e = unfold calculate_fee in ground arith

-- The exact value of a conversion: the amount times the rate, in minor units of the destination.
abbrev pub numerator : ℕ → ℕ → ℕ → ℕ
numerator source coefficient destination_scale = source * coefficient * 10 ^ destination_scale

abbrev pub denominator : ℕ → ℕ → ℕ
denominator rate_scale source_scale = 10 ^ rate_scale * 10 ^ source_scale

abbrev pub conversion_result : ℕ → Result ArithmeticError ℤ
conversion_result q =
    if q == 0 then err destination_too_small else if ltb q i64_mod then ok (pos q) else err overflow

conversion_result_pos :
    (s q : ℕ) (result : ℤ)
    → 0 < s
    → conversion_result q ≡ ok result
    → (pos 1 ≤ℤ pos s) × (pos 1 ≤ℤ result) × IsI64 result
conversion_result_pos s q result h e = ground arith

denominator_pos : (a b : ℕ) → 0 < denominator a b
denominator_pos a b = one-le-mul (one-le-pow a 10 (omega arith)) (one-le-pow b 10 (omega arith))

calculate_destination_lem :
    (source coefficient source_scale destination_scale rate_scale : ℕ)
    → 0 < source
    → source_scale ≤ 18
    → destination_scale ≤ 18
    → calculate_destination
        (pos source)
        source_scale
        destination_scale
        (record { coefficient = pos coefficient; scale = rate_scale })
      ≡ conversion_result (
          half_up
            (numerator source coefficient destination_scale)
            (denominator rate_scale source_scale))
unfolding calculate_destination
calculate_destination_lem source coefficient source_scale destination_scale rate_scale h k l =
    ground (
      arith,
      half_up_divide_lem (numerator source coefficient destination_scale)
          (denominator rate_scale source_scale) (denominator_pos rate_scale source_scale),
    )

-- For a positive amount and scales up to 18, the converted amount is decided by the one number q
-- that is the exact value rounded half up: q itself if it is positive and in the range of `i64`, too
-- small if it is 0, and an overflow above the range.
pub calculate_destination_exact :
    (source coefficient source_scale destination_scale rate_scale : ℕ)
    → 0 < source
    → source_scale ≤ 18
    → destination_scale ≤ 18
    → (q : ℕ) × IsHalfUp
        (numerator source coefficient destination_scale)
        (denominator rate_scale source_scale)
        q
      × (calculate_destination
            (pos source)
            source_scale
            destination_scale
            (record { coefficient = pos coefficient; scale = rate_scale })
          ≡ conversion_result q)
calculate_destination_exact source coefficient source_scale destination_scale rate_scale h k l =
    let n = numerator source coefficient destination_scale in
    let d = denominator rate_scale source_scale in
    (
      half_up n d,
      half_up-IsHalfUp n d (denominator_pos rate_scale source_scale),
      calculate_destination_lem source coefficient source_scale destination_scale rate_scale h k l,
    )

-- Whatever the inputs and a rate that is not negative, an amount that is converted is positive, and
-- the result is positive and in the range of `i64`.
pub calculate_destination_pos :
    (source : ℤ) (source_scale destination_scale coefficient rate_scale : ℕ) (result : ℤ)
    → calculate_destination source source_scale destination_scale
        (record { coefficient = pos coefficient; scale = rate_scale })
      ≡ ok result
    → (pos 1 ≤ℤ source) × (pos 1 ≤ℤ result) × IsI64 result
calculate_destination_pos (negsuc s) ss ds c rs result e =
    unfold calculate_destination in ground arith
calculate_destination_pos (pos s) ss ds c rs result e =
    elim (Bool-cases (leb 1 s && leb ss 18 && leb ds 18)) [
      | inl inside ↦
          conversion_result_pos s (half_up (numerator s c ds) (denominator rs ss)) result
            (ground arith)
            (sym (
                calculate_destination_lem s c ss ds rs (ground arith) (ground arith) (ground arith))
              ∙ e)
      | inr outside ↦ unfold calculate_destination in ground arith
    ]
