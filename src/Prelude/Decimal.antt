-- ===== src/Prelude/Decimal.antt =====
-- Decimal text: what `parse` reads from digits, and what `{}` and `{:0width$}` print.
use Prim.Native.Nat.{ℕ, zero, suc, ◌+◌, ◌-◌, ◌*◌, ◌/◌, ◌%◌, ◌^◌, ◌≤◌, ◌<◌}
use mathlib.Core.Path.{◌≡◌, refl}
use mathlib.Core.Bool.{true, false}
use mathlib.Core.List.{[], ◌∷◌, ◌++◌, foldl, foldl-append}
use native.Mathlib.Nat.{pow-suc}
use native.Mathlib.Omega.{arith}
use high_performance_ledger.Prelude.Tests.{ltb, if◌then◌else◌}
use high_performance_ledger.Prelude.Lists.{
  length, is_empty, replicate, length-append, length-replicate, all-append, all-replicate,
}
use high_performance_ledger.Prelude.Text.{Text, is_digit, all_digits}

abbrev pub push_digit : ℕ → ℕ → ℕ
push_digit n c = n * 10 + (c - b'0')

-- The number that digits spell.
abbrev pub value : Text → ℕ
value = foldl push_digit 0

decimal_fuel : ℕ → ℕ → Text
decimal_fuel zero n = []
decimal_fuel (suc f) n =
    let more = decimal_fuel f (n / 10) ++ (b'0' + n % 10) ∷ [] in
    if ltb n 10 then (b'0' + n) ∷ [] else more

-- `{}` of an unsigned integer.
unfoldable pub decimal : ℕ → Text
unfolding decimal_fuel
decimal n = decimal_fuel (suc n) n

-- `{:0width$}` of an unsigned integer.
unfoldable pub padded : ℕ → ℕ → Text
unfolding decimal
padded width n = replicate (width - length (decimal n)) b'0' ++ decimal n

pub value-snoc : (s : Text) (c : ℕ) → value (s ++ c ∷ []) ≡ push_digit (value s) c
value-snoc s c = foldl-append push_digit 0 s (c ∷ [])

foldl_value : (n : ℕ) (s : Text) → foldl push_digit n s ≡ n * 10 ^ length s + foldl push_digit 0 s
foldl_value n [] = omega arith
foldl_value n (c ∷ s) =
    rw (foldl_value (push_digit n c) s, foldl_value (push_digit 0 c) s, pow-suc 10 (length s))
      (grind arith)

pub value-append : (s t : Text) → value (s ++ t) ≡ value s * 10 ^ length t + value t
value-append s t = rw (foldl-append push_digit 0 s t) (foldl_value (value s) t)

place_bound : (d p v : ℕ) → d ≤ 9 → v < p → d * p + v < p * 10
place_bound d p v hd hv = grind arith

pub value-lt-pow : (s : Text) → all_digits s ≡ true → value s < 10 ^ length s
value-lt-pow [] h = omega arith
value-lt-pow (c ∷ s) h =
    rw (foldl_value (push_digit 0 c) s, pow-suc 10 (length s))
      (place_bound (push_digit 0 c) (10 ^ length s) (value s) (ground arith)
        (value-lt-pow s (ground arith)))

decimal_fuel-value : (f n : ℕ) → n < f → value (decimal_fuel f n) ≡ n
unfolding decimal_fuel
decimal_fuel-value zero n h = elim h [ ]
decimal_fuel-value (suc f) n h =
    ground
      (arith, decimal_fuel-value f (n / 10), value-snoc (decimal_fuel f (n / 10)) (b'0' + n % 10))

decimal_fuel-digits : (f n : ℕ) → all_digits (decimal_fuel f n) ≡ true
unfolding decimal_fuel
decimal_fuel-digits zero n = refl
decimal_fuel-digits (suc f) n = ground (
  arith,
  decimal_fuel-digits f (n / 10),
  all-append is_digit (decimal_fuel f (n / 10)) ((b'0' + n % 10) ∷ []),
)

decimal_fuel-length : (f n w : ℕ) → n < f → n < 10 ^ suc w → length (decimal_fuel f n) ≤ suc w
unfolding decimal_fuel
decimal_fuel-length zero n w h k = elim h [ ]
decimal_fuel-length (suc f) n zero h k = ground arith
decimal_fuel-length (suc f) n (suc w) h k = ground (
  arith,
  pow-suc 10 (suc w),
  decimal_fuel-length f (n / 10) w,
  length-append (decimal_fuel f (n / 10)) ((b'0' + n % 10) ∷ []),
)

pub value-decimal : (n : ℕ) → value (decimal n) ≡ n
unfolding decimal
value-decimal n = decimal_fuel-value (suc n) n (omega arith)

pub decimal_digits : (n : ℕ) → all_digits (decimal n) ≡ true
unfolding decimal
decimal_digits n = decimal_fuel-digits (suc n) n

pub is_empty-snoc : (s : Text) (c : ℕ) → is_empty (s ++ c ∷ []) ≡ false
is_empty-snoc [] c = refl
is_empty-snoc (x ∷ s) c = refl

pub is_empty-decimal : (n : ℕ) → is_empty (decimal n) ≡ false
unfolding decimal
is_empty-decimal n = ground (arith, is_empty-snoc (decimal_fuel n (n / 10)) (b'0' + n % 10))

value-zeros : (k : ℕ) (s : Text) → value (replicate k b'0' ++ s) ≡ value s
value-zeros zero s = refl
value-zeros (suc k) s = value-zeros k s

pub value-padded : (w n : ℕ) → value (padded w n) ≡ n
unfolding padded
value-padded w n = rw (value-zeros _ (decimal n)) (value-decimal n)

pub padded_digits : (w n : ℕ) → all_digits (padded w n) ≡ true
unfolding padded
padded_digits w n = ground (
  arith,
  all-append is_digit (replicate (w - length (decimal n)) b'0') (decimal n),
  all-replicate is_digit (w - length (decimal n)) b'0' refl,
  decimal_digits n,
)

pub length-decimal : (n w : ℕ) → n < 10 ^ suc w → length (decimal n) ≤ suc w
unfolding decimal
length-decimal n w h = decimal_fuel-length (suc n) n w (omega arith) h

pub length-padded : (w n : ℕ) → n < 10 ^ suc w → length (padded (suc w) n) ≡ suc w
unfolding padded
length-padded w n h = omega (
  arith,
  length-append (replicate (suc w - length (decimal n)) b'0') (decimal n),
  length-replicate {A = ℕ} (suc w - length (decimal n)) b'0',
  length-decimal n w h,
)
