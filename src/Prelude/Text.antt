-- ===== src/Prelude/Text.antt =====
-- Text as a list of code points, with the `str` operations that the program uses.
use Prim.Native.Nat.{ℕ, ◌+◌, ◌-◌}
use Prim.Native.Char.{code}
use Prim.Native.String.{String}
use mathlib.Core.Path.{◌≡◌, refl}
use mathlib.Core.Bool.{Bool, true, false, ◌&&◌, ◌||◌, not}
use mathlib.Core.Option.{Option, none, some}
use mathlib.Core.List.{List, [], ◌∷◌, reverse, reverse-reverse}
use native.Mathlib.Omega.{arith}
use high_performance_ledger.Prelude.Tests.{leb, ◌==◌, if◌then◌else◌}
use high_performance_ledger.Prelude.Lists.{all, all-reverse}

abbrev pub Text : Type 0
Text = List ℕ

abbrev pub codes : String → Text
codes String.[] = []
codes (String.◌∷◌ c s) = code c ∷ codes s

infix 50 ◌=t◌
abbrev pub ◌=t◌ : Text → Text → Bool
[] =t [] = true
[] =t (b ∷ t) = false
(a ∷ s) =t [] = false
(a ∷ s) =t (b ∷ t) = (a == b) && (s =t t)

pub =t_sound : (a b : Text) → (a =t b) ≡ true → a ≡ b
=t_sound [] [] h = refl
=t_sound [] (b ∷ t) h = cc
=t_sound (a ∷ s) [] h = cc
=t_sound (a ∷ s) (b ∷ t) h = ground (arith, =t_sound s t)

pub =t_refl : (a : Text) → (a =t a) ≡ true
=t_refl [] = refl
=t_refl (a ∷ s) = ground (arith, =t_refl s)

-- `char::is_whitespace`: the Unicode property White_Space.
abbrev pub is_whitespace : ℕ → Bool
is_whitespace c =
    (leb 0x9 c && leb c 0xd)
    || c == 0x20
    || c == 0x85
    || c == 0xa0
    || c == 0x1680
    || (leb 0x2000 c && leb c 0x200a)
    || c == 0x2028
    || c == 0x2029
    || c == 0x202f
    || c == 0x205f
    || c == 0x3000

pub trim_start : Text → Text
trim_start [] = []
trim_start (c ∷ s) = if is_whitespace c then trim_start s else c ∷ s

-- `str::trim`
unfoldable pub trim : Text → Text
unfolding trim_start
trim s = reverse (trim_start (reverse (trim_start s)))

abbrev pub is_visible : ℕ → Bool
is_visible c = not (is_whitespace c)

trim_start_visible : (s : Text) → all is_visible s ≡ true → trim_start s ≡ s
unfolding trim_start
trim_start_visible [] h = refl
trim_start_visible (c ∷ s) h = ground arith

pub trim_visible : (s : Text) → all is_visible s ≡ true → trim s ≡ s
unfolding trim
trim_visible s h =
    rw (trim_start_visible s h, trim_start_visible (reverse s) (all-reverse is_visible s h))
      (reverse-reverse s)

-- `u8::is_ascii_digit`
abbrev pub is_digit : ℕ → Bool
is_digit c = leb b'0' c && leb c b'9'

abbrev pub all_digits : Text → Bool
all_digits = all is_digit

-- `str::contains(c)` and `str::matches(c).count()`
abbrev pub contains : ℕ → Text → Bool
contains c [] = false
contains c (x ∷ s) = x == c || contains c s

abbrev pub count : ℕ → Text → ℕ
count c [] = 0
count c (x ∷ s) = (if x == c then 1 else 0) + count c s

-- `str::split_once(c)`
unfoldable pub split_once : ℕ → Text → Option (Text × Text)
split_once c [] = none
split_once c (x ∷ s) =
    let rest = split_once c s in
    if x == c then some ([], s) else elim rest [ none ↦ none | some (a, b) ↦ some (x ∷ a, b) ]

-- `str::to_ascii_uppercase`
abbrev pub to_upper : ℕ → ℕ
to_upper c = if leb b'a' c && leb c b'z' then c - 32 else c

-- `str::split` at a character
unfoldable pub split : ℕ → Text → List Text
split c [] = [] ∷ []
split c (x ∷ s) = if x == c then [] ∷ split c s else push (split c s)
  where
    push : List Text → List Text
    push [] = (x ∷ []) ∷ []
    push (part ∷ parts) = (x ∷ part) ∷ parts

-- `str::strip_prefix`
abbrev pub strip_prefix : Text → Text → Option Text
strip_prefix [] s = some s
strip_prefix (c ∷ prefix) [] = none
strip_prefix (c ∷ prefix) (x ∷ s) = if x == c then strip_prefix prefix s else none
