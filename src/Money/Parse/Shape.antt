-- ===== src/Money/Parse/Shape.antt =====
-- The texts that have the shape of an amount, as the grammar that `parse_minor_units` accepts.
use high_performance_ledger.Prelude.{
  ◌≡◌, refl, inl, inr, Bool, true, false, none, some, [], ◌∷◌, ◌++◌, arith, Option-cases,
}
use high_performance_ledger.Prelude.Lists.{is_empty, all, all-append}
use high_performance_ledger.Prelude.Text.{
  Text, ◌=t◌, =t_refl, trim, trim_visible, is_visible, all_digits, contains, count, split_once,
}
use high_performance_ledger.Money.{strip_sign, split_point, is_malformed}

-- A sign, digits, and a point with digits behind it where there are any.
abbrev pub unsigned : Text → Text → Text
unsigned whole [] = whole
unsigned whole (c ∷ s) = whole ++ b'.' ∷ c ∷ s

abbrev pub spelled : Bool → Text → Text → Text
spelled true whole fractional = b'-' ∷ unsigned whole fractional
spelled false whole fractional = unsigned whole fractional

pub record IsAmountText (whole fractional : Text) : Type 0 where
  pub some_whole : is_empty whole ≡ false
  pub whole_digits : all_digits whole ≡ true
  pub fractional_digits : all_digits fractional ≡ true

contains_digits : (s : Text) → all_digits s ≡ true → contains b'.' s ≡ false
contains_digits [] h = refl
contains_digits (c ∷ s) h = ground (arith, contains_digits s)

count_digits : (s : Text) → all_digits s ≡ true → count b'.' s ≡ 0
count_digits [] h = refl
count_digits (c ∷ s) h = ground (arith, count_digits s)

split_digits : (s : Text) → all_digits s ≡ true → split_once b'.' s ≡ none
unfolding split_once
split_digits [] h = refl
split_digits (c ∷ s) h = ground (arith, split_digits s)

pub split_at_point :
    (w f : Text) → all_digits w ≡ true → split_once b'.' (w ++ b'.' ∷ f) ≡ some (w, f)
unfolding split_once
split_at_point [] f h = refl
split_at_point (c ∷ w) f h = ground (arith, split_at_point w f)

pub count_at_point :
    (w f : Text) → all_digits w ≡ true → all_digits f ≡ true → count b'.' (w ++ b'.' ∷ f) ≡ 1
count_at_point [] f h k = ground (arith, count_digits f)
count_at_point (c ∷ w) f h k = ground (arith, count_at_point w f)

pub split_inverse : (s a b : Text) → split_once b'.' s ≡ some (a, b) → s ≡ a ++ b'.' ∷ b
unfolding split_once
split_inverse [] a b h = cc
split_inverse (c ∷ s) a b h = elim (Option-cases (split_once b'.' s)) [
  | inl none_left ↦ ground arith
  | inr (parts, e) ↦ ground (arith, split_inverse s parts.0 parts.1)
]

contains_point : (a b : Text) → contains b'.' (a ++ b'.' ∷ b) ≡ true
contains_point [] b = refl
contains_point (c ∷ a) b = ground (arith, contains_point a b)

-- What `parse_minor_units` takes apart is what was spelled.
pub split_spelled :
    (w f : Text)
    → IsAmountText w f
    → (split_point (unsigned w f) ≡ (w, f)) × (is_malformed (unsigned w f) w f ≡ false)
split_spelled w [] h = (
  rw (split_digits w h.whole_digits, split_point),
  ground (arith, contains_digits w, count_digits w),
)
split_spelled w (c ∷ f) h = (
  rw (split_at_point w (c ∷ f) h.whole_digits, split_point),
  ground (arith, count_at_point w (c ∷ f)),
)

visible_digits : (s : Text) → all_digits s ≡ true → all is_visible s ≡ true
visible_digits [] h = refl
visible_digits (c ∷ s) h = ground (arith, visible_digits s)

-- What `parse_minor_units` takes apart without a complaint was spelled so.
pub unsigned_shape :
    (digits : Text)
    → let (w, f) = split_point digits in
      is_malformed digits w f ≡ false → IsAmountText w f × (digits ≡ unsigned w f)
unsigned_shape digits = elim (Option-cases (split_once b'.' digits)) [
  | inl e ↦ rw (e, split_point) (λ h. (ground arith, refl))
  | inr ((w, f), e) ↦ rw (e, split_point) (λ h. pointed w f (split_inverse digits w f e) h)
]
  where
    pointed :
        (w f : Text)
        → digits ≡ w ++ b'.' ∷ f
        → is_malformed digits w f ≡ false
        → IsAmountText w f × (digits ≡ unsigned w f)
    pointed w [] e h = ground (arith, contains_point w [])
    pointed w (c ∷ f) e h = (ground arith, e)

pub strip_unsigned :
    (w f : Text) → IsAmountText w f → strip_sign (unsigned w f) ≡ (false, unsigned w f)
strip_unsigned [] f h = ground arith
strip_unsigned (c ∷ w) [] h = ground arith
strip_unsigned (c ∷ w) (d ∷ f) h = ground arith

pub strip_spelled :
    (is_negative : Bool) (w f : Text)
    → IsAmountText w f
    → strip_sign (spelled is_negative w f) ≡ (is_negative, unsigned w f)
strip_spelled true w f h = refl
strip_spelled false w f h = strip_unsigned w f h

unsigned_visible : (w f : Text) → IsAmountText w f → all is_visible (unsigned w f) ≡ true
unsigned_visible w [] h = visible_digits w h.whole_digits
unsigned_visible w (c ∷ f) h = ground (
  arith,
  all-append is_visible w (b'.' ∷ c ∷ f),
  visible_digits w h.whole_digits,
  visible_digits (c ∷ f) h.fractional_digits,
)

spelled_visible :
    (is_negative : Bool) (w f : Text)
    → IsAmountText w f
    → all is_visible (spelled is_negative w f) ≡ true
spelled_visible true w f h = ground (arith, unsigned_visible w f h)
spelled_visible false w f h = unsigned_visible w f h

pub trim-spelled :
    (is_negative : Bool) (w f : Text)
    → IsAmountText w f
    → (trim (spelled is_negative w f) =t spelled is_negative w f) ≡ true
trim-spelled is_negative w f h =
    rw (trim_visible _ (spelled_visible is_negative w f h)) (=t_refl (spelled is_negative w f))

is_empty-unsigned : (w f : Text) → IsAmountText w f → is_empty (unsigned w f) ≡ false
is_empty-unsigned (c ∷ w) [] h = refl
is_empty-unsigned (c ∷ w) (d ∷ f) h = refl
is_empty-unsigned [] f h = ground arith

pub is_empty-spelled :
    (is_negative : Bool) (w f : Text)
    → IsAmountText w f
    → is_empty (spelled is_negative w f) ≡ false
is_empty-spelled true w f h = refl
is_empty-spelled false w f h = is_empty-unsigned w f h
