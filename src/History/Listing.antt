-- ===== src/History/Listing.antt =====
-- src/api/history.rs, `get_account_history`: lists of entries, and the order of a history.
use high_performance_ledger.Prelude.{
  ℕ, zero, suc, ◌≤◌, ◌<◌, ◌≡◌, ◌⊎◌, refl, ap, Bool, true, false, Bool-cases, some, List, [], ◌∷◌,
  arith, inl, inr,
}
use high_performance_ledger.Prelude.Lists.{length, take}
use high_performance_ledger.Database.{AccountEntry, find, select, insert_by, order_by}
use high_performance_ledger.History.Page.{newer}

abbrev pub IsIn : {A : Type 0} → A → List A → Type 0
IsIn a [] = ⊥
IsIn a (x ∷ xs) = (a ≡ x) ⊎ IsIn a xs

pub find-IsIn :
    {A : Type 0} (p : A → Bool) (xs : List A) (a : A)
    → find p xs ≡ some a
    → IsIn a xs × (p a ≡ true)
find-IsIn p [] a h = ground arith
find-IsIn p (x ∷ xs) a h = elim (Bool-cases (p x)) [
  | inl found ↦ let same : x ≡ a = ground arith in (inl (cc), ground arith)
  | inr further ↦ let (there, holds) = find-IsIn p xs a (ground arith) in (inr there, holds)
]

pub select-IsIn :
    (p : AccountEntry → Bool) (es : List AccountEntry) (e : AccountEntry)
    → IsIn e (select p es)
    → IsIn e es × (p e ≡ true)
select-IsIn p [] e h = elim h [ ]
select-IsIn p (x ∷ xs) e h = elim (Bool-cases (p x)) [
  | inl chosen ↦ elim (rw chosen at h) [
    | inl same ↦ (inl same, rw same chosen)
    | inr there ↦ let (further, holds) = select-IsIn p xs e there in (inr further, holds)
  ]
  | inr left ↦ let (further, holds) = select-IsIn p xs e (rw left at h) in (inr further, holds)
]

pub IsIn-select :
    (p : AccountEntry → Bool) (es : List AccountEntry) (e : AccountEntry)
    → IsIn e es
    → p e ≡ true
    → IsIn e (select p es)
IsIn-select p [] e h holds = h
IsIn-select p (x ∷ xs) e (inl same) holds = rw (← same) (rw holds (inl refl))
IsIn-select p (x ∷ xs) e (inr there) holds = elim (Bool-cases (p x)) [
  | inl chosen ↦ rw chosen (inr (IsIn-select p xs e there holds))
  | inr left ↦ rw left (IsIn-select p xs e there holds)
]

insert_by-IsIn :
    (x : AccountEntry) (es : List AccountEntry) (e : AccountEntry)
    → IsIn e (insert_by newer x es)
    → (e ≡ x) ⊎ IsIn e es
insert_by-IsIn x [] e h = h
insert_by-IsIn x (y ∷ ys) e h = elim (Bool-cases (newer y x)) [
  | inl later ↦ elim (rw later at h) [
    | inl same ↦ inr (inl same)
    | inr there ↦ elim (insert_by-IsIn x ys e there) [
      | inl same ↦ inl same
      | inr further ↦ inr (inr further)
    ]
  ]
  | inr first ↦ rw first at h
]

IsIn-insert_by :
    (x : AccountEntry) (es : List AccountEntry) (e : AccountEntry)
    → (e ≡ x) ⊎ IsIn e es
    → IsIn e (insert_by newer x es)
IsIn-insert_by x [] e h = h
IsIn-insert_by x (y ∷ ys) e h = elim (Bool-cases (newer y x)) [
  | inl later ↦ rw later (elim h [
    | inl same ↦ inr (IsIn-insert_by x ys e (inl same))
    | inr (inl same) ↦ inl same
    | inr (inr there) ↦ inr (IsIn-insert_by x ys e (inr there))
  ])
  | inr first ↦ rw first h
]

pub order_by-IsIn :
    (es : List AccountEntry) (e : AccountEntry) → IsIn e (order_by newer es) → IsIn e es
order_by-IsIn [] e h = h
order_by-IsIn (x ∷ xs) e h = elim (insert_by-IsIn x (order_by newer xs) e h) [
  | inl same ↦ inl same
  | inr there ↦ inr (order_by-IsIn xs e there)
]

pub IsIn-order_by :
    (es : List AccountEntry) (e : AccountEntry) → IsIn e es → IsIn e (order_by newer es)
IsIn-order_by [] e h = h
IsIn-order_by (x ∷ xs) e (inl same) = IsIn-insert_by x (order_by newer xs) e (inl same)
IsIn-order_by (x ∷ xs) e (inr there) =
    IsIn-insert_by x (order_by newer xs) e (inr (IsIn-order_by xs e there))

pub take-IsIn : (n : ℕ) (es : List AccountEntry) (e : AccountEntry) → IsIn e (take n es) → IsIn e es
take-IsIn zero es e h = elim h [ ]
take-IsIn (suc n) [] e h = h
take-IsIn (suc n) (x ∷ xs) e (inl same) = inl same
take-IsIn (suc n) (x ∷ xs) e (inr there) = inr (take-IsIn n xs e there)

pub take-take : (n : ℕ) (es : List AccountEntry) → take n (take (suc n) es) ≡ take n es
take-take zero es = refl
take-take (suc n) [] = refl
take-take (suc n) (x ∷ xs) = ap (λ r. x ∷ r) (take-take n xs)

-- An entry is of a later time than another, or of the same time and its id is not smaller.
abbrev pub ComesFirst : AccountEntry → AccountEntry → Type 0
ComesFirst a b = (b.created_at < a.created_at) ⊎ ((b.created_at ≡ a.created_at) × (b.id ≤ a.id))

abbrev pub IsSorted : List AccountEntry → Type 0
IsSorted [] = Unit
IsSorted (e ∷ es) = ((d : AccountEntry) → IsIn d es → ComesFirst e d) × IsSorted es

newer-ComesFirst : (a b : AccountEntry) → newer a b ≡ true → ComesFirst a b
newer-ComesFirst a b h = ground arith

not_newer-ComesFirst : (a b : AccountEntry) → newer a b ≡ false → ComesFirst b a
not_newer-ComesFirst a b h = ground arith

ComesFirst-trans : (a b c : AccountEntry) → ComesFirst a b → ComesFirst b c → ComesFirst a c
ComesFirst-trans a b c h k = ground arith

insert_by-IsSorted :
    (x : AccountEntry) (es : List AccountEntry) → IsSorted es → IsSorted (insert_by newer x es)
insert_by-IsSorted x [] s = ((λ d h. elim h [ ]), tt)
insert_by-IsSorted x (y ∷ ys) (above, s) = elim (Bool-cases (newer y x)) [
  | inl later ↦ rw later (
    (λ d h. elim (insert_by-IsIn x ys d h) [
      | inl same ↦ rw same (newer-ComesFirst y x later)
      | inr there ↦ above d there
    ]),
    insert_by-IsSorted x ys s,
  )
  | inr first ↦
      let ahead = not_newer-ComesFirst y x first in
      rw first (
        (λ d h. elim h [
          | inl same ↦ rw same ahead
          | inr there ↦ ComesFirst-trans x y d ahead (above d there)
        ]),
        (above, s),
      )
]

pub order_by-IsSorted : (es : List AccountEntry) → IsSorted (order_by newer es)
order_by-IsSorted [] = tt
order_by-IsSorted (x ∷ xs) = insert_by-IsSorted x (order_by newer xs) (order_by-IsSorted xs)

-- An entry is among the first ones, or there are as many as fit, and they all come before it.
abbrev pub IsAmong : ℕ → List AccountEntry → AccountEntry → Type 0
IsAmong limit page e =
    IsIn e page ⊎ ((length page ≡ limit) × ((d : AccountEntry) → IsIn d page → ComesFirst d e))

pub take-IsAmong :
    (n : ℕ) (es : List AccountEntry) (e : AccountEntry)
    → IsSorted es
    → IsIn e es
    → IsAmong n (take n es) e
take-IsAmong zero es e s h = inr (refl, λ d there. elim there [ ])
take-IsAmong (suc n) [] e s h = elim h [ ]
take-IsAmong (suc n) (x ∷ xs) e s (inl same) = inl (inl same)
take-IsAmong (suc n) (x ∷ xs) e (above, s) (inr there) = elim (take-IsAmong n xs e s there) [
  | inl shown ↦ inl (inr shown)
  | inr (full, before) ↦ inr (
    ap suc full,
    λ d h. elim h [ inl same ↦ rw same (above e there) | inr further ↦ before d further ],
  )
]
