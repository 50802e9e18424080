-- ===== src/History/Order.antt =====
-- The order of a history: newest first, and strict, since the ids of entries are distinct.
use high_performance_ledger.Prelude.{
  ◌≡◌, refl, Bool, true, false, ◌&&◌, List, [], ◌∷◌, ◌++◌, arith, inl, inr, Bool-cases,
  if◌then◌else◌,
}
use high_performance_ledger.Prelude.Lists.{all}
use high_performance_ledger.Database.{AccountEntry, exists, select, insert_by, order_by}
use high_performance_ledger.Database.Records.{has_entry_id}
use high_performance_ledger.History.Page.{newer}

-- The primary key of `account_entries`.
abbrev pub UniqueEntries : List AccountEntry → Type 0
UniqueEntries [] = Unit
UniqueEntries (e ∷ es) = (exists (has_entry_id e.id) es ≡ false) × UniqueEntries es

-- Each entry is newer than all that follow it.
abbrev pub IsOrdered : List AccountEntry → Type 0
IsOrdered [] = Unit
IsOrdered (e ∷ es) = (all (newer e) es ≡ true) × IsOrdered es

newer_trans :
    (a b : AccountEntry) (es : List AccountEntry)
    → newer a b ≡ true
    → all (newer b) es ≡ true
    → all (newer a) es ≡ true
newer_trans a b [] h k = refl
newer_trans a b (e ∷ es) h k = ground (arith, newer_trans a b es h)

all-insert_by :
    (p : AccountEntry → Bool) (e : AccountEntry) (es : List AccountEntry)
    → all p (insert_by newer e es) ≡ (p e && all p es)
all-insert_by p e [] = refl
all-insert_by p e (x ∷ xs) = ground (arith, all-insert_by p e xs)

exists-insert_by :
    (p : AccountEntry → Bool) (e : AccountEntry) (es : List AccountEntry)
    → exists p es ≡ false
    → p e ≡ false
    → exists p (insert_by newer e es) ≡ false
exists-insert_by p e [] h k = ground arith
exists-insert_by p e (x ∷ xs) h k = ground (arith, exists-insert_by p e xs)

-- A new entry finds its place.
insert_by-IsOrdered :
    (e : AccountEntry) (es : List AccountEntry)
    → exists (has_entry_id e.id) es ≡ false
    → IsOrdered es
    → IsOrdered (insert_by newer e es)
insert_by-IsOrdered e [] h o = (refl, tt)
insert_by-IsOrdered e (x ∷ xs) h (above, o) = elim (Bool-cases (newer x e)) [
  | inl later ↦
      let rest = insert_by-IsOrdered e xs (ground arith) o in
      let place = all-insert_by (newer x) e xs in rw later (rw place (ground arith), rest)
  | inr first ↦
      let ahead : newer e x ≡ true = ground arith in
      let further = newer_trans e x xs ahead above in rw first (ground arith, (above, o))
]

exists-order_by :
    (p : AccountEntry → Bool) (es : List AccountEntry)
    → exists p es ≡ false
    → exists p (order_by newer es) ≡ false
exists-order_by p [] h = refl
exists-order_by p (e ∷ es) h =
    exists-insert_by p e (order_by newer es) (exists-order_by p es (ground arith)) (ground arith)

pub order_by-IsOrdered : (es : List AccountEntry) → UniqueEntries es → IsOrdered (order_by newer es)
order_by-IsOrdered [] u = tt
order_by-IsOrdered (e ∷ es) (fresh, u) =
    insert_by-IsOrdered e (order_by newer es) (exists-order_by (has_entry_id e.id) es fresh)
      (order_by-IsOrdered es u)

-- An entry that is newer than all others comes first.
insert_by_front :
    (e : AccountEntry) (es : List AccountEntry)
    → all (newer e) es ≡ true
    → insert_by newer e es ≡ e ∷ es
insert_by_front e [] h = refl
insert_by_front e (x ∷ xs) h = ground arith

all-select :
    (p q : AccountEntry → Bool) (es : List AccountEntry)
    → all p es ≡ true
    → all p (select q es) ≡ true
all-select p q [] h = refl
all-select p q (e ∷ es) h = ground (arith, all-select p q es)

-- To choose entries and to order them can be done in either order.
select-insert_by :
    (q : AccountEntry → Bool) (e : AccountEntry) (es : List AccountEntry)
    → exists (has_entry_id e.id) es ≡ false
    → IsOrdered es
    → select q (insert_by newer e es)
      ≡ (if q e then insert_by newer e (select q es) else select q es)
select-insert_by q e [] h o = refl
select-insert_by q e (x ∷ xs) h (above, o) = elim (Bool-cases (newer x e)) [
  | inl later ↦ let rest = select-insert_by q e xs (ground arith) o in ground arith
  | inr first ↦
      let ahead : newer e x ≡ true = ground arith in
      let further = all-select (newer e) q xs (newer_trans e x xs ahead above) in
      let front = insert_by_front e (select q xs) further in ground arith
]

exists-select :
    (p q : AccountEntry → Bool) (es : List AccountEntry)
    → exists p es ≡ false
    → exists p (select q es) ≡ false
exists-select p q [] h = refl
exists-select p q (e ∷ es) h = ground (arith, exists-select p q es)

pub select-UniqueEntries :
    (q : AccountEntry → Bool) (es : List AccountEntry)
    → UniqueEntries es
    → UniqueEntries (select q es)
select-UniqueEntries q [] u = tt
select-UniqueEntries q (e ∷ es) (fresh, u) = elim (Bool-cases (q e)) [
  | inl chosen ↦
      rw chosen (exists-select (has_entry_id e.id) q es fresh, select-UniqueEntries q es u)
  | inr left ↦ rw left (select-UniqueEntries q es u)
]

pub select-order_by :
    (q : AccountEntry → Bool) (es : List AccountEntry)
    → UniqueEntries es
    → select q (order_by newer es) ≡ order_by newer (select q es)
select-order_by q [] u = refl
select-order_by q (e ∷ es) (fresh, u) =
    let rest = select-order_by q es u in
    let place =
      select-insert_by q e (order_by newer es) (exists-order_by (has_entry_id e.id) es fresh)
        (order_by-IsOrdered es u) in
    ground arith

-- Two conditions choose as one after the other does.
pub select-select :
    (p q : AccountEntry → Bool) (es : List AccountEntry)
    → select (λ e. p e && q e) es ≡ select q (select p es)
select-select p q [] = refl
select-select p q (e ∷ es) = ground (arith, select-select p q es)

pub select-all :
    (q : AccountEntry → Bool) (es : List AccountEntry) → all q es ≡ true → select q es ≡ es
select-all q [] h = refl
select-all q (e ∷ es) h = ground (arith, select-all q es)

all_at :
    (p : AccountEntry → Bool) (before after : List AccountEntry) (e : AccountEntry)
    → all p (before ++ e ∷ after) ≡ true
    → p e ≡ true
all_at p [] after e h = ground arith
all_at p (x ∷ before) after e h = ground (arith, all_at p before after e)

-- What is older than an entry of an ordered history is what follows it.
pub select-newer :
    (before after : List AccountEntry) (e : AccountEntry)
    → IsOrdered (before ++ e ∷ after)
    → select (newer e) (before ++ e ∷ after) ≡ after
select-newer [] after e (above, o) = let rest = select-all (newer e) after above in ground arith
select-newer (x ∷ before) after e (above, o) =
    let rest = select-newer before after e o in
    let first = all_at (newer x) before after e above in ground arith
