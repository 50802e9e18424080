-- ===== src/History/Walk.antt =====
-- To follow the cursors from page to page lists the whole history.
use high_performance_ledger.Prelude.{
  ℕ, zero, suc, ◌≤◌, ◌<◌, ◌≡◌, refl, sym, ◌∙◌, ap, Bool, true, false, ◌&&◌, ltb, Bool-cases, Option,
  none, some, List, [], ◌∷◌, ◌++◌, append_assoc, append-nil, arith, inl, inr,
}
use high_performance_ledger.Prelude.Lists.{length, length-append, take}
use high_performance_ledger.Database.{Uuid, AccountEntry, Database, select, order_by}
use high_performance_ledger.History.Query.{Query}
use high_performance_ledger.History.Page.{is_listed, newer, entry_rows, last, cursor_at, page_of}
use high_performance_ledger.History.Order.{
  UniqueEntries, IsOrdered, order_by-IsOrdered, select-order_by, select-select, select-newer,
  select-UniqueEntries,
}

-- All entries of an account, or those with a counterparty, newest first.
abbrev pub history : Uuid → Option Uuid → Database → List AccountEntry
history account_id counterparty db =
    order_by newer (select (is_listed account_id counterparty) db.account_entries)

-- The query for the first page, and for the page after an entry.
abbrev pub first_page : Option Uuid → ℕ → Query
first_page counterparty limit = record {
  counterparty_account_id = counterparty;
  limit = limit;
  cursor = none;
}

abbrev pub page_after : Uuid → Query → AccountEntry → Query
page_after account_id q e = record q { cursor = some (cursor_at account_id q e) }

-- What a client reads that follows the cursors over `fuel` pages at most.
unfoldable pub walk : ℕ → Uuid → Query → Database → List AccountEntry
walk zero account_id q db = []
walk (suc fuel) account_id q db =
    let (items, next) = page_of q.limit (entry_rows account_id q db) in
    items ++ elim next [
      | none ↦ []
      | some (some e) ↦ walk fuel account_id (page_after account_id q e) db
      | some none ↦ []
    ]

select-true :
    (p : AccountEntry → Bool) (es : List AccountEntry) → select (λ e. p e && true) es ≡ select p es
select-true p [] = refl
select-true p (e ∷ es) = ground (arith, select-true p es)

entry_rows_first :
    (account_id : Uuid) (q : Query) (db : Database)
    → q.cursor ≡ none
    → entry_rows account_id q db
      ≡ take (suc q.limit) (history account_id q.counterparty_account_id db)
entry_rows_first account_id q db h =
    rw (h, select-true (is_listed account_id q.counterparty_account_id) db.account_entries)

entry_rows_after :
    (account_id : Uuid) (q : Query) (db : Database) (before after : List AccountEntry)
    (e : AccountEntry)
    → UniqueEntries db.account_entries
    → history account_id q.counterparty_account_id db ≡ before ++ e ∷ after
    → entry_rows account_id (page_after account_id q e) db ≡ take (suc q.limit) after
entry_rows_after account_id q db before after e u h =
    let listed = is_listed account_id q.counterparty_account_id in
    let chosen = select listed db.account_entries in
    let unique = select-UniqueEntries listed db.account_entries u in
    let ordered : IsOrdered (before ++ e ∷ after) = rw (← h) (order_by-IsOrdered chosen unique) in
    ap (take (suc q.limit)) (
      ap (order_by newer) (select-select listed (newer e) db.account_entries)
      ∙ sym (select-order_by (newer e) chosen unique)
      ∙ ap (select (newer e)) h
      ∙ select-newer before after e ordered)

take_all : (n : ℕ) (es : List AccountEntry) → length es ≤ n → take n es ≡ es
take_all zero [] h = refl
take_all zero (e ∷ es) h = absurd (omega (arith, h))
take_all (suc n) [] h = refl
take_all (suc n) (e ∷ es) h = ap (λ l. e ∷ l) (take_all n es (omega (arith, h)))

pub take-take : (n : ℕ) (es : List AccountEntry) → take n (take (suc n) es) ≡ take n es
take-take zero es = refl
take-take (suc n) [] = refl
take-take (suc n) (e ∷ es) = ap (λ l. e ∷ l) (take-take n es)

pub length-take : (n : ℕ) (es : List AccountEntry) → n ≤ length es → length (take n es) ≡ n
length-take zero es h = refl
length-take (suc n) [] h = absurd (omega (arith, h))
length-take (suc n) (e ∷ es) h = ap suc (length-take n es (omega (arith, h)))

-- The last page.
pub page_of_last :
    (limit : ℕ) (es : List AccountEntry)
    → length es ≤ limit
    → page_of limit (take (suc limit) es) ≡ (es, none)
unfolding page_of
page_of_last limit es h =
    let whole = take_all (suc limit) es (omega arith) in
    let short = take_all limit es h in
    let stops : ltb limit (length es) ≡ false = ground arith in rw (whole, short, stops)

-- Where the first `suc n` entries end.
cut :
    (n : ℕ) (es : List AccountEntry)
    → n < length es
    → (before : List AccountEntry) × (e : AccountEntry) × (after : List AccountEntry) × (es
        ≡ before ++ e ∷ after)
      × (take (suc n) es ≡ before ++ e ∷ [])
cut n [] h = absurd (omega (arith, h))
cut zero (e ∷ es) h = ([], e, es, refl, refl)
cut (suc n) (x ∷ es) h =
    let (before, e, after, whole, front) = cut n es (omega (arith, h)) in
    (x ∷ before, e, after, ap (λ l. x ∷ l) whole, ap (λ l. x ∷ l) front)

last-snoc : (es : List AccountEntry) (e : AccountEntry) → last (es ++ e ∷ []) ≡ some e
last-snoc [] e = refl
last-snoc (x ∷ []) e = refl
last-snoc (x ∷ y ∷ es) e = last-snoc (y ∷ es) e

-- A page with a successor.
pub page_of_more :
    (n : ℕ) (es : List AccountEntry)
    → suc n < length es
    → (before : List AccountEntry) × (e : AccountEntry) × (after : List AccountEntry) × (es
        ≡ before ++ e ∷ after)
      × (page_of (suc n) (take (suc (suc n)) es) ≡ (before ++ e ∷ [], some (some e)))
unfolding page_of
page_of_more n es h =
    let (before, e, after, whole, front) = cut n es (omega arith) in
    let page = take-take (suc n) es ∙ front in
    let rows = length-take (suc (suc n)) es (omega arith) in
    let more : ltb (suc n) (suc (suc n)) ≡ true = ground arith in
    (before, e, after, whole, rw (page, rows, more, last-snoc before e))

snoc_cons :
    (xs : List AccountEntry) (e : AccountEntry) (ys : List AccountEntry)
    → xs ++ e ∷ ys ≡ (xs ++ e ∷ []) ++ ys
snoc_cons xs e ys = sym (append_assoc xs (e ∷ []) ys)

-- What is left of a history is read in as many pages as it has entries, or fewer.
walk_rest :
    (fuel n : ℕ) (account_id : Uuid) (q : Query) (db : Database) (before rest : List AccountEntry)
    → UniqueEntries db.account_entries
    → q.limit ≡ suc n
    → history account_id q.counterparty_account_id db ≡ before ++ rest
    → entry_rows account_id q db ≡ take (suc q.limit) rest
    → length rest ≤ fuel
    → walk fuel account_id q db ≡ rest
unfolding walk
walk_rest zero n account_id q db before [] u limit h rows enough = refl
walk_rest zero n account_id q db before (e ∷ rest) u limit h rows enough =
    absurd (omega (arith, enough))
walk_rest (suc fuel) n account_id q db before rest u limit h rows enough =
    elim (Bool-cases (ltb (suc n) (length rest))) [
      | inr short ↦
          let page = page_of_last (suc n) rest (ground arith) in
          rw (rows, limit, page) (append-nil rest)
      | inl long ↦
          let (front, e, after, whole, page) = page_of_more n rest (ground arith) in
          let place : before ++ rest ≡ (before ++ front) ++ e ∷ after =
            ap (λ l. before ++ l) whole ∙ sym (append_assoc before front (e ∷ after)) in
          let further : before ++ rest ≡ (before ++ front ++ e ∷ []) ++ after =
            place ∙ snoc_cons (before ++ front) e after in
          let measured = ap length whole ∙ length-append front (e ∷ after) in
          let next =
            walk_rest fuel n account_id (page_after account_id q e) db (before ++ front ++ e ∷ [])
              after u limit (h ∙ further)
              (entry_rows_after account_id q db (before ++ front) after e u (h ∙ place))
              (omega (arith, measured, enough)) in
          rw (rows, limit, page, next) (sym (snoc_cons front e after) ∙ sym whole)
    ]

-- A client that starts at the first page and follows the cursors, with any limit that is at least 1,
-- reads every entry of the account, or every one with the chosen counterparty, exactly once, newest
-- first, in as many pages as there are entries, or fewer. The ids of the entries are distinct.
pub walk_complete :
    (account_id : Uuid) (counterparty : Option Uuid) (limit : ℕ) (db : Database)
    → 1 ≤ limit
    → UniqueEntries db.account_entries
    → walk
        (length (history account_id counterparty db))
        account_id
        (first_page counterparty limit)
        db
      ≡ history account_id counterparty db
walk_complete account_id counterparty zero db h u = absurd (omega (arith, h))
walk_complete account_id counterparty (suc n) db h u =
    walk_rest (length (history account_id counterparty db)) n account_id
      (first_page counterparty (suc n)) db [] (history account_id counterparty db) u refl refl
      (entry_rows_first account_id (first_page counterparty (suc n)) db refl) (omega arith)
