-- ===== src/History/Shown.antt =====
-- Which entries a page of a history has.
use high_performance_ledger.History.Listing.{
  IsIn, IsAmong, select-IsIn, IsIn-select, order_by-IsIn, IsIn-order_by, take-IsIn, take-take,
  order_by-IsSorted, take-IsAmong,
}
use high_performance_ledger.Prelude.{
  ◌&&◌, ◌<◌, ◌≡◌, ◌⊎◌, refl, Bool, true, Option, none, some, arith,
}
use high_performance_ledger.Database.{Uuid, AccountEntry, Database, select, order_by}
use high_performance_ledger.History.Cursor.{Cursor}
use high_performance_ledger.History.Query.{Query}
use high_performance_ledger.History.Page.{is_listed, is_after, newer, entry_rows, page_of}

-- What a query asks for: the entries of the account, with the counterparty if it names one, and behind
-- the place of the cursor if it has one.
pub record IsAskedFor (account_id : Uuid) (q : Query) (e : AccountEntry) : Type 0 where
  pub account : e.account_id ≡ account_id
  pub counterparty : (c : Uuid) → q.counterparty_account_id ≡ some c → e.counterparty_account_id ≡ c
  pub place :
      (k : Cursor)
      → q.cursor ≡ some k
      → (e.created_at < k.created_at) ⊎ ((e.created_at ≡ k.created_at) × (e.id < k.entry_id))

abbrev is_chosen : Uuid → Query → AccountEntry → Bool
is_chosen account_id q e = is_listed account_id q.counterparty_account_id e && is_after q.cursor e

is_listed_lem :
    (account_id : Uuid) (counterparty : Option Uuid) (e : AccountEntry)
    → is_listed account_id counterparty e ≡ true
    → (e.account_id ≡ account_id)
      × ((c : Uuid) → counterparty ≡ some c → e.counterparty_account_id ≡ c)
is_listed_lem account_id none e h = (ground arith, λ c k. ground arith)
is_listed_lem account_id (some x) e h = (ground arith, λ c k. ground arith)

is_after_lem :
    (cursor : Option Cursor) (e : AccountEntry)
    → is_after cursor e ≡ true
    → (k : Cursor) → cursor ≡ some k
    → (e.created_at < k.created_at) ⊎ ((e.created_at ≡ k.created_at) × (e.id < k.entry_id))
is_after_lem none e h k same = ground arith
is_after_lem (some x) e h k same = let is : x ≡ k = ground arith in rw (← is) (ground arith)

chosen-IsAskedFor :
    (account_id : Uuid) (q : Query) (e : AccountEntry)
    → is_chosen account_id q e ≡ true
    → IsAskedFor account_id q e
chosen-IsAskedFor account_id q e h =
    let listed : is_listed account_id q.counterparty_account_id e ≡ true = ground arith in
    let after : is_after q.cursor e ≡ true = ground arith in
    let (account, counterparty) = is_listed_lem account_id q.counterparty_account_id e listed in
    record { account = account; counterparty = counterparty; place = is_after_lem q.cursor e after }

IsAskedFor-chosen :
    (account_id : Uuid) (q : Query) (e : AccountEntry)
    → IsAskedFor account_id q e
    → is_chosen account_id q e ≡ true
IsAskedFor-chosen account_id q e a = by_parts q.counterparty_account_id q.cursor refl refl
  where
    by_parts :
        (counterparty : Option Uuid) (cursor : Option Cursor)
        → q.counterparty_account_id ≡ counterparty
        → q.cursor ≡ cursor
        → is_chosen account_id q e ≡ true
    by_parts none none c k = ground (arith, a.account)
    by_parts (some x) none c k = ground (arith, a.account, a.counterparty x c)
    by_parts none (some y) c k = ground (arith, a.account, a.place y k)
    by_parts (some x) (some y) c k = ground (arith, a.account, a.counterparty x c, a.place y k)

-- The page has entries that are asked for, and no others come before those that it leaves out.
pub page_lem :
    (account_id : Uuid) (q : Query) (db : Database) (e : AccountEntry)
    → (IsIn e (page_of q.limit (entry_rows account_id q db)).0
        → IsIn e db.account_entries × IsAskedFor account_id q e)
      × (IsIn e db.account_entries
          → IsAskedFor account_id q e
          → IsAmong q.limit (page_of q.limit (entry_rows account_id q db)).0 e)
unfolding page_of
page_lem account_id q db e =
    let chosen = select (is_chosen account_id q) db.account_entries in
    let whole = take-take q.limit (order_by newer chosen) in
    (
      (λ h.
          let (there, holds) = select-IsIn (is_chosen account_id q) db.account_entries e (
            order_by-IsIn chosen e (take-IsIn q.limit (order_by newer chosen) e (rw whole at h))) in
          (there, chosen-IsAskedFor account_id q e holds)),
      λ there asked. rw whole (
          take-IsAmong q.limit (order_by newer chosen) e (order_by-IsSorted chosen) (
            IsIn-order_by chosen e (
              IsIn-select (is_chosen account_id q) db.account_entries e there
                (IsAskedFor-chosen account_id q e asked)))),
    )
