-- ===== src/Ledger.antt =====
-- The tables as a ledger: what the entries of an account add up to, what the accounts hold together,
-- and the invariants that every transfer keeps.
pub mod Entries
pub mod Totals
pub mod Invariant
pub mod Conservation
pub mod Opening
mod Tests
use high_performance_ledger.Prelude.{
  ℕ, Bool, true, false, Option, none, some, List, [], ◌∷◌, ◌==◌, if◌then◌else◌,
}
use high_performance_ledger.Prelude.Int.{ℤ, pos, ◌+ℤ◌, ◌-ℤ◌}
use high_performance_ledger.Prelude.Text.{Text, ◌=t◌}
use high_performance_ledger.Database.{
  Uuid, Account, AccountEntry, Direction, debit, credit, Database,
}
use high_performance_ledger.Database.Accounts.{find_account}

-- What an entry adds to the balance of an account.
abbrev pub effect_on : Uuid → AccountEntry → ℤ → ℤ
effect_on id e sum = if e.account_id == id then posted e.direction else sum
  where
    posted : Direction → ℤ
    posted debit = sum -ℤ e.amount_minor
    posted credit = sum +ℤ e.amount_minor

unfoldable pub entries_total : Uuid → List AccountEntry → ℤ
entries_total id [] = pos 0
entries_total id (e ∷ es) = effect_on id e (entries_total id es)

-- The balance of an account less what its entries add up to: what it was opened with.
abbrev pub opened_with : Uuid → Database → Option ℤ
opened_with id db = less (find_account id db.accounts) (entries_total id db.account_entries)
  where
    less : Option Account → ℤ → Option ℤ
    less none entries = none
    less (some a) entries = some (a.balance_minor -ℤ entries)

-- What all accounts of a currency hold together.
unfoldable pub total : Text → List Account → ℤ
total currency [] = pos 0
total currency (a ∷ accounts) =
    if a.currency =t currency
    then total currency accounts +ℤ a.balance_minor
    else total currency accounts
