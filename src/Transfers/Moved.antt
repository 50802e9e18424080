-- ===== src/Transfers/Moved.antt =====
-- The tables that a transfer of any kind leaves, and that they are as the specification says.
use high_performance_ledger.Prelude.{◌≡◌, ◌≢◌, refl, sym, ◌∙◌, true, some, List, ◌∷◌}
use high_performance_ledger.Prelude.Int.{◌+ℤ◌, ◌-ℤ◌, IsI64}
use high_performance_ledger.Database.{Uuid, Account, Transfer, IdempotencyRecord, Database}
use high_performance_ledger.Database.Accounts.{
  find_account, set_balance, find-set_balance_self, find-set_balance_ne,
}
use high_performance_ledger.Database.Records.{transfer_allowed, transfer_allowed_lem}
use high_performance_ledger.Transfers.Spec.{debit_of, credit_of, Moves}

-- The balances are set, and the transfer, its two entries and the idempotency records are written.
abbrev pub moved :
    Transfer → Account → Account → Uuid → Uuid → List IdempotencyRecord → Database → Database
moved t source destination i j records db = record db {
  accounts =
      set_balance t.destination_account_id (destination.balance_minor +ℤ t.destination_amount_minor)
        (set_balance t.source_account_id (source.balance_minor -ℤ t.total_source_debit_minor)
          db.accounts);
  transfers = t ∷ db.transfers;
  account_entries = credit_of j t ∷ debit_of i t ∷ db.account_entries;
  idempotency_records = records;
}

pub moved-Moves :
    (t : Transfer) (source destination : Account) (i j : Uuid) (records : List IdempotencyRecord)
    (before : Database)
    → transfer_allowed t before.transfers ≡ true
    → find_account t.source_account_id before.accounts ≡ some source
    → find_account t.destination_account_id before.accounts ≡ some destination
    → IsI64 (source.balance_minor -ℤ t.total_source_debit_minor)
    → IsI64 (destination.balance_minor +ℤ t.destination_amount_minor)
    → Moves before (moved t source destination i j records before) t source destination
moved-Moves t source destination i j records before allowed fs fd debit_fits credit_fits = record {
  allowed = allowed;
  distinct = distinct;
  found_source = fs;
  found_destination = fd;
  debited =
      find-set_balance_ne t.destination_account_id t.source_account_id _ _ distinct
      ∙ find-set_balance_self t.source_account_id _ before.accounts source fs;
  credited = find-set_balance_self t.destination_account_id _ _ destination (
      find-set_balance_ne t.source_account_id t.destination_account_id _ before.accounts
        (λ e. distinct (sym e))
      ∙ fd);
  debit_fits = debit_fits;
  credit_fits = credit_fits;
  others = λ k h l.
      find-set_balance_ne t.destination_account_id k _ _ l
      ∙ find-set_balance_ne t.source_account_id k _ before.accounts h;
  rewritten = refl;
  recorded = refl;
  debit_id = i;
  credit_id = j;
  entered = refl;
}
  where
    distinct : t.source_account_id ≢ t.destination_account_id
    distinct = (transfer_allowed_lem t before.transfers allowed).0
