-- ===== src/Database/Records.antt =====
-- The insertions of transfers and entries, with the constraints that a row has to meet.
use high_performance_ledger.Prelude.{
  ◌≡◌, ◌≢◌, Bool, true, false, ◌&&◌, not, Option, none, some, List, ◌∷◌, arith, ◌==◌, if◌then◌else◌,
}
use high_performance_ledger.Prelude.Int.{ℤ, pos, ◌≤ℤ◌, leb_ℤ, ltb_ℤ}
use high_performance_ledger.Database.{Uuid, Transfer, AccountEntry, Database, exists}

abbrev pub opt_eq : Option Uuid → Uuid → Bool
opt_eq none id = false
opt_eq (some a) id = a == id

abbrev pub reverses : Uuid → Transfer → Bool
reverses id t = opt_eq t.reverses_transfer_id id

abbrev pub has_transfer_id : Uuid → Transfer → Bool
has_transfer_id id t = t.id == id

-- The unique index `transfers_single_reversal`.
abbrev pub reverses_same : Option Uuid → List Transfer → Bool
reverses_same none ts = false
reverses_same (some id) ts = exists (reverses id) ts

-- The primary key, the unique index and the CHECKs on amounts and ids of `transfers`.
abbrev pub transfer_allowed : Transfer → List Transfer → Bool
transfer_allowed t ts =
    not (exists (has_transfer_id t.id) ts)
    && (not (reverses_same t.reverses_transfer_id ts)
        && (ltb_ℤ (pos 0) t.source_amount_minor
            && (ltb_ℤ (pos 0) t.destination_amount_minor
                && (leb_ℤ (pos 0) t.fee_amount_minor
                    && (ltb_ℤ (pos 0) t.total_source_debit_minor
                        && (not (t.source_account_id == t.destination_account_id)
                            && not (opt_eq t.reverses_transfer_id t.id)))))))

unfoldable pub insert_transfer : Transfer → Database → Option Database
insert_transfer t db =
    if transfer_allowed t db.transfers
    then some (record db { transfers = t ∷ db.transfers })
    else none

abbrev pub has_entry_id : Uuid → AccountEntry → Bool
has_entry_id id e = e.id == id

abbrev pub opt_all : (ℤ → Bool) → Option ℤ → Bool
opt_all p none = true
opt_all p (some a) = p a

abbrev pub is_positive : ℤ → Bool
is_positive = ltb_ℤ (pos 0)

abbrev pub is_nonnegative : ℤ → Bool
is_nonnegative = leb_ℤ (pos 0)

-- The primary key and the CHECKs on amounts and ids of `account_entries`.
abbrev pub entry_allowed : AccountEntry → List AccountEntry → Bool
entry_allowed e es =
    not (exists (has_entry_id e.id) es)
    && (is_positive e.amount_minor
        && (opt_all is_positive e.principal_amount_minor
            && (opt_all is_nonnegative e.fee_amount_minor
                && not (e.account_id == e.counterparty_account_id))))

unfoldable pub insert_entry : AccountEntry → Database → Option Database
insert_entry e db =
    if entry_allowed e db.account_entries
    then some (record db { account_entries = e ∷ db.account_entries })
    else none

-- A row that is let in has two accounts and positive amounts.
pub transfer_allowed_lem :
    (t : Transfer) (ts : List Transfer)
    → transfer_allowed t ts ≡ true
    → (t.source_account_id ≢ t.destination_account_id)
      × (pos 1 ≤ℤ t.source_amount_minor)
      × (pos 1 ≤ℤ t.destination_amount_minor)
      × (pos 0 ≤ℤ t.fee_amount_minor)
transfer_allowed_lem t ts h = ground arith
