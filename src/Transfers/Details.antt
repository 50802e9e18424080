-- ===== src/Transfers/Details.antt =====
-- src/api/transfers.rs, `get_transfer`: the snapshot of a transfer for one of its parties.
use high_performance_ledger.Prelude.{
  ◌≡◌, Bool, false, Option, none, some, ◌||◌, arith, if◌then◌else◌,
}
use high_performance_ledger.Prelude.Int.{ℤ}
use high_performance_ledger.Prelude.Text.{Text, codes, ◌=t◌}
use high_performance_ledger.Money.{format_minor_units}
use high_performance_ledger.ApiError.{AppError, validation, internal, not_found}
use high_performance_ledger.Database.{Uuid, Account, Transfer, kind_text, Database, find}
use high_performance_ledger.Database.Accounts.{find_account}
use high_performance_ledger.Database.Records.{has_transfer_id}
use high_performance_ledger.Tx.{Env, World, done, failed, Tx, ◌>>=◌, pure, or_fail, query}
use high_performance_ledger.Transfers.Price.{as_u8}

pub record TransferDetailsResponse : Type 0 where
  pub id : Uuid
  pub source_account_id : Uuid
  pub destination_account_id : Uuid
  pub source_currency : Text
  pub destination_currency : Text
  pub source_amount : Text
  pub destination_amount : Text
  pub fee_amount : Text
  pub total_source_debit : Text
  pub fee_bps : Option ℤ
  pub exchange_rate : Option Text
  pub exchange_rate_id : Option Uuid
  pub kind : Text
  pub reverses_transfer_id : Option Uuid
  pub created_at : Text

-- `source.owner_id = $2 OR destination.owner_id = $2`
abbrev pub is_party : Text → Account → Account → Bool
is_party client_id source destination =
    (source.owner_id =t client_id) || (destination.owner_id =t client_id)

abbrev pub details : Env → Uuid → Transfer → Account → Account → TransferDetailsResponse
details env id t source destination = record {
  id = id;
  source_account_id = t.source_account_id;
  destination_account_id = t.destination_account_id;
  source_currency = t.source_currency;
  destination_currency = t.destination_currency;
  source_amount = format_minor_units t.source_amount_minor (as_u8 source.currency_scale);
  destination_amount =
      format_minor_units t.destination_amount_minor (as_u8 destination.currency_scale);
  fee_amount = format_minor_units t.fee_amount_minor (as_u8 source.currency_scale);
  total_source_debit = format_minor_units t.total_source_debit_minor (as_u8 source.currency_scale);
  fee_bps = t.fee_bps;
  exchange_rate = t.exchange_rate;
  exchange_rate_id = t.exchange_rate_id;
  kind = kind_text t.kind;
  reverses_transfer_id = t.reverses_transfer_id;
  created_at = env.timestamp_text t.created_at;
}

-- The two joins of a transfer, and the test on the owners.
abbrev pub joined :
    Text → Transfer → Option Account → Option Account → Option (Transfer × Account × Account)
joined client_id t none destination = none
joined client_id t (some source) none = none
joined client_id t (some source) (some destination) =
    if is_party client_id source destination then some (t, source, destination) else none

abbrev pub select_transfer : Uuid → Text → Database → Option (Transfer × Account × Account)
select_transfer id client_id db = elim (find (has_transfer_id id) db.transfers) [
  | none ↦ none
  | some t ↦
      joined client_id t (find_account t.source_account_id db.accounts)
        (find_account t.destination_account_id db.accounts)
]

abbrev pub malformed_transfer_id : AppError
malformed_transfer_id =
    validation (codes "malformed_transfer_id") (codes "The transfer ID is invalid")

unfoldable pub get_transfer : Env → Text → Text → Tx AppError TransferDetailsResponse
get_transfer env client_id transfer_id = do
  id ← or_fail (env.parse_uuid transfer_id) malformed_transfer_id
  found ← query env internal (select_transfer id client_id)
  row ← or_fail found not_found
  pure (details env id row.0 row.1 row.2)

-- A transfer between two accounts is shown exactly to the owners of the accounts: anyone else is told
-- that there is none. Nothing is changed. The statement does not fail.
pub get_transfer_lem :
    (env : Env) (client_id transfer_id : Text) (id : Uuid) (t : Transfer)
    (source destination : Account) (w : World)
    → env.fails w.calls ≡ false
    → env.parse_uuid transfer_id ≡ some id
    → find (has_transfer_id id) w.db.transfers ≡ some t
    → find_account t.source_account_id w.db.accounts ≡ some source
    → find_account t.destination_account_id w.db.accounts ≡ some destination
    → ((get_transfer env client_id transfer_id w).0 ≡ (
        if (source.owner_id =t client_id) || (destination.owner_id =t client_id)
        then done (details env id t source destination)
        else failed not_found))
      × ((get_transfer env client_id transfer_id w).1.db ≡ w.db)
unfolding get_transfer
get_transfer_lem env client_id transfer_id id t source destination w works parses found fs fd =
    (ground arith, ground arith)
