-- ===== src/Reversals.antt =====
-- src/api/reversals.rs: `reverse_transfer`, which moves the amounts of a transfer back, once.
pub mod Spec
pub mod Stages
pub mod Effect
pub mod Sound
pub mod Replay
pub mod Restores
pub mod Safe
pub mod Sample
mod Tests
use high_performance_ledger.Prelude.{
  ℕ, Bool, true, false, ◌||◌, not, Option, none, some, List, [], ◌∷◌, if◌then◌else◌,
}
use high_performance_ledger.Prelude.Int.{ℤ, checked_add, checked_sub}
use high_performance_ledger.Prelude.Text.{Text, codes, ◌=t◌}
use high_performance_ledger.Prelude.Result.{
  Result, ok, err, ◌>>=◌ as bind, ◌>>◌ as then', return_if, ok_or,
}
use high_performance_ledger.Money.{format_minor_units}
use high_performance_ledger.Observability.{FinancialOperation, operation_outcome}
use high_performance_ledger.ApiError.{
  AppError, business, internal, not_found, account_unavailable, financial_metric_outcome,
}
use high_performance_ledger.Database.{
  Uuid, Account, Transfer, Kind, reversal, kind_text, AccountEntry, debit, credit, Body,
  reversal_created, Database, find, exists,
}
use high_performance_ledger.Database.Accounts.{find_account}
use high_performance_ledger.Database.Records.{
  has_transfer_id, reverses, insert_transfer, insert_entry,
}
use high_performance_ledger.Idempotency.{
  Scope, reversal_operation, from_headers, reversal_fingerprint, store_success,
}
use high_performance_ledger.Tx.{
  Env, World, Outcome, done, failed, Tx, ◌>>=◌, ◌>>◌, pure, lift, or_fail, fail_if, query, execute,
  call_out, draw_uuid, tick,
}
use high_performance_ledger.Gate.{Response, gate, transaction}
use high_performance_ledger.Transfers.Price.{Pair, as_u8, is_active, lock_pair}
use high_performance_ledger.Transfers.Record.{update_balance, insert_entry_row}
use high_performance_ledger.Transfers.Details.{malformed_transfer_id}

abbrev pub reversal_of_reversal : AppError
reversal_of_reversal =
    business (codes "reversal_of_reversal") (codes "A reversal cannot be reversed")

abbrev pub transfer_already_reversed : AppError
transfer_already_reversed =
    business (codes "transfer_already_reversed") (codes "The transfer has already been reversed")

abbrev pub reversal_out_of_range : AppError
reversal_out_of_range =
    business (codes "arithmetic_overflow") (codes "The reversal amount is out of range")

-- `SELECT … FROM transfers WHERE id = $1`
abbrev pub find_transfer : Uuid → Database → Option Transfer
find_transfer id db = find (has_transfer_id id) db.transfers

-- `SELECT owner_id FROM accounts WHERE id = $1`
abbrev pub find_owner : Uuid → Database → Option Text
find_owner id db = elim (find_account id db.accounts) [ none ↦ none | some a ↦ some a.owner_id ]

-- `authorized.as_deref() != Some(&client_id)`
abbrev pub is_authorized : Option Text → Text → Bool
is_authorized none client_id = false
is_authorized (some owner) client_id = owner =t client_id

-- What the original leaves to be moved back: by whom, which transfer, and under which key.
pub record Undo : Type 0 where
  pub client_id : Text
  pub scope : Scope
  pub original_id : Uuid

-- The original is no reversal, its receiver asks, and it was not reversed before.
unfoldable pub check_original : Env → Undo → Transfer → Tx AppError (Unit {0})
check_original env u original = do
  fail_if (kind_text original.kind =t codes "reversal") reversal_of_reversal
  authorized ← query env internal (find_owner original.destination_account_id)
  fail_if (not (is_authorized authorized u.client_id)) not_found
  already_reversed ← query env internal (λ db. exists (reverses u.original_id) db.transfers)
  fail_if already_reversed transfer_already_reversed

-- Both accounts are active, and their currencies are those of the original.
unfoldable pub check_accounts : Transfer → Pair → Result AppError (Unit {0})
check_accounts original accounts =
    then' (return_if (not (is_active source) || not (is_active destination)) account_unavailable) (
      return_if
        (not (source.currency =t original.destination_currency)
          || not (destination.currency =t original.source_currency))
        internal)
  where
    open accounts use {source, destination}

-- The balances behind the reversal; the source may go below zero.
unfoldable pub restored_balances : Transfer → Pair → Result AppError (ℤ × ℤ)
restored_balances original accounts =
    bind
      (ok_or (checked_sub accounts.source.balance_minor original.destination_amount_minor)
        reversal_out_of_range)
      λ source_balance.
        bind
          (ok_or (checked_add accounts.destination.balance_minor original.total_source_debit_minor)
            reversal_out_of_range)
          λ destination_balance. ok (source_balance, destination_balance)

abbrev pub reversal_row : Env → Undo → Transfer → Uuid → Transfer
reversal_row env u original id = record {
  id = id;
  source_account_id = original.destination_account_id;
  destination_account_id = original.source_account_id;
  source_currency = original.destination_currency;
  destination_currency = original.source_currency;
  source_amount_minor = original.destination_amount_minor;
  destination_amount_minor = original.total_source_debit_minor;
  fee_amount_minor = original.fee_amount_minor;
  total_source_debit_minor = original.destination_amount_minor;
  fee_bps = original.fee_bps;
  exchange_rate = original.exchange_rate;
  exchange_rate_id = original.exchange_rate_id;
  kind = reversal;
  reverses_transfer_id = some u.original_id;
  initiated_by = u.client_id;
  created_at = env.now;
}

abbrev pub reversal_debit : Env → Transfer → Uuid → Uuid → AccountEntry
reversal_debit env original id transfer_id = record {
  id = id;
  account_id = original.destination_account_id;
  transfer_id = transfer_id;
  counterparty_account_id = original.source_account_id;
  direction = debit;
  operation_kind = reversal;
  amount_minor = original.destination_amount_minor;
  currency = original.destination_currency;
  principal_amount_minor = none;
  fee_amount_minor = none;
  created_at = env.now;
}

abbrev pub reversal_credit : Env → Transfer → Uuid → Uuid → AccountEntry
reversal_credit env original id transfer_id = record {
  id = id;
  account_id = original.source_account_id;
  transfer_id = transfer_id;
  counterparty_account_id = original.destination_account_id;
  direction = credit;
  operation_kind = reversal;
  amount_minor = original.total_source_debit_minor;
  currency = original.source_currency;
  principal_amount_minor = none;
  fee_amount_minor = none;
  created_at = env.now;
}

-- The reversal, the two balances and the two entries; the id of the reversal is drawn first.
unfoldable pub record_reversal : Env → Undo → Transfer → ℤ × ℤ → Tx AppError Uuid
record_reversal env u original (source_balance, destination_balance) = do
  id ← draw_uuid env
  execute env internal (insert_transfer (reversal_row env u original id))
  update_balance env original.destination_account_id source_balance
  update_balance env original.source_account_id destination_balance
  insert_entry_row env (λ entry_id. reversal_debit env original entry_id id)
  insert_entry_row env (λ entry_id. reversal_credit env original entry_id id)
  pure id

unfoldable pub reversal_body : Env → Undo → Transfer → Pair → ℤ × ℤ → Uuid → Body
reversal_body env u original accounts (source_balance, destination_balance) id =
    reversal_created id u.original_id original.destination_account_id original.source_account_id
      original.destination_currency original.source_currency
      (format_minor_units original.destination_amount_minor source_scale)
      (format_minor_units original.total_source_debit_minor destination_scale)
      (format_minor_units original.fee_amount_minor destination_scale)
      (format_minor_units original.destination_amount_minor source_scale)
      (format_minor_units source_balance source_scale)
      (format_minor_units destination_balance destination_scale) (env.timestamp_text env.now)
  where
    source_scale : ℕ
    source_scale = as_u8 accounts.source.currency_scale

    destination_scale : ℕ
    destination_scale = as_u8 accounts.destination.currency_scale

-- The response is serialised and stored.
answer_reversal : Env → Undo → Transfer → Pair → ℤ × ℤ → Uuid → Tx AppError Response
answer_reversal env u original accounts balances id = do
  call_out env internal
  store_success env u.scope 201 (reversal_body env u original accounts balances id) id
  pure (record { status = 201; body = reversal_body env u original accounts balances id })

pub with_balances : Env → Undo → Transfer → Pair → ℤ × ℤ → Tx AppError Response
with_balances env u original accounts balances =
    record_reversal env u original balances >>= answer_reversal env u original accounts balances

with_pair : Env → Undo → Transfer → Pair → Tx AppError Response
with_pair env u original accounts = do
  lift (check_accounts original accounts)
  balances ← lift (restored_balances original accounts)
  with_balances env u original accounts balances

with_checked : Env → Undo → Transfer → Unit {0} → Tx AppError Response
with_checked env u original _ =
    lock_pair env original.destination_account_id original.source_account_id
    >>= with_pair env u original

with_original : Env → Undo → Transfer → Tx AppError Response
with_original env u original = check_original env u original >>= with_checked env u original

with_found : Env → Undo → Option Transfer → Tx AppError Response
with_found env u found = or_fail found not_found >>= with_original env u

-- What the owner of the key does.
unfoldable pub perform_reversal : Env → Undo → Tx AppError Response
unfolding with_found with_original with_checked with_pair with_balances answer_reversal
perform_reversal env u = query env internal (find_transfer u.original_id) >>= with_found env u

after_gate : Env → Undo → Option Response → Tx AppError Response
after_gate env u (some response) = pure response
after_gate env u none = perform_reversal env u

abbrev pub undo_of : Text → Text → Uuid → Undo
undo_of client_id key id = record {
  client_id = client_id;
  scope = record { client_id = client_id; operation_type = reversal_operation; key = key };
  original_id = id;
}

-- The block whose error rolls the transaction back.
unfoldable pub reversal_block : Env → ℕ → Undo → Tx AppError Response
unfolding after_gate
reversal_block env retention u =
    gate env FinancialOperation.reversal u.scope (reversal_fingerprint env u.original_id) retention
    >>= after_gate env u

-- `pool.begin()`, whose failure is counted: no transaction will be.
begin_counted : Env → FinancialOperation → Tx AppError (Unit {0})
begin_counted env op w =
    let (outcome, reason) = financial_metric_outcome internal in
    if env.fails w.calls
    then (
      failed internal,
      record (tick w) { counted = operation_outcome op outcome reason ∷ w.counted },
    )
    else (done tt, tick w)

unfoldable pub reverse_transfer : Env → ℕ → Text → List Text → Text → Tx AppError Response
unfolding begin_counted
reverse_transfer env retention client_id headers transfer_id = do
  key ← lift (from_headers env headers)
  id ← or_fail (env.parse_uuid transfer_id) malformed_transfer_id
  begin_counted env FinancialOperation.reversal
  transaction env FinancialOperation.reversal
      (reversal_block env retention (undo_of client_id key id))
