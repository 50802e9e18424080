-- ===== src/Transfers/Record.antt =====
-- The last part of the body of `create_transfer`: the statements that record a transfer, and the
-- response that is stored for it.
pub mod Effect
use high_performance_ledger.Prelude.{
  ℕ, ◌+◌, ◌≤◌, Bool, true, false, ◌||◌, ◌&&◌, not, Option, none, some, List, [], ◌∷◌, ◌==◌,
  if◌then◌else◌,
}
use high_performance_ledger.Prelude.Int.{ℤ, pos, leb_ℤ, ltb_ℤ}
use high_performance_ledger.Prelude.Text.{Text, codes, ◌=t◌}
use high_performance_ledger.Money.{format_minor_units}
use high_performance_ledger.ApiError.{AppError, internal}
use high_performance_ledger.Database.{
  Uuid, Timestamp, Account, Transfer, AccountEntry, Direction, debit, credit, Kind, transfer,
  fx_transfer, reversal, Body, transfer_created, fx_transfer_created, Database, exists,
}
use high_performance_ledger.Database.Accounts.{set_balance}
use high_performance_ledger.Database.Records.{insert_transfer, insert_entry}
use high_performance_ledger.Idempotency.{Scope, store_success}
use high_performance_ledger.Tx.{Env, Tx, World, ◌>>=◌, ◌>>◌, pure, execute, query, draw_uuid}
use high_performance_ledger.Transfers.Price.{Pair, Price, as_u8}

-- What the last part is given: the caller, the locked accounts, the amounts and the new balances.
pub record Plan : Type 0 where
  pub client_id : Text
  pub source_id : Uuid
  pub destination_id : Uuid
  pub accounts : Pair
  pub amount_minor : ℤ
  pub price : Price
  pub source_balance : ℤ
  pub destination_balance : ℤ

abbrev pub transfer_row : Env → Plan → Uuid → Transfer
transfer_row env p id = record {
  id = id;
  source_account_id = source_id;
  destination_account_id = destination_id;
  source_currency = accounts.source.currency;
  destination_currency = accounts.destination.currency;
  source_amount_minor = amount_minor;
  destination_amount_minor = price.destination_amount_minor;
  fee_amount_minor = price.fee_amount_minor;
  total_source_debit_minor = price.total_source_debit_minor;
  fee_bps = price.fee_bps;
  exchange_rate = price.exchange_rate;
  exchange_rate_id = price.exchange_rate_id;
  kind = price.kind;
  reverses_transfer_id = none;
  initiated_by = client_id;
  created_at = env.now;
}
  where
    open p use {client_id, source_id, destination_id, accounts, amount_minor, price}

-- `is_fx.then_some(amount)`
abbrev pub if_fx : Kind → ℤ → Option ℤ
if_fx transfer amount = none
if_fx fx_transfer amount = some amount
if_fx reversal amount = none

abbrev pub debit_entry : Env → Plan → Uuid → Uuid → AccountEntry
debit_entry env p id transfer_id = record {
  id = id;
  account_id = p.source_id;
  transfer_id = transfer_id;
  counterparty_account_id = p.destination_id;
  direction = debit;
  operation_kind = p.price.kind;
  amount_minor = p.price.total_source_debit_minor;
  currency = p.accounts.source.currency;
  principal_amount_minor = if_fx p.price.kind p.amount_minor;
  fee_amount_minor = if_fx p.price.kind p.price.fee_amount_minor;
  created_at = env.now;
}

abbrev pub credit_entry : Env → Plan → Uuid → Uuid → AccountEntry
credit_entry env p id transfer_id = record {
  id = id;
  account_id = p.destination_id;
  transfer_id = transfer_id;
  counterparty_account_id = p.source_id;
  direction = credit;
  operation_kind = p.price.kind;
  amount_minor = p.price.destination_amount_minor;
  currency = p.accounts.destination.currency;
  principal_amount_minor = if_fx p.price.kind p.price.destination_amount_minor;
  fee_amount_minor = none;
  created_at = env.now;
}

-- `UPDATE accounts SET balance_minor = …`
unfoldable pub update_balance : Env → Uuid → ℤ → Tx AppError (Unit {0})
update_balance env id balance =
    execute env internal λ db. some (record db { accounts = set_balance id balance db.accounts })

unfoldable pub insert_entry_row : Env → (Uuid → AccountEntry) → Tx AppError (Unit {0})
insert_entry_row env entry = do id ← draw_uuid env; execute env internal (insert_entry (entry id))

-- The transfer, the two balances and the two entries; the id of the transfer is drawn first.
unfoldable pub record_transfer : Env → Plan → Tx AppError Uuid
unfolding update_balance insert_entry_row
record_transfer env p = do
  transfer_id ← draw_uuid env
  execute env internal (insert_transfer (transfer_row env p transfer_id))
  update_balance env p.source_id p.source_balance
  update_balance env p.destination_id p.destination_balance
  insert_entry_row env (λ id. debit_entry env p id transfer_id)
  insert_entry_row env (λ id. credit_entry env p id transfer_id)
  pure transfer_id

unfoldable pub response_body : Env → Plan → Uuid → Body
response_body env p id = body p.price.kind
  where
    open p.accounts use {source, destination}

    body : Kind → Body
    body fx_transfer =
        fx_transfer_created id p.source_id p.destination_id source.currency
          (format_minor_units p.amount_minor (as_u8 source.currency_scale)) destination.currency
          (format_minor_units p.price.destination_amount_minor (as_u8 destination.currency_scale))
          (format_minor_units p.price.fee_amount_minor (as_u8 source.currency_scale))
          (format_minor_units p.price.total_source_debit_minor (as_u8 source.currency_scale))
          (env.timestamp_text env.now)
    body _ =
        transfer_created id p.source_id p.destination_id source.currency
          (format_minor_units p.amount_minor (as_u8 source.currency_scale))
          (env.timestamp_text env.now)
