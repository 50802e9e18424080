-- ===== src/Transfers/Price.antt =====
-- The middle of `create_transfer`: the locked accounts, what the transfer costs, and the balances
-- that it leaves.
use high_performance_ledger.Prelude.{
  ℕ, ◌%◌, Bool, true, false, ◌||◌, ◌&&◌, not, Option, none, some, ◌==◌,
}
use high_performance_ledger.Prelude.Lists.{length}
use high_performance_ledger.Prelude.Int.{ℤ, pos, ltb_ℤ, checked_add, checked_sub}
use high_performance_ledger.Prelude.Text.{Text, codes, ◌=t◌}
use high_performance_ledger.Prelude.Result.{
  Result, ok, ◌>>=◌ as bind, ◌>>◌ as then', return_if, ok_or, map_err,
}
use high_performance_ledger.Fx.{parse, calculate_fee, calculate_destination}
use high_performance_ledger.Fx.Select.{select_exchange_rate, select_fee_rule}
use high_performance_ledger.ApiError.{AppError, business, internal, account_unavailable}
use high_performance_ledger.Database.{
  Uuid, Timestamp, Account, Kind, transfer, fx_transfer, ExchangeRateRow, FeeRuleRow, status_text,
}
use high_performance_ledger.Database.Accounts.{find_account, lock_accounts}
use high_performance_ledger.Idempotency.{fx_transfer_operation}
use high_performance_ledger.Tx.{Env, Tx, ◌>>=◌, ◌>>◌, pure, expect, fail_if, query, rename_error}
use high_performance_ledger.Transfers.Request.{
  Preliminary, transfer_configuration_error, transfer_arithmetic_error, out_of_range,
}

unfoldable pub read_configuration :
    Env → Preliminary → Timestamp → Tx AppError (Option (ExchangeRateRow × FeeRuleRow))
read_configuration env p time = do
  rate ←
      rename_error transfer_configuration_error
        (select_exchange_rate env p.source_currency p.destination_currency time)
  fee ←
      rename_error transfer_configuration_error
        (select_fee_rule env p.source_currency p.destination_currency time)
  pure (some (rate, fee))

-- The rate and the fee rule, which only a transfer between currencies reads.
unfoldable pub load_configuration :
    Env → Text → Preliminary → Timestamp → Tx AppError (Option (ExchangeRateRow × FeeRuleRow))
unfolding read_configuration
load_configuration env operation p time = elim (operation =t fx_transfer_operation) [
  | true ↦ read_configuration env p time
  | false ↦ pure none
]

pub record Pair : Type 0 where
  pub source : Account
  pub destination : Account

-- The two locked rows, by their ids.
unfoldable pub lock_pair : Env → Uuid → Uuid → Tx AppError Pair
lock_pair env source_id destination_id = do
  accounts ← query env internal (λ db. lock_accounts source_id destination_id db.accounts)
  fail_if (not (length accounts == 2)) account_unavailable
  source ← expect (find_account source_id accounts)
  destination ← expect (find_account destination_id accounts)
  pure (record { source = source; destination = destination })

abbrev pub is_active : Account → Bool
is_active a = status_text a.status =t codes "active"

-- The caller owns the source, both accounts are active, and their currencies are as first read.
unfoldable pub check_pair : Text → Preliminary → Pair → Result AppError (Unit {0})
check_pair client_id p accounts =
    then'
      (return_if
        (not (source.owner_id =t client_id)
          || not (is_active source)
          || not (is_active destination))
        account_unavailable)
      (return_if
        (not (
          ((source.currency =t p.source_currency) && (source.currency_scale == p.source_scale))
          && ((destination.currency =t p.destination_currency)
              && (destination.currency_scale == p.destination_scale))))
        internal)
  where
    open accounts use {source, destination}

-- What a transfer moves, and how it was priced.
pub record Price : Type 0 where
  pub kind : Kind
  pub destination_amount_minor : ℤ
  pub fee_amount_minor : ℤ
  pub total_source_debit_minor : ℤ
  pub fee_bps : Option ℤ
  pub exchange_rate : Option Text
  pub exchange_rate_id : Option Uuid

abbrev pub as_u8 : ℕ → ℕ
as_u8 n = n % 256

price_fx : ℤ → Pair → ExchangeRateRow → FeeRuleRow → Result AppError Price
price_fx amount_minor accounts rate fee =
    bind (map_err transfer_arithmetic_error (calculate_fee amount_minor fee.fee_bps))
      λ fee_calculation. bind (map_err transfer_arithmetic_error (parse rate.rate)) λ exact_rate.
        bind
          (map_err transfer_arithmetic_error (
            calculate_destination amount_minor (as_u8 accounts.source.currency_scale)
              (as_u8 accounts.destination.currency_scale) exact_rate))
          λ destination_amount. ok (record {
            kind = fx_transfer;
            destination_amount_minor = destination_amount;
            fee_amount_minor = fee_calculation.fee_minor;
            total_source_debit_minor = fee_calculation.total_source_debit_minor;
            fee_bps = some fee.fee_bps;
            exchange_rate = some rate.rate;
            exchange_rate_id = some rate.id;
          })

unfoldable pub price : ℤ → Pair → Option (ExchangeRateRow × FeeRuleRow) → Result AppError Price
unfolding price_fx
price amount_minor accounts none = ok (record {
  kind = transfer;
  destination_amount_minor = amount_minor;
  fee_amount_minor = pos 0;
  total_source_debit_minor = amount_minor;
  fee_bps = none;
  exchange_rate = none;
  exchange_rate_id = none;
})
price amount_minor accounts (some (rate, fee)) = price_fx amount_minor accounts rate fee

abbrev pub insufficient_funds : AppError
insufficient_funds =
    business (codes "insufficient_funds") (codes "The source account has insufficient funds")

-- The balances of the two accounts after the transfer.
unfoldable pub new_balances : Pair → Price → Result AppError (ℤ × ℤ)
new_balances accounts p =
    then'
      (return_if (ltb_ℤ accounts.source.balance_minor p.total_source_debit_minor)
        insufficient_funds)
      (bind
        (ok_or (checked_sub accounts.source.balance_minor p.total_source_debit_minor) out_of_range)
        λ source_balance.
          bind
            (ok_or (checked_add accounts.destination.balance_minor p.destination_amount_minor)
              out_of_range)
            λ destination_balance. ok (source_balance, destination_balance))
