-- ===== src/Transfers/Perform.antt =====
-- What the owner of the key does in `create_transfer`, from the configuration to the response.
pub mod Configuration
pub mod Stages
pub mod Detail
pub mod Effect
pub mod Safe
pub mod Progress
use high_performance_ledger.Prelude.{
  ℕ, Bool, true, false, Option, none, some, List, [], ◌∷◌, ◌==◌, if◌then◌else◌,
}
use high_performance_ledger.Prelude.Int.{ℤ}
use high_performance_ledger.Prelude.Text.{Text, ◌=t◌}
use high_performance_ledger.Prelude.Result.{Result, ok, err, ◌>>=◌ as bind}
use high_performance_ledger.Observability.{
  FinancialOperation, TransactionObservation, TerminalOutcome, FinancialReason, Metric, started,
  idempotency, complete, drop, IdempotencyOutcome, idempotency_outcome,
}
use high_performance_ledger.ApiError.{
  AppError, internal, idempotency_conflict, account_unavailable, financial_metric_outcome,
}
use high_performance_ledger.Database.{
  Uuid, Timestamp, Database, Body, Account, ExchangeRateRow, FeeRuleRow,
}
use high_performance_ledger.Idempotency.{
  Scope, Reservation, owned, replay, conflict, completed_success, reserve, store_success,
  transfer_fingerprint, transfer_operation,
}
use high_performance_ledger.Tx.{
  Env, CommitAnswer, committed, refused, unacknowledged, World, Outcome, done, failed, panicked, Tx,
  ◌>>=◌, ◌>>◌, pure, fail, lift, or_fail, query, call_out, count_metric, tick,
}
use high_performance_ledger.Transfers.Request.{
  CreateTransferRequest, Checked, Preliminary, check_request, read_preliminary, operation_type,
  read_amount,
}
use high_performance_ledger.Gate.{Response}
use high_performance_ledger.Transfers.Price.{
  Pair, Price, load_configuration, lock_pair, check_pair, price, new_balances,
}
use high_performance_ledger.Transfers.Record.{Plan, record_transfer, response_body}

-- The request once its amount is known, and what it is recorded under.
pub record Order : Type 0 where
  pub client_id : Text
  pub scope : Scope
  pub checked : Checked
  pub preliminary : Preliminary
  pub operation : Text
  pub amount_minor : ℤ

unfoldable pub make_plan :
    Order → Pair → Option (ExchangeRateRow × FeeRuleRow) → Result AppError Plan
make_plan o accounts configuration = bind (price o.amount_minor accounts configuration) λ costs.
    bind (new_balances accounts costs) λ balances. ok (record {
      client_id = o.client_id;
      source_id = o.checked.source;
      destination_id = o.checked.destination;
      accounts = accounts;
      amount_minor = o.amount_minor;
      price = costs;
      source_balance = balances.0;
      destination_balance = balances.1;
    })

-- The transfer is recorded, its response serialised and stored.
pub store_plan : Env → Scope → Plan → Tx AppError Response
store_plan env s plan = do
  id ← record_transfer env plan
  call_out env internal
  store_success env s 201 (response_body env plan id) id
  pure (record { status = 201; body = response_body env plan id })

with_accounts : Env → Order → Option (ExchangeRateRow × FeeRuleRow) → Pair → Tx AppError Response
with_accounts env o configuration accounts = do
  lift (check_pair o.client_id o.preliminary accounts)
  plan ← lift (make_plan o accounts configuration)
  store_plan env o.scope plan

with_configuration : Env → Order → Option (ExchangeRateRow × FeeRuleRow) → Tx AppError Response
with_configuration env o configuration =
    lock_pair env o.checked.source o.checked.destination >>= with_accounts env o configuration

at_time : Env → Order → Timestamp → Tx AppError Response
at_time env o time =
    load_configuration env o.operation o.preliminary time >>= with_configuration env o

unfoldable pub perform_transfer : Env → Order → Tx AppError Response
unfolding at_time with_configuration with_accounts make_plan store_plan
perform_transfer env o = query env internal (λ db. env.now) >>= at_time env o
