-- ===== src/Transfers/Create.antt =====
-- `create_transfer` as a whole: the stages in their order, inside a transaction that ends by a commit
-- or a rollback.
pub mod Sound
pub mod Replay
pub mod Retry
pub mod Safe
pub mod Progress
pub mod Rollback
use high_performance_ledger.Prelude.{
  ℕ, Bool, true, false, Option, none, some, List, [], ◌∷◌, ◌==◌, if◌then◌else◌,
}
use high_performance_ledger.Prelude.Int.{ℤ}
use high_performance_ledger.Prelude.Text.{Text, ◌=t◌}
use high_performance_ledger.Prelude.Result.{Result, ok, err, ◌>>=◌ as bind}
use high_performance_ledger.Observability.{
  FinancialOperation, TransactionObservation, TerminalOutcome, FinancialReason, Metric, started,
  idempotency, complete, drop, IdempotencyOutcome, idempotency_outcome,
}
use high_performance_ledger.ApiError.{
  AppError, internal, idempotency_conflict, account_unavailable, financial_metric_outcome,
}
use high_performance_ledger.Database.{
  Uuid, Timestamp, Database, Body, Account, ExchangeRateRow, FeeRuleRow,
}
use high_performance_ledger.Idempotency.{
  Scope, Reservation, owned, replay, conflict, completed_success, reserve, store_success,
  transfer_fingerprint, transfer_operation,
}
use high_performance_ledger.Tx.{
  Env, CommitAnswer, committed, refused, unacknowledged, World, Outcome, done, failed, panicked, Tx,
  ◌>>=◌, ◌>>◌, pure, fail, lift, or_fail, query, call_out, count_metric, tick,
}
use high_performance_ledger.Transfers.Request.{
  CreateTransferRequest, Checked, Preliminary, check_request, read_preliminary, operation_type,
  read_amount,
}
use high_performance_ledger.Gate.{Response, gate, transaction}
use high_performance_ledger.Transfers.Perform.{Order, perform_transfer}

abbrev pub scope_of : Text → Text → Text → Scope
scope_of client_id operation key = record {
  client_id = client_id;
  operation_type = operation;
  key = key;
}

abbrev pub order_of : Text → Checked → Preliminary → Text → ℤ → Order
order_of client_id c p operation amount_minor = record {
  client_id = client_id;
  scope = scope_of client_id operation c.key;
  checked = c;
  preliminary = p;
  operation = operation;
  amount_minor = amount_minor;
}

after_gate : Env → Order → Option Response → Tx AppError Response
after_gate env o (some response) = pure response
after_gate env o none = perform_transfer env o

gated : Env → ℕ → FinancialOperation → Order → Tx AppError Response
gated env retention op o =
    gate env op o.scope
      (transfer_fingerprint env o.checked.source o.checked.destination o.preliminary.source_currency
        o.amount_minor)
      retention
    >>= after_gate env o

-- The block whose error rolls the transaction back.
unfoldable pub transfer_block :
    Env → ℕ → Text → FinancialOperation → Checked → Preliminary → Text → Tx AppError Response
unfolding gated after_gate
transfer_block env retention client_id op c p operation = do
  amount_minor ← lift (read_amount p c.amount)
  gated env retention op (order_of client_id c p operation amount_minor)

abbrev pub operation_of : Text → FinancialOperation
operation_of operation =
    if operation =t transfer_operation
    then FinancialOperation.transfer
    else FinancialOperation.fx_transfer

unfoldable pub create_transfer :
    Env → ℕ → Text → List Text → Option CreateTransferRequest → Tx AppError Response
create_transfer env retention client_id headers body = do
  c ← lift (check_request env headers body)
  call_out env internal
  call_out env internal
  found ← query env internal (read_preliminary c.source c.destination)
  p ← or_fail found account_unavailable
  operation ← lift (operation_type p)
  transaction env (operation_of operation)
      (transfer_block env retention client_id (operation_of operation) c p operation)
