-- ===== src/Gate.antt =====
-- What the handlers of transfers and reversals share: the idempotency gate that opens their
-- transaction, and the commit or rollback that ends it.
pub mod Atomic
pub mod Safe
use high_performance_ledger.Prelude.{
  ℕ, Bool, true, false, Option, none, some, List, [], ◌∷◌, ◌==◌, if◌then◌else◌,
}
use high_performance_ledger.Prelude.Int.{ℤ}
use high_performance_ledger.Prelude.Text.{Text, ◌=t◌}
use high_performance_ledger.Prelude.Result.{Result, ok, err, ◌>>=◌ as bind}
use high_performance_ledger.Observability.{
  FinancialOperation, TransactionObservation, TerminalOutcome, FinancialReason, Metric, started,
  idempotency, complete_and_drop, drop, IdempotencyOutcome, idempotency_outcome,
}
use high_performance_ledger.ApiError.{
  AppError, internal, idempotency_conflict, account_unavailable, financial_metric_outcome,
}
use high_performance_ledger.Database.{
  Uuid, Timestamp, Database, Body, Account, ExchangeRateRow, FeeRuleRow,
}
use high_performance_ledger.Idempotency.{
  Scope, Reservation, owned, replay, conflict, completed_success, reserve, store_success,
  transfer_fingerprint, transfer_operation,
}
use high_performance_ledger.Tx.{
  Env, CommitAnswer, committed, refused, unacknowledged, World, Outcome, done, failed, panicked, Tx,
  ◌>>=◌, ◌>>◌, pure, fail, lift, or_fail, query, call_out, count_metric, tick,
}

pub record Response : Type 0 where
  pub status : ℕ
  pub body : Body

-- The answer from a stored result.
replay_response : Env → FinancialOperation → ℕ → Body → Tx AppError (Option Response)
replay_response env op http_status body = do
  count_metric (idempotency_outcome op IdempotencyOutcome.replay)
  status ← or_fail (env.status_from_u16 http_status) internal
  pure (some (record { status = status; body = body }))

refuse_conflict : FinancialOperation → Tx AppError (Option Response)
refuse_conflict op = do
  count_metric (idempotency_outcome op IdempotencyOutcome.conflict)
  fail idempotency_conflict

-- What a reservation means: the answer of an earlier request, or none for the owner.
after_reservation : Env → FinancialOperation → Reservation → Tx AppError (Option Response)
after_reservation env op (replay http_status body) = replay_response env op http_status body
after_reservation env op conflict = refuse_conflict op
after_reservation env op owned = do
  count_metric (idempotency_outcome op IdempotencyOutcome.owner)
  pure none

after_completed :
    Env
    → FinancialOperation
    → Scope
    → Text
    → ℕ
    → Option (Text × ℕ × Body)
    → Tx AppError (Option Response)
after_completed env op s fingerprint retention (some (stored, http_status, body)) =
    if fingerprint =t stored then replay_response env op http_status body else refuse_conflict op
after_completed env op s fingerprint retention none = do
  reservation ← reserve env s fingerprint retention
  after_reservation env op reservation

-- The idempotency gate, which transfers and reversals pass alike.
unfoldable pub gate : Env → FinancialOperation → Scope → Text → ℕ → Tx AppError (Option Response)
unfolding replay_response refuse_conflict after_reservation after_completed
gate env op s fingerprint retention = do
  completed ← completed_success env s
  after_completed env op s fingerprint retention completed

-- `TransactionObservation::reject`, and the end of the scope of the observation
abbrev reject_and_drop : TransactionObservation → AppError → List Metric → List Metric
reject_and_drop o e counted =
    let (outcome, reason) = financial_metric_outcome e in complete_and_drop o outcome reason counted

-- The end of a transaction that began on the tables `before`. Its observation is completed, unless
-- the block panics, and is dropped in every case.
close :
    Env
    → TransactionObservation
    → Database
    → Outcome AppError Response
    → World
    → Outcome AppError Response × World
close env o before (done response) w = elim env.commit [
  | committed ↦ (
    done response,
    record w {
      counted = complete_and_drop o TerminalOutcome.success FinancialReason.none w.counted;
    },
  )
  | refused ↦
      (failed internal, record w { db = before; counted = reject_and_drop o internal w.counted })
  | unacknowledged ↦ (failed internal, record w { counted = reject_and_drop o internal w.counted })
]
close env o before (failed e) w =
    (failed e, record w { db = before; counted = reject_and_drop o e w.counted })
close env o before panicked w = (panicked, record w { db = before; counted = drop o w.counted })

unfoldable pub transaction : Env → FinancialOperation → Tx AppError Response → Tx AppError Response
unfolding close
transaction env op block w = let (r, w') = block w in close env (started op) w.db r w'
