-- ===== src/Gate/Safe.antt =====
-- The gate does not panic on complete records.
use high_performance_ledger.Prelude.{ℕ, ◌<◌, ◌≡◌, some, List, arith, inl, inr, Option-cases}
use high_performance_ledger.Prelude.Int.{i64_mod}
use high_performance_ledger.Prelude.Text.{Text}
use high_performance_ledger.Observability.{FinancialOperation}
use high_performance_ledger.ApiError.{AppError}
use high_performance_ledger.Database.{Uuid, Body, IdempotencyRecord}
use high_performance_ledger.Idempotency.{Scope, find_record, completed_success, reserve}
use high_performance_ledger.Tx.{Env, World, Tx}
use high_performance_ledger.Tx.Laws.{IsSafe}
use high_performance_ledger.Gate.{Response, gate, close, transaction}
use high_performance_ledger.Gate.Atomic.{Outcome-cases, Answer-cases}

-- Every record has its result.
abbrev pub AllComplete : List IdempotencyRecord → Type 0
AllComplete records =
    (s : Scope) (k : IdempotencyRecord)
    → find_record s records ≡ some k
    → (x : ℕ × Body × Uuid) × (k.result ≡ some x)

pub reserve-IsSafe :
    (env : Env) (s : Scope) (fingerprint : Text) (retention : ℕ) (w : World)
    → AllComplete w.db.idempotency_records
    → retention < i64_mod
    → IsSafe (reserve env s fingerprint retention) w
unfolding reserve
reserve-IsSafe env s fingerprint retention w complete fits =
    elim (Option-cases (find_record s w.db.idempotency_records)) [
      | inl fresh ↦ record { safe = λ h. ground arith }
      | inr (k, found) ↦ let (x, result) = complete s k found in record { safe = λ h. ground arith }
    ]

pub gate-IsSafe :
    (env : Env) (op : FinancialOperation) (s : Scope) (fingerprint : Text) (retention : ℕ)
    (w : World)
    → AllComplete w.db.idempotency_records
    → retention < i64_mod
    → IsSafe (gate env op s fingerprint retention) w
unfolding gate completed_success reserve
gate-IsSafe env op s fingerprint retention w complete fits =
    elim (Option-cases (find_record s w.db.idempotency_records)) [
      | inl fresh ↦ record { safe = λ h. ground arith }
      | inr (k, found) ↦ let (x, result) = complete s k found in record { safe = λ h. ground arith }
    ]

pub transaction-IsSafe :
    (env : Env) (op : FinancialOperation) (block : Tx AppError Response) (w : World)
    → IsSafe block w
    → IsSafe (transaction env op block) w
unfolding transaction close
transaction-IsSafe env op block w h =
    let safe = h.safe in
    elim (Outcome-cases (block w).0) [
      | inl (r, e) ↦ elim (Answer-cases env.commit) [
        | inl committed' ↦ record { safe = λ p. ground arith }
        | inr (inl refused') ↦ record { safe = λ p. ground arith }
        | inr (inr lost) ↦ record { safe = λ p. ground arith }
      ]
      | inr (inl (e, f)) ↦ record { safe = λ p. ground arith }
      | inr (inr p) ↦ absurd (safe p)
    ]
