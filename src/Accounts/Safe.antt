-- ===== src/Accounts/Safe.antt =====
-- `create_account` does not panic on consistent tables.
use high_performance_ledger.Prelude.{ℕ, ◌<◌, Option, List, arith, inl, inr, Option-cases}
use high_performance_ledger.Prelude.Int.{i64_mod}
use high_performance_ledger.Prelude.Text.{Text}
use high_performance_ledger.Prelude.Result.{Result-cases}
use high_performance_ledger.Idempotency.{find_record, reserve, store_success}
use high_performance_ledger.Tx.{Env, World, tick}
use high_performance_ledger.Tx.Laws.{IsSafe}
use high_performance_ledger.Gate.Safe.{AllComplete}
use high_performance_ledger.Accounts.{
  CreateAccountRequest, Opening, check_account, account_scope, open_account, account_transaction,
  create_account,
}

account_transaction-IsSafe :
    (env : Env) (retention : ℕ) (client_id : Text) (o : Opening) (w : World)
    → AllComplete w.db.idempotency_records
    → retention < i64_mod
    → IsSafe (account_transaction env retention client_id o) w
unfolding account_transaction reserve open_account store_success
account_transaction-IsSafe env retention client_id o w complete fits =
    elim (Option-cases (find_record (account_scope client_id o.key) w.db.idempotency_records)) [
      | inl fresh ↦ record { safe = λ h. ground arith }
      | inr (k, found) ↦
          let (x, result) = complete (account_scope client_id o.key) k found in
          record { safe = λ h. ground arith }
    ]

pub create_account-IsSafe :
    (env : Env) (retention : ℕ) (client_id : Text) (headers : List Text)
    (body : Option CreateAccountRequest) (w : World)
    → AllComplete w.db.idempotency_records
    → retention < i64_mod
    → IsSafe (create_account env retention client_id headers body) w
unfolding create_account
create_account-IsSafe env retention client_id headers body w complete fits =
    elim (Result-cases (check_account env headers body)) [
      | inr (e, refused') ↦ record { safe = λ h. ground arith }
      | inl (o, checks) ↦
          let safe =
            (account_transaction-IsSafe env retention client_id o (tick w) complete fits).safe in
          record { safe = λ h. ground arith }
    ]
