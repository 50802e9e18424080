-- ===== src/Transfers/Create/Safe.antt =====
-- `create_transfer` does not panic on consistent tables.
use high_performance_ledger.Prelude.{
  ℕ, ◌<◌, ◌≡◌, ap, none, some, Option, List, arith, inl, inr, Option-cases,
}
use high_performance_ledger.Prelude.Int.{i64_mod}
use high_performance_ledger.Prelude.Text.{Text}
use high_performance_ledger.Prelude.Result.{Result-cases}
use high_performance_ledger.Observability.{FinancialOperation}
use high_performance_ledger.Database.Accounts.{UniqueIds}
use high_performance_ledger.Tx.{Env, World, done, tick}
use high_performance_ledger.Tx.Laws.{IsSafe, >>=-IsSafe, lift_then-IsSafe, pure-IsSafe}
use high_performance_ledger.Gate.{Response, gate}
use high_performance_ledger.Gate.Atomic.{gate_owned}
use high_performance_ledger.Gate.Safe.{AllComplete, gate-IsSafe, transaction-IsSafe}
use high_performance_ledger.Transfers.Request.{
  CreateTransferRequest, Checked, Preliminary, check_request, read_preliminary, operation_type,
  read_amount,
}
use high_performance_ledger.Transfers.Perform.{Order}
use high_performance_ledger.Transfers.Perform.Safe.{perform_transfer-IsSafe}
use high_performance_ledger.Transfers.Create.{
  after_gate, gated, order_of, transfer_block, operation_of, create_transfer,
}
use high_performance_ledger.Transfers.Create.Sound.{fingerprint_of}

module _ (env : Env) (retention : ℕ) (w : World) (unique : UniqueIds w.db.accounts)
    (complete : AllComplete w.db.idempotency_records) (fits : retention < i64_mod) where
  after_gate-IsSafe :
      (op : FinancialOperation) (o : Order) (x : Option Response) (v : World)
      → gate env op o.scope (fingerprint_of env o) retention w ≡ (done x, v)
      → IsSafe (after_gate env o x) v
  unfolding after_gate
  after_gate-IsSafe op o (some r) v h = pure-IsSafe r v
  after_gate-IsSafe op o none v h =
      let (db, _, _) = gate_owned env op o.scope (fingerprint_of env o) retention w v h in
      perform_transfer-IsSafe env o v (rw db unique)

  gated-IsSafe : (op : FinancialOperation) (o : Order) → IsSafe (gated env retention op o) w
  unfolding gated
  gated-IsSafe op o =
      >>=-IsSafe (gate env op o.scope (fingerprint_of env o) retention) (after_gate env o) w
        (gate-IsSafe env op o.scope (fingerprint_of env o) retention w complete fits)
        λ x e.
          after_gate-IsSafe op o x _
            (ap (λ a. (a, (gate env op o.scope (fingerprint_of env o) retention w).1)) e)

  transfer_block-IsSafe :
      (client_id : Text) (op : FinancialOperation) (c : Checked) (p : Preliminary)
      (operation : Text)
      → IsSafe (transfer_block env retention client_id op c p operation) w
  unfolding transfer_block
  transfer_block-IsSafe client_id op c p operation =
      lift_then-IsSafe (λ n. gated env retention op (order_of client_id c p operation n)) w
        (read_amount p c.amount) λ n _. gated-IsSafe op (order_of client_id c p operation n)

pub create_transfer-IsSafe :
    (env : Env) (retention : ℕ) (client_id : Text) (headers : List Text)
    (body : Option CreateTransferRequest) (w : World)
    → UniqueIds w.db.accounts
    → AllComplete w.db.idempotency_records
    → retention < i64_mod
    → IsSafe (create_transfer env retention client_id headers body) w
unfolding create_transfer
create_transfer-IsSafe env retention client_id headers body w u complete fits =
    elim (Result-cases (check_request env headers body)) [
      | inr (e, refused) ↦ record { safe = λ h. ground arith }
      | inl (c, checks) ↦ elim (Option-cases (read_preliminary c.source c.destination w.db)) [
        | inl missing ↦ record { safe = λ h. ground arith }
        | inr (p, reads) ↦ elim (Result-cases (operation_type p)) [
          | inr (e, unclear) ↦ record { safe = λ h. ground arith }
          | inl (operation, kind) ↦
              let op = operation_of operation in
              let begun = tick (tick (tick w)) in
              let block = transfer_block env retention client_id op c p operation in
              let inner =
                transfer_block-IsSafe env retention begun u complete fits client_id op c p
                  operation in
              let safe = (transaction-IsSafe env op block begun inner).safe in
              record { safe = λ h. ground arith }
        ]
      ]
    ]
