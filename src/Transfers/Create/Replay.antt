-- ===== src/Transfers/Create/Replay.antt =====
-- The answer to a request whose key is in use.
use high_performance_ledger.Prelude.{
  ℕ, ◌≤◌, ◌≡◌, ◌≢◌, refl, ◌∙◌, false, Option, some, List, ◌∷◌, arith, suc,
}
use high_performance_ledger.Prelude.Text.{Text, =t_refl, =t_sound}
use high_performance_ledger.Observability.{
  FinancialOperation, IdempotencyOutcome, idempotency_outcome,
}
use high_performance_ledger.ApiError.{AppError, idempotency_conflict}
use high_performance_ledger.Database.{Uuid, Body, IdempotencyRecord}
use high_performance_ledger.Idempotency.{Scope, find_record, completed_success}
use high_performance_ledger.Tx.{Env, committed, World, done, failed, Tx, tick}
use high_performance_ledger.Gate.{Response, gate, transaction}
use high_performance_ledger.Gate.Atomic.{IsStored, transaction_commits, transaction_rolls_back}
use high_performance_ledger.Transfers.Request.{CreateTransferRequest}
use high_performance_ledger.Transfers.Perform.{Order}
use high_performance_ledger.Transfers.Create.{
  scope_of, after_gate, gated, transfer_block, operation_of, create_transfer,
}
use high_performance_ledger.Transfers.Create.Sound.{IsOrder, fingerprint_of}

-- The gate finds a stored result.
pub gate-stored :
    (env : Env) (op : FinancialOperation) (s : Scope) (fingerprint : Text) (retention : ℕ)
    (w : World) (r : Response)
    → env.fails w.calls ≡ false
    → IsStored env s fingerprint w.db r
    → (v : World) × (gate env op s fingerprint retention w ≡ (done (some r), v)) × (v.db ≡ w.db)
unfolding gate completed_success
gate-stored env op s fingerprint retention w r h stored =
    let refl' = =t_refl fingerprint in
    let found = stored.found in
    let same = stored.same in
    let result = stored.result in
    let status = stored.status in
    (
      record (tick w) { counted = idempotency_outcome op IdempotencyOutcome.replay ∷ w.counted },
      ground arith,
      refl,
    )

-- A key that is in use for another request.
gate-conflict :
    (env : Env) (op : FinancialOperation) (s : Scope) (fingerprint : Text) (retention : ℕ)
    (w : World) (k : IdempotencyRecord) (x : ℕ × Body × Uuid)
    → env.fails w.calls ≡ false
    → find_record s w.db.idempotency_records ≡ some k
    → k.result ≡ some x
    → k.request_fingerprint ≢ fingerprint
    → (v : World) × (gate env op s fingerprint retention w ≡ (failed idempotency_conflict, v))
unfolding gate completed_success
gate-conflict env op s fingerprint retention w k x h found result other = (
  record (tick w) { counted = idempotency_outcome op IdempotencyOutcome.conflict ∷ w.counted },
  ground (arith, =t_sound fingerprint k.request_fingerprint),
)

module _ (env : Env) (retention : ℕ) (client_id : Text) (headers : List Text)
    (body : Option CreateTransferRequest) (w : World) (o : Order)
    (reliable : (n : ℕ) → w.calls ≤ n → env.fails n ≡ false)
    (order : IsOrder env client_id headers body w.db o) where
  abbrev pub begun : World
  begun = tick (tick (tick w))

  abbrev pub block : Tx AppError Response
  block =
      transfer_block env retention client_id (operation_of o.operation) o.checked o.preliminary
        o.operation

  -- The order is read, and the transaction begun.
  pub begins :
      create_transfer env retention client_id headers body w
      ≡ transaction env (operation_of o.operation) block begun
  unfolding create_transfer
  begins =
      let checks = order.checks in
      let reads = order.reads in
      let kind = order.kind in
      let first = reliable w.calls (omega arith) in
      let second = reliable (suc w.calls) (omega arith) in
      let third = reliable (suc (suc w.calls)) (omega arith) in ground arith

  block-stored :
      (r : Response)
      → IsStored env o.scope (fingerprint_of env o) w.db r
      → (v : World) × (block begun ≡ (done r, v)) × (v.db ≡ w.db)
  unfolding transfer_block gated after_gate
  block-stored r stored =
      let (v, e, db) =
        gate-stored env (operation_of o.operation) (scope_of client_id o.operation o.checked.key)
          (fingerprint_of env o) retention begun r (reliable begun.calls (omega arith))
          (rw (← order.scoped) stored) in
      let amount = order.amount in (v, ground arith, db)

  block-conflict :
      (k : IdempotencyRecord) (x : ℕ × Body × Uuid)
      → find_record o.scope w.db.idempotency_records ≡ some k
      → k.result ≡ some x
      → k.request_fingerprint ≢ fingerprint_of env o
      → (v : World) × (block begun ≡ (failed idempotency_conflict, v))
  unfolding transfer_block gated after_gate
  block-conflict k x found result other =
      let (v, e) =
        gate-conflict env (operation_of o.operation) (scope_of client_id o.operation o.checked.key)
          (fingerprint_of env o) retention begun k x (reliable begun.calls (omega arith))
          (rw (← order.scoped) found) result other in
      let amount = order.amount in (v, ground arith)

  -- An order whose result is stored is answered by the stored response, and no table is changed. No
  -- call fails, and the COMMIT is done.
  pub create_transfer_replays :
      (r : Response)
      → env.commit ≡ committed
      → IsStored env o.scope (fingerprint_of env o) w.db r
      → ((create_transfer env retention client_id headers body w).0 ≡ done r)
        × ((create_transfer env retention client_id headers body w).1.db ≡ w.db)
  create_transfer_replays r commits stored =
      let (v, e, db) = block-stored r stored in
      let (answer, kept) =
        transaction_commits env (operation_of o.operation) block begun r v commits e in
      rw begins (answer, kept ∙ db)

  -- An order under a key whose stored result belongs to a different request is refused as a conflict,
  -- and no table is changed. No call fails.
  pub create_transfer_conflicts :
      (k : IdempotencyRecord) (x : ℕ × Body × Uuid)
      → find_record o.scope w.db.idempotency_records ≡ some k
      → k.result ≡ some x
      → k.request_fingerprint ≢ fingerprint_of env o
      → ((create_transfer env retention client_id headers body w).0 ≡ failed idempotency_conflict)
        × ((create_transfer env retention client_id headers body w).1.db ≡ w.db)
  create_transfer_conflicts k x found result other =
      let (v, e) = block-conflict k x found result other in
      rw begins
        (transaction_rolls_back env (operation_of o.operation) block begun idempotency_conflict v e)
