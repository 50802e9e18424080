-- ===== src/Transfers/Create/Progress.antt =====
-- A payment that nothing stands in the way of is made.
use high_performance_ledger.Prelude.{◌*◌, ◌+◌, ◌≤◌, ltb, true}
use high_performance_ledger.Prelude.{ℕ, suc, ◌<◌, ◌≡◌, false, none, Option, List, ◌∷◌, arith}
use high_performance_ledger.Prelude.Int.{i64_mod}
use high_performance_ledger.Prelude.Text.{Text}
use high_performance_ledger.Observability.{
  FinancialOperation, IdempotencyOutcome, idempotency_outcome,
}
use high_performance_ledger.Database.{Database}
use high_performance_ledger.Idempotency.{Scope, find_record, completed_success, reserve}
use high_performance_ledger.Tx.{Env, World, done, tick, lift}
use high_performance_ledger.Tx.Laws.{Returns, >>=-Returns, lift-Returns}
use high_performance_ledger.Gate.{Response, gate}
use high_performance_ledger.Gate.Atomic.{transaction_commits}
use high_performance_ledger.Transfers.Request.{CreateTransferRequest, read_amount}
use high_performance_ledger.Transfers.Perform.{Order}
use high_performance_ledger.Transfers.Perform.Progress.Record.{IsReliable}
use high_performance_ledger.Transfers.Perform.Progress.{IsPayable, perform_transfer-Returns}
use high_performance_ledger.Transfers.Create.{
  order_of, after_gate, gated, transfer_block, operation_of, create_transfer,
}
use high_performance_ledger.Transfers.Create.Sound.{IsOrder, fingerprint_of, reserved}
use high_performance_ledger.Transfers.Create.Replay.{begins}

-- A key that is not in use is reserved.
gate-new :
    (env : Env) (op : FinancialOperation) (s : Scope) (fingerprint : Text) (retention : ℕ)
    (w : World)
    → env.fails w.calls ≡ false
    → env.fails (suc w.calls) ≡ false
    → find_record s w.db.idempotency_records ≡ none
    → 1 ≤ retention
    → retention < i64_mod
    → Returns (gate env op s fingerprint retention) w none (record w {
      db = reserved env retention s fingerprint w.db;
      calls = suc (suc w.calls);
      counted = idempotency_outcome op IdempotencyOutcome.owner ∷ w.counted;
    })
unfolding gate completed_success reserve
gate-new env op s fingerprint retention w first second fresh some_time fits =
    let later : ltb env.now (env.now + retention * 1000000) ≡ true = ground arith in
    record { returns = ground arith }

-- A reservation stands in the way of no payment.
IsPayable-reserved :
    (env : Env) (retention : ℕ) (s : Scope) (fingerprint : Text) (o : Order) (db : Database)
    → IsPayable o db
    → IsPayable o (reserved env retention s fingerprint db)
IsPayable-reserved env retention s fingerprint o db p = record {
  source = p.source;
  destination = p.destination;
  unique = p.unique;
  distinct = p.distinct;
  found_source = p.found_source;
  found_destination = p.found_destination;
  owned = p.owned;
  source_active = p.source_active;
  destination_active = p.destination_active;
  read = p.read;
  plain = p.plain;
  positive = p.positive;
  covered = p.covered;
  debit_fits = p.debit_fits;
  credit_fits = p.credit_fits;
}

IsReliable-reserved :
    (env : Env) (retention : ℕ) (s : Scope) (fingerprint : Text) (db : Database)
    → IsReliable env db
    → IsReliable env (reserved env retention s fingerprint db)
IsReliable-reserved env retention s fingerprint db r = record {
  works = r.works;
  commits = r.commits;
  new_transfer = r.new_transfer;
  new_entry = r.new_entry;
  differ = r.differ;
}

gated-Returns :
    (env : Env) (retention : ℕ) (op : FinancialOperation) (o : Order) (w : World)
    → IsPayable o w.db
    → IsReliable env w.db
    → find_record o.scope w.db.idempotency_records ≡ none
    → 1 ≤ retention
    → retention < i64_mod
    → (a : Response) × (v : World) × Returns (gated env retention op o) w a v × (a.status ≡ 201)
unfolding gated after_gate
gated-Returns env retention op o w p r fresh some_time fits =
    let (a, v, performed, created) =
      perform_transfer-Returns env o
        (record w {
          db = reserved env retention o.scope (fingerprint_of env o) w.db;
          calls = suc (suc w.calls);
          counted = idempotency_outcome op IdempotencyOutcome.owner ∷ w.counted;
        })
        (IsPayable-reserved env retention o.scope (fingerprint_of env o) o w.db p)
        (IsReliable-reserved env retention o.scope (fingerprint_of env o) w.db r) in
    (
      a,
      v,
      >>=-Returns (gate env op o.scope (fingerprint_of env o) retention) (after_gate env o)
          (gate-new env op o.scope (fingerprint_of env o) retention w (r.works w.calls)
            (r.works (suc w.calls)) fresh some_time fits)
          performed,
      created,
    )

order-is :
    (env : Env) (client_id : Text) (headers : List Text) (body : Option CreateTransferRequest)
    (db : Database) (o : Order)
    → IsOrder env client_id headers body db o
    → order_of client_id o.checked o.preliminary o.operation o.amount_minor ≡ o
order-is env client_id headers body db o order =
    let client = order.client in let scoped = order.scoped in ground arith

gated-same :
    (env : Env) (retention : ℕ) (op : FinancialOperation) (o o' : Order) (w v : World)
    (a : Response)
    → o' ≡ o
    → Returns (gated env retention op o) w a v
    → Returns (gated env retention op o') w a v
gated-same env retention op o o' w v a h k = rw h k

-- Progress: a payment of a positive amount between two accounts in one currency is made and answered
-- with 201, if it is asked for under a key that is not in use, by the owner of the source, which covers
-- it; the ids of the accounts are distinct, both accounts are active, and the balances stay in range;
-- no call fails, the COMMIT is done, the ids that are drawn are new, and the retention is at least a
-- second and fits into an `i64`.
pub create_transfer_progress :
    (env : Env) (retention : ℕ) (client_id : Text) (headers : List Text)
    (body : Option CreateTransferRequest) (w : World) (o : Order)
    → IsOrder env client_id headers body w.db o
    → IsPayable o w.db
    → IsReliable env w.db
    → find_record o.scope w.db.idempotency_records ≡ none
    → 1 ≤ retention
    → retention < i64_mod
    → (r : Response) × ((create_transfer env retention client_id headers body w).0 ≡ done r)
      × (r.status ≡ 201)
unfolding transfer_block
create_transfer_progress env retention client_id headers body w o order p r fresh some_time fits =
    let op = operation_of o.operation in
    let start = tick (tick (tick w)) in
    let is = order-is env client_id headers body w.db o order in
    let (a, v, passes, created) = gated-Returns env retention op o start p r fresh some_time fits in
    let runs =
      >>=-Returns (lift (read_amount o.preliminary o.checked.amount))
        (λ n. gated env retention op (order_of client_id o.checked o.preliminary o.operation n))
        (lift-Returns (read_amount o.preliminary o.checked.amount) start o.amount_minor
          order.amount)
        (gated-same env retention op o _ start v a is passes) in
    let opens = begins env retention client_id headers body w o (λ n h. r.works n) order in
    let (answered, _) =
      transaction_commits env op
        (transfer_block env retention client_id op o.checked o.preliminary o.operation) start a v
        r.commits runs.returns in
    (a, rw opens answered, created)
