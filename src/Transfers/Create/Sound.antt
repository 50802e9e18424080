-- ===== src/Transfers/Create/Sound.antt =====
-- What `create_transfer` has done when it answers with a response.
use high_performance_ledger.Prelude.{
  ℕ, ◌≡◌, ◌⊎◌, refl, ap, Option, none, some, List, ◌∷◌, arith, inl, inr, Option-cases,
}
use high_performance_ledger.Prelude.Int.{ℤ}
use high_performance_ledger.Prelude.Text.{Text}
use high_performance_ledger.Prelude.Result.{ok, Result-cases}
use high_performance_ledger.Observability.{FinancialOperation}
use high_performance_ledger.Database.{Database}
use high_performance_ledger.Idempotency.{Scope, find_record, reservation, transfer_fingerprint}
use high_performance_ledger.Tx.{Env, World, done, lift, tick}
use high_performance_ledger.Tx.Laws.{>>=-done, lift-done}
use high_performance_ledger.Gate.{Response, gate, transaction}
use high_performance_ledger.Gate.Atomic.{IsStored, gate_owned, gate_replayed, transaction-done}
use high_performance_ledger.Transfers.Request.{
  CreateTransferRequest, Checked, Preliminary, check_request, read_preliminary, operation_type,
  read_amount,
}
use high_performance_ledger.Transfers.Spec.{Performed}
use high_performance_ledger.Transfers.Perform.{Order}
use high_performance_ledger.Transfers.Perform.Effect.{perform_transfer-Performed}
use high_performance_ledger.Transfers.Create.{
  scope_of, order_of, after_gate, gated, transfer_block, operation_of, create_transfer,
}

-- The tables with the key of a request reserved.
abbrev pub reserved : Env → ℕ → Scope → Text → Database → Database
reserved env retention s fingerprint db = record db {
  idempotency_records = reservation env s fingerprint retention ∷ db.idempotency_records;
}

-- The fingerprint of an order.
abbrev pub fingerprint_of : Env → Order → Text
fingerprint_of env o =
    transfer_fingerprint env o.checked.source o.checked.destination o.preliminary.source_currency
      o.amount_minor

-- What is read of a request and of the accounts that it names: an order.
pub record IsOrder (env : Env) (client_id : Text) (headers : List Text)
    (body : Option CreateTransferRequest) (db : Database) (o : Order) : Type 0 where
  pub client : o.client_id ≡ client_id
  pub scoped : o.scope ≡ scope_of client_id o.operation o.checked.key
  pub checks : check_request env headers body ≡ ok o.checked
  pub reads : read_preliminary o.checked.source o.checked.destination db ≡ some o.preliminary
  pub kind : operation_type o.preliminary ≡ ok o.operation
  pub amount : read_amount o.preliminary o.checked.amount ≡ ok o.amount_minor

-- The order was carried out under a key that was not in use.
pub record IsExecuted (env : Env) (retention : ℕ) (o : Order) (before after : Database)
    (r : Response) : Type 0 where
  pub new_key : find_record o.scope before.idempotency_records ≡ none
  pub performed :
      Performed env o (reserved env retention o.scope (fingerprint_of env o) before) after r

-- The response is the stored one of the same order, and nothing is changed.
pub record IsReplay (env : Env) (o : Order) (before after : Database) (r : Response) : Type 0 where
  pub stored : IsStored env o.scope (fingerprint_of env o) before r
  pub unchanged : after ≡ before

module _ (env : Env) (retention : ℕ) (op : FinancialOperation) (o : Order) (w v w' : World)
    (r : Response) where
  gated-IsExecuted :
      gate env op o.scope (fingerprint_of env o) retention w ≡ (done none, v)
      → after_gate env o none v ≡ (done r, w')
      → IsExecuted env retention o w.db w'.db r
  unfolding after_gate
  gated-IsExecuted h k =
      let (db, new_key, _) = gate_owned env op o.scope (fingerprint_of env o) retention w v h in
      let (performed, _) = perform_transfer-Performed env o v w' r k in
      record { new_key = new_key; performed = rw (← db) performed }

  gated-IsReplay :
      (r' : Response)
      → gate env op o.scope (fingerprint_of env o) retention w ≡ (done (some r'), v)
      → after_gate env o (some r') v ≡ (done r, w')
      → IsReplay env o w.db w'.db r
  unfolding after_gate
  gated-IsReplay r' h k =
      let (stored, db, _) =
        gate_replayed env op o.scope (fingerprint_of env o) retention w v r' h in
      let same : r' ≡ r = cc in
      let stay : v ≡ w' = cc in record { stored = rw (← same) stored; unchanged = rw (← stay) db }

gated_sound :
    (env : Env) (retention : ℕ) (op : FinancialOperation) (o : Order) (w w' : World) (r : Response)
    → gated env retention op o w ≡ (done r, w')
    → IsExecuted env retention o w.db w'.db r ⊎ IsReplay env o w.db w'.db r
unfolding gated
gated_sound env retention op o w w' r h =
    let (x, v, e, k) =
      >>=-done (gate env op o.scope (fingerprint_of env o) retention) (after_gate env o) w h in
    elim (Option-cases x) [
      | inl owner ↦
          inl (gated-IsExecuted env retention op o w v w' r (rw (← owner) e) (rw (← owner) k))
      | inr (r', stored) ↦
          inr (gated-IsReplay env retention op o w v w' r r' (rw (← stored) e) (rw (← stored) k))
    ]

-- What `create_transfer` has read when it opens its transaction.
opened :
    (env : Env) (retention : ℕ) (client_id : Text) (headers : List Text)
    (body : Option CreateTransferRequest) (w w' : World) (r : Response)
    → create_transfer env retention client_id headers body w ≡ (done r, w')
    → (c : Checked) × (p : Preliminary) × (operation : Text) × (check_request env headers body
        ≡ ok c)
      × (read_preliminary c.source c.destination w.db ≡ some p)
      × (operation_type p ≡ ok operation)
      × (transaction env
            (operation_of operation)
            (transfer_block env retention client_id (operation_of operation) c p operation)
            (tick (tick (tick w)))
          ≡ (done r, w'))
unfolding create_transfer
opened env retention client_id headers body w w' r h =
    elim (Result-cases (check_request env headers body)) [
      | inr (e, refused) ↦ ground arith
      | inl (c, checks) ↦ elim (Option-cases (read_preliminary c.source c.destination w.db)) [
        | inl missing ↦ ground arith
        | inr (p, reads) ↦ elim (Result-cases (operation_type p)) [
          | inr (e, unclear) ↦ ground arith
          | inl (operation, kind) ↦ (c, p, operation, checks, reads, kind, ground arith)
        ]
      ]
    ]

-- The block of the transaction first reads the amount.
pub block_sound :
    (env : Env) (retention : ℕ) (client_id : Text) (op : FinancialOperation) (c : Checked)
    (p : Preliminary) (operation : Text) (w w' : World) (r : Response)
    → transfer_block env retention client_id op c p operation w ≡ (done r, w')
    → (amount_minor : ℤ) × (read_amount p c.amount ≡ ok amount_minor)
      × (IsExecuted env retention (order_of client_id c p operation amount_minor) w.db w'.db r
          ⊎ IsReplay env (order_of client_id c p operation amount_minor) w.db w'.db r)
unfolding transfer_block
block_sound env retention client_id op c p operation w w' r h =
    let (amount_minor, v, e, k) =
      >>=-done (lift (read_amount p c.amount))
        (λ n. gated env retention op (order_of client_id c p operation n)) w h in
    let (amount, stay) = lift-done (read_amount p c.amount) w e in
    (
      amount_minor,
      amount,
      gated_sound env retention op (order_of client_id c p operation amount_minor) w w' r
          (rw stay k),
    )

-- A response of `create_transfer` answers an order that the request and the accounts make. Either
-- the order was carried out under a key that was not in use: the source is the client's, both
-- accounts are active, the debit is covered and the amounts are positive; the balances and
-- versions of the two accounts move by the amounts, and every other account is unchanged; the
-- transfer row and its two entries are added, with the ids, amounts and currencies of the accounts
-- and the time; a transfer in one currency is free and arrives as it is, and a conversion has the
-- fee, the amount, the rate and the fee rule that the one row and the one rule that apply to its
-- currencies at its time give, and records them; the result that is stored, and answered, tells
-- the amounts of the row at the scales of the accounts. Or the stored response of the same order
-- is repeated and no table is changed.
pub create_transfer_sound :
    (env : Env) (retention : ℕ) (client_id : Text) (headers : List Text)
    (body : Option CreateTransferRequest) (w w' : World) (r : Response)
    → create_transfer env retention client_id headers body w ≡ (done r, w')
    → (o : Order) × IsOrder env client_id headers body w.db o
      × (IsExecuted env retention o w.db w'.db r ⊎ IsReplay env o w.db w'.db r)
create_transfer_sound env retention client_id headers body w w' r h =
    let (c, p, operation, checks, reads, kind, k) =
      opened env retention client_id headers body w w' r h in
    let op = operation_of operation in
    let block = transfer_block env retention client_id op c p operation in
    let begun = tick (tick (tick w)) in
    let (answer, _, db, _) = transaction-done env op block begun r w' k in
    let (amount_minor, amount, sound) =
      block_sound env retention client_id op c p operation begun (block begun).1 r
        (ap (λ x. (x, (block begun).1)) answer) in
    (
      order_of client_id c p operation amount_minor,
      record {
        client = refl;
        scoped = refl;
        checks = checks;
        reads = reads;
        kind = kind;
        amount = amount;
      },
      rw db sound,
    )
