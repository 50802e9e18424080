-- ===== src/Gate/Atomic.antt =====
-- The laws of the gate and of the end of a transaction.
use high_performance_ledger.Prelude.{
  ℕ, ◌≡◌, ◌≢◌, ◌⊎◌, ◌↔◌, refl, ap, Bool, true, false, none, some, ◌∷◌, arith, inl, inr,
  Option-cases,
}
use high_performance_ledger.Prelude.Text.{Text, =t_sound}
use high_performance_ledger.Observability.{
  FinancialOperation, IdempotencyOutcome, idempotency_outcome, operation_outcome, TerminalOutcome,
  FinancialReason,
}
use high_performance_ledger.ApiError.{AppError, financial_metric_outcome}
use high_performance_ledger.Database.{Uuid, Database, IdempotencyRecord}
use high_performance_ledger.Idempotency.{
  Scope, find_record, reservation, completed_success, reserve,
}
use high_performance_ledger.Tx.{
  Env, CommitAnswer, committed, refused, unacknowledged, World, Outcome, done, failed, panicked, Tx,
}
use high_performance_ledger.Gate.{Response, gate, close, transaction}

pub Outcome-cases :
    {E A : Type 0} (x : Outcome E A)
    → ((a : A) × (x ≡ done a)) ⊎ (((e : E) × (x ≡ failed e)) ⊎ (x ≡ panicked))
Outcome-cases (done a) = inl (a, refl)
Outcome-cases (failed e) = inr (inl (e, refl))
Outcome-cases panicked = inr (inr refl)

pub Answer-cases : (c : CommitAnswer) → (c ≡ committed) ⊎ ((c ≡ refused) ⊎ (c ≡ unacknowledged))
Answer-cases committed = inl refl
Answer-cases refused = inr (inl refl)
Answer-cases unacknowledged = inr (inr refl)

-- A new key is reserved, and nothing else is written.
pub gate_owned :
    (env : Env) (op : FinancialOperation) (s : Scope) (fingerprint : Text) (retention : ℕ)
    (w w' : World)
    → gate env op s fingerprint retention w ≡ (done none, w')
    → (w'.db ≡ record w.db {
      idempotency_records = reservation env s fingerprint retention ∷ w.db.idempotency_records;
    })
      × (find_record s w.db.idempotency_records ≡ none)
      × (w'.counted ≡ idempotency_outcome op IdempotencyOutcome.owner ∷ w.counted)
unfolding gate completed_success reserve
gate_owned env op s fingerprint retention w w' h = ground arith

-- What it means that a response is the stored one of a record.
pub record IsStored (env : Env) (s : Scope) (fingerprint : Text) (db : Database) (r : Response)
    : Type 0 where
  pub kept : IdempotencyRecord
  pub id : Uuid
  pub http_status : ℕ
  pub found : find_record s db.idempotency_records ≡ some kept
  pub same : kept.request_fingerprint ≡ fingerprint
  pub result : kept.result ≡ some (http_status, r.body, id)
  pub status : env.status_from_u16 http_status ≡ some r.status

-- A key that is answered from a record: only a replay is counted.
pub gate_replayed :
    (env : Env) (op : FinancialOperation) (s : Scope) (fingerprint : Text) (retention : ℕ)
    (w w' : World) (r : Response)
    → gate env op s fingerprint retention w ≡ (done (some r), w')
    → IsStored env s fingerprint w.db r
      × (w'.db ≡ w.db)
      × (w'.counted ≡ idempotency_outcome op IdempotencyOutcome.replay ∷ w.counted)
unfolding gate completed_success reserve
gate_replayed env op s fingerprint retention w w' r h =
    elim (Option-cases (find_record s w.db.idempotency_records)) [
      | inl missing ↦ ground arith
      | inr (k, found) ↦ elim (Option-cases k.result) [
        | inl incomplete ↦ ground arith
        | inr ((http_status, body, id), result) ↦ (
          record {
            kept = k;
            id = id;
            http_status = http_status;
            found = found;
            same = ground (arith, =t_sound fingerprint k.request_fingerprint);
            result = ground arith;
            status = ground arith;
          },
          ground arith,
          ground arith,
        )
      ]
    ]

abbrev pub is_done : {E A : Type 0} → Outcome E A → Bool
is_done (done a) = true
is_done (failed e) = false
is_done panicked = false

module _ (env : Env) (op : FinancialOperation) (block : Tx AppError Response) (w : World) where
  -- A transaction that does not answer with a response leaves the tables as they were, unless the
  -- answer to its COMMIT was lost.
  pub transaction_atomic :
      env.commit ≢ unacknowledged
      → (is_done (transaction env op block w).0 ≡ true) ⊎ ((transaction env op block w).1.db ≡ w.db)
  unfolding transaction close
  transaction_atomic h = elim (Outcome-cases (block w).0) [
    | inl (r, e) ↦ elim (Answer-cases env.commit) [
      | inl committed' ↦ inl (ground arith)
      | inr (inl refused') ↦ inr (ground arith)
      | inr (inr lost) ↦ ground arith
    ]
    | inr (inl (e, f)) ↦ inr (ground arith)
    | inr (inr p) ↦ inr (ground arith)
  ]

  -- What a transaction that answers has done is committed.
  pub transaction-done :
      (r : Response) (w' : World)
      → transaction env op block w ≡ (done r, w')
      → ((block w).0 ≡ done r)
        × (env.commit ≡ committed)
        × (w'.db ≡ (block w).1.db)
        × (w'.counted
            ≡ operation_outcome op TerminalOutcome.success FinancialReason.none
              ∷ (block w).1.counted)
  unfolding transaction close
  transaction-done r w' h = ground arith

  -- Every transaction counts its operation once, though its observation is both completed and
  -- dropped, and as a success exactly if it answers with a response.
  pub transaction_counts_once :
      (outcome : TerminalOutcome) × (reason : FinancialReason) × ((transaction env op block
          w).1.counted
        ≡ operation_outcome op outcome reason ∷ (block w).1.counted)
      × ((outcome ≡ TerminalOutcome.success) ↔ (is_done (transaction env op block w).0 ≡ true))
  unfolding transaction close financial_metric_outcome
  transaction_counts_once = elim (Outcome-cases (block w).0) [
    | inl (r, e) ↦ elim (Answer-cases env.commit) [
      | inl committed' ↦ (
        TerminalOutcome.success,
        FinancialReason.none,
        ground arith,
        (λ h. ground arith, λ h. ground arith),
      )
      | inr lost ↦ (
        TerminalOutcome.internal_error,
        FinancialReason.internal_error,
        ground arith,
        (λ h. ground arith, λ h. ground arith),
      )
    ]
    | inr (inl (e, f)) ↦ (
      (financial_metric_outcome e).0,
      (financial_metric_outcome e).1,
      ground arith,
      (λ h. ground arith, λ h. ground arith),
    )
    | inr (inr p) ↦ (
      TerminalOutcome.internal_error,
      FinancialReason.internal_error,
      ground arith,
      (λ h. ground arith, λ h. ground arith),
    )
  ]

  -- How a transaction ends, by the outcome of its block.
  pub transaction_commits :
      (r : Response) (v : World)
      → env.commit ≡ committed
      → block w ≡ (done r, v)
      → ((transaction env op block w).0 ≡ done r) × ((transaction env op block w).1.db ≡ v.db)
  unfolding transaction close
  transaction_commits r v h k = (ground arith, ground arith)

  pub transaction_rolls_back :
      (e : AppError) (v : World)
      → block w ≡ (failed e, v)
      → ((transaction env op block w).0 ≡ failed e) × ((transaction env op block w).1.db ≡ w.db)
  unfolding transaction close
  transaction_rolls_back e v k = (ground arith, ground arith)

  -- A transaction leaves the tables as they were, or as its block that ended with a response left
  -- them.
  pub transaction_kept :
      ((transaction env op block w).1.db ≡ w.db)
      ⊎ ((r : Response) × (v : World) × (block w ≡ (done r, v))
          × ((transaction env op block w).1.db ≡ v.db))
  unfolding transaction close
  transaction_kept = elim (Outcome-cases (block w).0) [
    | inl (r, e) ↦ elim (Answer-cases env.commit) [
      | inl committed' ↦ inr (r, (block w).1, ap (λ x. (x, (block w).1)) e, ground arith)
      | inr (inl refused') ↦ inl (ground arith)
      | inr (inr lost) ↦ inr (r, (block w).1, ap (λ x. (x, (block w).1)) e, ground arith)
    ]
    | inr (inl (e, f)) ↦ inl (ground arith)
    | inr (inr p) ↦ inl (ground arith)
  ]
