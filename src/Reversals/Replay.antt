-- ===== src/Reversals/Replay.antt =====
-- A reversal that is asked for again under the same key.
use high_performance_ledger.Prelude.{
  ℕ, ◌≤◌, ◌≡◌, ◌⊎◌, refl, ◌∙◌, false, some, List, arith, suc, inl, inr,
}
use high_performance_ledger.Prelude.Text.{Text, =t_refl}
use high_performance_ledger.Observability.{FinancialOperation}
use high_performance_ledger.Database.{Database}
use high_performance_ledger.Idempotency.{reservation, with_result, reversal_fingerprint}
use high_performance_ledger.Tx.{Env, committed, World, done, tick}
use high_performance_ledger.Gate.{Response, transaction}
use high_performance_ledger.Gate.Atomic.{IsStored, transaction_commits}
use high_performance_ledger.Transfers.Create.Replay.{gate-stored}
use high_performance_ledger.Reversals.{Undo, after_gate, reversal_block, reverse_transfer}
use high_performance_ledger.Reversals.Sound.{IsUndo, IsReversed, IsRepeated}

-- A reversal that was carried out is stored.
IsReversed-IsStored :
    (env : Env) (retention : ℕ) (u : Undo) (before after : Database) (r : Response)
    → env.status_from_u16 201 ≡ some 201
    → IsReversed env retention u before after r
    → IsStored env u.scope (reversal_fingerprint env u.original_id) after r
IsReversed-IsStored env retention u before after r h x = record {
  kept =
      with_result 201 r.body p.transfer.id
        (reservation env u.scope (reversal_fingerprint env u.original_id) retention);
  id = p.transfer.id;
  http_status = 201;
  found = rw p.kept (
      ground
        (arith, =t_refl u.scope.client_id, =t_refl u.scope.operation_type, =t_refl u.scope.key));
  same = refl;
  result = refl;
  status = rw p.created h;
}
  where
    open x use {reversed as p}

-- However a request was answered, its response is stored.
pub answered-IsStored :
    (env : Env) (retention : ℕ) (u : Undo) (before after : Database) (r : Response)
    → env.status_from_u16 201 ≡ some 201
    → IsReversed env retention u before after r ⊎ IsRepeated env u before after r
    → IsStored env u.scope (reversal_fingerprint env u.original_id) after r
answered-IsStored env retention u before after r h (inl x) =
    IsReversed-IsStored env retention u before after r h x
answered-IsStored env retention u before after r h (inr x) = rw x.unchanged x.stored

module _ (env : Env) (retention : ℕ) (client_id : Text) (headers : List Text) (transfer_id : Text)
    (w : World) (u : Undo) (reliable : (n : ℕ) → w.calls ≤ n → env.fails n ≡ false)
    (read : IsUndo env client_id headers transfer_id u) where
  begins :
      reverse_transfer env retention client_id headers transfer_id w
      ≡ transaction env FinancialOperation.reversal (reversal_block env retention u) (tick w)
  unfolding reverse_transfer
  begins =
      let keyed = read.keyed in
      let original = read.original in
      let is = read.is in let works = reliable w.calls (omega arith) in ground arith

  block-stored :
      (r : Response)
      → IsStored env u.scope (reversal_fingerprint env u.original_id) w.db r
      → (v : World) × (reversal_block env retention u (tick w) ≡ (done r, v)) × (v.db ≡ w.db)
  unfolding reversal_block after_gate
  block-stored r stored =
      let (v, e, db) =
        gate-stored env FinancialOperation.reversal u.scope (reversal_fingerprint env u.original_id)
          retention (tick w) r (reliable (suc w.calls) (omega arith)) stored in
      (v, ground arith, db)

  -- A reversal whose result is stored is answered by the stored response, and no table is changed.
  pub reverse_transfer_replays :
      (r : Response)
      → env.commit ≡ committed
      → IsStored env u.scope (reversal_fingerprint env u.original_id) w.db r
      → ((reverse_transfer env retention client_id headers transfer_id w).0 ≡ done r)
        × ((reverse_transfer env retention client_id headers transfer_id w).1.db ≡ w.db)
  reverse_transfer_replays r commits stored =
      let (v, e, db) = block-stored r stored in
      let (answer, kept) =
        transaction_commits env FinancialOperation.reversal (reversal_block env retention u)
          (tick w) r v commits e in
      rw begins (answer, kept ∙ db)
