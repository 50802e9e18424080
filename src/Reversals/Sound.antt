-- ===== src/Reversals/Sound.antt =====
-- What `reverse_transfer` has done when it answers with a response.
use high_performance_ledger.Prelude.{
  ℕ, ◌≡◌, ◌⊎◌, refl, sym, ◌∙◌, ap, Option, none, some, List, arith, inl, inr, Option-cases,
  Bool-cases,
}
use high_performance_ledger.Prelude.Text.{Text}
use high_performance_ledger.Prelude.Result.{ok, Result-cases}
use high_performance_ledger.Observability.{FinancialOperation}
use high_performance_ledger.Database.{Database}
use high_performance_ledger.Idempotency.{find_record, from_headers, reversal_fingerprint}
use high_performance_ledger.Tx.{Env, World, done, tick}
use high_performance_ledger.Tx.Laws.{>>=-done}
use high_performance_ledger.Gate.{Response, gate, transaction}
use high_performance_ledger.Gate.Atomic.{
  IsStored, gate_owned, gate_replayed, transaction-done, transaction_kept,
}
use high_performance_ledger.Transfers.Create.Sound.{reserved}
use high_performance_ledger.Reversals.{Undo, undo_of, after_gate, reversal_block, reverse_transfer}
use high_performance_ledger.Reversals.Spec.{Reversed}
use high_performance_ledger.Reversals.Effect.{perform_reversal-Reversed}

-- What is read of a request for a reversal.
pub record IsUndo (env : Env) (client_id : Text) (headers : List Text) (transfer_id : Text)
    (u : Undo) : Type 0 where
  pub key : Text
  pub keyed : from_headers env headers ≡ ok key
  pub original : env.parse_uuid transfer_id ≡ some u.original_id
  pub is : u ≡ undo_of client_id key u.original_id

-- The reversal was carried out under a key that was not in use.
pub record IsReversed (env : Env) (retention : ℕ) (u : Undo) (before after : Database)
    (r : Response) : Type 0 where
  pub new_key : find_record u.scope before.idempotency_records ≡ none
  pub reversed :
      Reversed u
        (reserved env retention u.scope (reversal_fingerprint env u.original_id) before)
        after
        r

-- The response is the stored one of the same request, and nothing is changed.
pub record IsRepeated (env : Env) (u : Undo) (before after : Database) (r : Response) : Type 0 where
  pub stored : IsStored env u.scope (reversal_fingerprint env u.original_id) before r
  pub unchanged : after ≡ before

module _ (env : Env) (retention : ℕ) (u : Undo) (w v w' : World) (r : Response) where
  owned-IsReversed :
      gate env FinancialOperation.reversal u.scope
          (reversal_fingerprint env u.original_id)
          retention
          w
        ≡ (done none, v)
      → after_gate env u none v ≡ (done r, w')
      → IsReversed env retention u w.db w'.db r
  unfolding after_gate
  owned-IsReversed h k =
      let (db, new_key, _) =
        gate_owned env FinancialOperation.reversal u.scope (reversal_fingerprint env u.original_id)
          retention w v h in
      let (reversed, _) = perform_reversal-Reversed env u v w' r k in
      record { new_key = new_key; reversed = rw (← db) reversed }

  replayed-IsRepeated :
      (r' : Response)
      → gate env FinancialOperation.reversal u.scope
          (reversal_fingerprint env u.original_id)
          retention
          w
        ≡ (done (some r'), v)
      → after_gate env u (some r') v ≡ (done r, w')
      → IsRepeated env u w.db w'.db r
  unfolding after_gate
  replayed-IsRepeated r' h k =
      let (stored, db, _) =
        gate_replayed env FinancialOperation.reversal u.scope
          (reversal_fingerprint env u.original_id) retention w v r' h in
      let same : r' ≡ r = cc in
      let stay : v ≡ w' = cc in record { stored = rw (← same) stored; unchanged = rw (← stay) db }

-- Both answers of the gate.
gated_sound :
    (env : Env) (retention : ℕ) (u : Undo) (x : Option Response) (w v w' : World) (r : Response)
    → gate env FinancialOperation.reversal u.scope
        (reversal_fingerprint env u.original_id)
        retention
        w
      ≡ (done x, v)
    → after_gate env u x v ≡ (done r, w')
    → IsReversed env retention u w.db w'.db r ⊎ IsRepeated env u w.db w'.db r
gated_sound env retention u none w v w' r e k = inl (owned-IsReversed env retention u w v w' r e k)
gated_sound env retention u (some r') w v w' r e k =
    inr (replayed-IsRepeated env retention u w v w' r r' e k)

reversal_block_sound :
    (env : Env) (retention : ℕ) (u : Undo) (w w' : World) (r : Response)
    → reversal_block env retention u w ≡ (done r, w')
    → IsReversed env retention u w.db w'.db r ⊎ IsRepeated env u w.db w'.db r
unfolding reversal_block
reversal_block_sound env retention u w w' r h =
    let (x, v, e, k) =
      >>=-done
        (gate env FinancialOperation.reversal u.scope (reversal_fingerprint env u.original_id)
          retention)
        (after_gate env u) w h in
    gated_sound env retention u x w v w' r e k

-- A run of `reverse_transfer` touches no table, or is the run of its transaction.
pub reversal_opened :
    (env : Env) (retention : ℕ) (client_id : Text) (headers : List Text) (transfer_id : Text)
    (w : World)
    → ((u : Undo) × IsUndo env client_id headers transfer_id u
        × (reverse_transfer env retention client_id headers transfer_id w
            ≡ transaction env FinancialOperation.reversal
                (reversal_block env retention u)
                (tick w)))
      ⊎ (((reverse_transfer env retention client_id headers transfer_id w).1.db ≡ w.db)
          × ((r : Response) (w' : World)
              → reverse_transfer env retention client_id headers transfer_id w ≡ (done r, w')
              → ⊥))
unfolding reverse_transfer
reversal_opened env retention client_id headers transfer_id w =
    elim (Result-cases (from_headers env headers)) [
      | inr (e, refused) ↦ inr (ground arith, λ r w' h. ground arith)
      | inl (key, keyed) ↦ elim (Option-cases (env.parse_uuid transfer_id)) [
        | inl malformed ↦ inr (ground arith, λ r w' h. ground arith)
        | inr (id, parsed) ↦ elim (Bool-cases (env.fails w.calls)) [
          | inl down ↦ inr (ground arith, λ r w' h. ground arith)
          | inr up ↦ inl (
            undo_of client_id key id,
            record { key = key; keyed = keyed; original = parsed; is = refl },
            ground arith,
          )
        ]
      ]
    ]

-- A response of `reverse_transfer` answers the request that its key and path make: the reversal was
-- carried out now, under a new key, or the stored response of the same request is repeated and no
-- table is changed.
pub reverse_transfer_sound :
    (env : Env) (retention : ℕ) (client_id : Text) (headers : List Text) (transfer_id : Text)
    (w w' : World) (r : Response)
    → reverse_transfer env retention client_id headers transfer_id w ≡ (done r, w')
    → (u : Undo) × IsUndo env client_id headers transfer_id u
      × (IsReversed env retention u w.db w'.db r ⊎ IsRepeated env u w.db w'.db r)
reverse_transfer_sound env retention client_id headers transfer_id w w' r h =
    elim (reversal_opened env retention client_id headers transfer_id w) [
      | inr (_, never) ↦ absurd (never r w' h)
      | inl (u, read, is) ↦
          let block = reversal_block env retention u in
          let (answer, _, db, _) =
            transaction-done env FinancialOperation.reversal block (tick w) r w' (sym is ∙ h) in
          (
            u,
            read,
            rw db (
                reversal_block_sound env retention u (tick w) (block (tick w)).1 r
                  (ap (λ x. (x, (block (tick w)).1)) answer)),
          )
    ]

-- Whatever the outcome of a request for a reversal, also if it panics or the answer to its COMMIT is
-- lost: the tables are as they were, or the reversal was carried out in full.
pub reverse_transfer_atomic :
    (env : Env) (retention : ℕ) (client_id : Text) (headers : List Text) (transfer_id : Text)
    (w : World)
    → ((reverse_transfer env retention client_id headers transfer_id w).1.db ≡ w.db)
      ⊎ ((u : Undo) × (r : Response) × IsUndo env client_id headers transfer_id u
          × IsReversed env retention u w.db
              (reverse_transfer env retention client_id headers transfer_id w).1.db
              r)
reverse_transfer_atomic env retention client_id headers transfer_id w =
    elim (reversal_opened env retention client_id headers transfer_id w) [
      | inr (kept, _) ↦ inl kept
      | inl (u, read, is) ↦
          let block = reversal_block env retention u in
          elim (transaction_kept env FinancialOperation.reversal block (tick w)) [
            | inl kept ↦ inl (ap (λ x. x.1.db) is ∙ kept)
            | inr (r, v, e, stored) ↦ elim (reversal_block_sound env retention u (tick w) v r e) [
              | inl reversed ↦ inr (u, r, read, rw (is, stored) reversed)
              | inr repeated ↦ inl (ap (λ x. x.1.db) is ∙ stored ∙ repeated.unchanged)
            ]
          ]
    ]
