-- ===== src/Reversals/Safe.antt =====
-- `reverse_transfer` does not panic on consistent tables.
use high_performance_ledger.Prelude.{
  ℕ, ◌<◌, ◌≡◌, ap, none, some, Option, List, arith, inl, inr, Option-cases,
}
use high_performance_ledger.Prelude.Int.{ℤ, i64_mod}
use high_performance_ledger.Prelude.Text.{Text}
use high_performance_ledger.Prelude.Result.{Result-cases}
use high_performance_ledger.Observability.{FinancialOperation}
use high_performance_ledger.ApiError.{internal, not_found}
use high_performance_ledger.Database.{Transfer}
use high_performance_ledger.Database.Accounts.{UniqueIds}
use high_performance_ledger.Database.Records.{insert_transfer}
use high_performance_ledger.Idempotency.{from_headers, reversal_fingerprint, store_success}
use high_performance_ledger.Tx.{Env, World, done, ◌>>=◌, lift, execute, call_out, draw_uuid, tick}
use high_performance_ledger.Tx.Laws.{
  IsSafe, >>=-IsSafe, chain-IsSafe, query_then-IsSafe, or_fail_then-IsSafe, lift-IsSafe,
  pure-IsSafe, draw_uuid-IsSafe, query-IsSafe, execute-IsSafe,
}
use high_performance_ledger.Gate.{Response, gate}
use high_performance_ledger.Gate.Atomic.{gate_owned}
use high_performance_ledger.Gate.Safe.{AllComplete, gate-IsSafe, transaction-IsSafe}
use high_performance_ledger.Transfers.Price.{Pair, lock_pair}
use high_performance_ledger.Transfers.Record.{update_balance, insert_entry_row}
use high_performance_ledger.Transfers.Perform.Safe.{
  lock_pair-IsSafe, update_balance-IsSafe, insert_entry_row-IsSafe, store_success-IsSafe,
}
use high_performance_ledger.Reversals.{
  Undo, find_transfer, check_original, check_accounts, restored_balances, reversal_row,
  reversal_debit, reversal_credit, record_reversal, reversal_body, answer_reversal, with_balances,
  with_pair, with_checked, with_original, with_found, perform_reversal, after_gate, undo_of,
  reversal_block, reverse_transfer,
}
use high_performance_ledger.Reversals.Stages.{check_original-done}

check_original-IsSafe :
    (env : Env) (u : Undo) (original : Transfer) (w : World)
    → IsSafe (check_original env u original) w
unfolding check_original
check_original-IsSafe env u original w = record { safe = λ h. ground arith }

record_reversal-IsSafe :
    (env : Env) (u : Undo) (original : Transfer) (balances : ℤ × ℤ) (w : World)
    → IsSafe (record_reversal env u original balances) w
unfolding record_reversal
record_reversal-IsSafe env u original (s, d) =
    chain-IsSafe (draw_uuid env) _ (draw_uuid-IsSafe env) λ id.
      chain-IsSafe (execute env internal (insert_transfer (reversal_row env u original id))) _
        (execute-IsSafe env internal (insert_transfer (reversal_row env u original id)))
        λ _.
          chain-IsSafe (update_balance env original.destination_account_id s) _
            (update_balance-IsSafe env original.destination_account_id s)
            λ _.
              chain-IsSafe (update_balance env original.source_account_id d) _
                (update_balance-IsSafe env original.source_account_id d)
                λ _.
                  chain-IsSafe (insert_entry_row env (λ i. reversal_debit env original i id)) _
                    (insert_entry_row-IsSafe env (λ i. reversal_debit env original i id))
                    λ _.
                      chain-IsSafe (insert_entry_row env (λ i. reversal_credit env original i id)) _
                        (insert_entry_row-IsSafe env (λ i. reversal_credit env original i id))
                        λ _. pure-IsSafe id

with_balances-IsSafe :
    (env : Env) (u : Undo) (original : Transfer) (a : Pair) (balances : ℤ × ℤ) (w : World)
    → IsSafe (with_balances env u original a balances) w
unfolding with_balances answer_reversal
with_balances-IsSafe env u original a balances =
    chain-IsSafe (record_reversal env u original balances)
      (answer_reversal env u original a balances) (record_reversal-IsSafe env u original balances)
      λ id. chain-IsSafe (call_out env internal) _ (query-IsSafe env internal (λ db. tt)) λ _.
        chain-IsSafe (store_success env u.scope 201 (reversal_body env u original a balances id) id)
          _ (store_success-IsSafe env u.scope 201 (reversal_body env u original a balances id) id)
          λ _.
            pure-IsSafe (record { status = 201; body = reversal_body env u original a balances id })

with_pair-IsSafe :
    (env : Env) (u : Undo) (original : Transfer) (a : Pair) (w : World)
    → IsSafe (with_pair env u original a) w
unfolding with_pair
with_pair-IsSafe env u original a =
    chain-IsSafe (lift (check_accounts original a))
      (λ _. lift (restored_balances original a) >>= with_balances env u original a)
      (lift-IsSafe (check_accounts original a))
      λ _.
        chain-IsSafe (lift (restored_balances original a)) (with_balances env u original a)
          (lift-IsSafe (restored_balances original a))
          λ balances. with_balances-IsSafe env u original a balances

with_original-IsSafe :
    (env : Env) (u : Undo) (original : Transfer) (w : World)
    → UniqueIds w.db.accounts
    → IsSafe (with_original env u original) w
unfolding with_original with_checked
with_original-IsSafe env u original w unique =
    >>=-IsSafe (check_original env u original) (with_checked env u original) w
      (check_original-IsSafe env u original w)
      λ _ e.
        let (_, _, _, db, _) =
          check_original-done env u original w (check_original env u original w).1
            (ap (λ x. (x, (check_original env u original w).1)) e) in
        >>=-IsSafe (lock_pair env original.destination_account_id original.source_account_id)
          (with_pair env u original) (check_original env u original w).1
          (lock_pair-IsSafe env original.destination_account_id original.source_account_id
            (check_original env u original w).1 (rw db unique))
          λ a _. with_pair-IsSafe env u original a _

perform_reversal-IsSafe :
    (env : Env) (u : Undo) (w : World) → UniqueIds w.db.accounts → IsSafe (perform_reversal env u) w
unfolding perform_reversal with_found
perform_reversal-IsSafe env u w unique =
    query_then-IsSafe (with_found env u) w env internal (find_transfer u.original_id) (
      or_fail_then-IsSafe (with_original env u) (tick w) (find_transfer u.original_id w.db)
        not_found λ original _. with_original-IsSafe env u original (tick w) unique)

module _ (env : Env) (retention : ℕ) (u : Undo) (w : World) (unique : UniqueIds w.db.accounts)
    (complete : AllComplete w.db.idempotency_records) (fits : retention < i64_mod) where
  after_gate-IsSafe :
      (x : Option Response) (v : World)
      → gate env FinancialOperation.reversal u.scope
          (reversal_fingerprint env u.original_id)
          retention
          w
        ≡ (done x, v)
      → IsSafe (after_gate env u x) v
  unfolding after_gate
  after_gate-IsSafe (some r) v h = pure-IsSafe r v
  after_gate-IsSafe none v h =
      let (db, _, _) =
        gate_owned env FinancialOperation.reversal u.scope (reversal_fingerprint env u.original_id)
          retention w v h in
      perform_reversal-IsSafe env u v (rw db unique)

  reversal_block-IsSafe : IsSafe (reversal_block env retention u) w
  unfolding reversal_block
  reversal_block-IsSafe =
      let passes =
        gate env FinancialOperation.reversal u.scope (reversal_fingerprint env u.original_id)
          retention in
      >>=-IsSafe passes (after_gate env u) w
        (gate-IsSafe env FinancialOperation.reversal u.scope
          (reversal_fingerprint env u.original_id) retention w complete fits)
        λ x e. after_gate-IsSafe x (passes w).1 (ap (λ a. (a, (passes w).1)) e)

pub reverse_transfer-IsSafe :
    (env : Env) (retention : ℕ) (client_id : Text) (headers : List Text) (transfer_id : Text)
    (w : World)
    → UniqueIds w.db.accounts
    → AllComplete w.db.idempotency_records
    → retention < i64_mod
    → IsSafe (reverse_transfer env retention client_id headers transfer_id) w
unfolding reverse_transfer
reverse_transfer-IsSafe env retention client_id headers transfer_id w unique complete fits =
    elim (Result-cases (from_headers env headers)) [
      | inr (e, refused) ↦ record { safe = λ h. ground arith }
      | inl (key, keyed) ↦ elim (Option-cases (env.parse_uuid transfer_id)) [
        | inl malformed ↦ record { safe = λ h. ground arith }
        | inr (id, parsed) ↦
            let u = undo_of client_id key id in
            let inner = reversal_block-IsSafe env retention u (tick w) unique complete fits in
            let safe =
              (transaction-IsSafe env FinancialOperation.reversal (reversal_block env retention u)
                (tick w) inner).safe in
            record { safe = λ h. ground arith }
      ]
    ]
