-- ===== src/Transfers/Perform/Safe.antt =====
-- The `expect`s behind the gate: with distinct ids of accounts, `perform_transfer` does not panic.
use high_performance_ledger.Prelude.{ℕ, ◌≡◌, ap, some, Option, arith, inl, inr, Option-cases}
use native.Mathlib.Decide.{ℕ_discrete}
use high_performance_ledger.ApiError.{internal}
use high_performance_ledger.Database.{
  Uuid, AccountEntry, Body, Timestamp, ExchangeRateRow, FeeRuleRow,
}
use high_performance_ledger.Database.Accounts.{
  find_account, set_balance, UniqueIds, find-lock_left, find-lock_right, length-lock,
  length-lock_same,
}
use high_performance_ledger.Database.Records.{insert_transfer, insert_entry}
use high_performance_ledger.Idempotency.{Scope, complete_records, store_success}
use high_performance_ledger.Fx.Select.{select_exchange_rate, select_fee_rule}
use high_performance_ledger.Tx.{Env, World, done, ◌>>=◌, lift, query, execute, call_out, draw_uuid}
use high_performance_ledger.Tx.Laws.{
  IsSafe, >>=-IsSafe, lift-IsSafe, query-IsSafe, execute-IsSafe, chain-IsSafe, pure-IsSafe,
  draw_uuid-IsSafe,
}
use high_performance_ledger.Transfers.Request.{Preliminary}
use high_performance_ledger.Transfers.Price.{Pair, load_configuration, lock_pair, check_pair}
use high_performance_ledger.Prelude.Text.{Text}
use high_performance_ledger.Prelude.Int.{ℤ}
use high_performance_ledger.Transfers.Record.{
  Plan, transfer_row, debit_entry, credit_entry, update_balance, insert_entry_row, response_body,
  record_transfer,
}
use high_performance_ledger.Transfers.Perform.{
  Order, make_plan, store_plan, with_accounts, with_configuration, at_time, perform_transfer,
}
use high_performance_ledger.Transfers.Perform.Configuration.{load_configuration-done}

-- Two locked rows are those of the two ids.
pub lock_pair-IsSafe :
    (env : Env) (i j : Uuid) (w : World) → UniqueIds w.db.accounts → IsSafe (lock_pair env i j) w
unfolding lock_pair
lock_pair-IsSafe env i j w u = elim (ℕ_discrete i j) [
  | yes same ↦
      let count = length-lock_same i w.db.accounts u in
      elim (Option-cases (find_account i w.db.accounts)) [
        | inl missing ↦ record { safe = λ p. ground arith }
        | inr (a, found) ↦ record { safe = λ p. ground arith }
      ]
  | no differ ↦
      let count = length-lock i j w.db.accounts differ u in
      let left = find-lock_left i j w.db.accounts in
      let right = find-lock_right i j w.db.accounts in
      elim (Option-cases (find_account i w.db.accounts)) [
        | inl missing ↦ elim (Option-cases (find_account j w.db.accounts)) [
          | inl missing' ↦ record { safe = λ p. ground arith }
          | inr (b, found') ↦ record { safe = λ p. ground arith }
        ]
        | inr (a, found) ↦ elim (Option-cases (find_account j w.db.accounts)) [
          | inl missing' ↦ record { safe = λ p. ground arith }
          | inr (b, found') ↦ record { safe = λ p. ground arith }
        ]
      ]
]

load_configuration-IsSafe :
    (env : Env) (operation : Text) (p : Preliminary) (time : Timestamp) (w : World)
    → IsSafe (load_configuration env operation p time) w
unfolding load_configuration select_exchange_rate select_fee_rule
load_configuration-IsSafe env operation p time w = record { safe = λ h. ground arith }

pub update_balance-IsSafe :
    (env : Env) (id : Uuid) (balance : ℤ) (w : World) → IsSafe (update_balance env id balance) w
unfolding update_balance
update_balance-IsSafe env id balance =
    execute-IsSafe env internal
      λ db. some (record db { accounts = set_balance id balance db.accounts })

pub insert_entry_row-IsSafe :
    (env : Env) (entry : Uuid → AccountEntry) (w : World) → IsSafe (insert_entry_row env entry) w
unfolding insert_entry_row
insert_entry_row-IsSafe env entry =
    chain-IsSafe (draw_uuid env) _ (draw_uuid-IsSafe env)
      λ id. execute-IsSafe env internal (insert_entry (entry id))

pub record_transfer-IsSafe : (env : Env) (p : Plan) (w : World) → IsSafe (record_transfer env p) w
unfolding record_transfer
record_transfer-IsSafe env p = chain-IsSafe (draw_uuid env) _ (draw_uuid-IsSafe env) λ id.
    chain-IsSafe (execute env internal (insert_transfer (transfer_row env p id))) _
      (execute-IsSafe env internal (insert_transfer (transfer_row env p id)))
      λ _.
        chain-IsSafe (update_balance env p.source_id p.source_balance) _
          (update_balance-IsSafe env p.source_id p.source_balance)
          λ _.
            chain-IsSafe (update_balance env p.destination_id p.destination_balance) _
              (update_balance-IsSafe env p.destination_id p.destination_balance)
              λ _.
                chain-IsSafe (insert_entry_row env (λ i. debit_entry env p i id)) _
                  (insert_entry_row-IsSafe env (λ i. debit_entry env p i id))
                  λ _.
                    chain-IsSafe (insert_entry_row env (λ i. credit_entry env p i id)) _
                      (insert_entry_row-IsSafe env (λ i. credit_entry env p i id))
                      λ _. pure-IsSafe id

pub store_success-IsSafe :
    (env : Env) (s : Scope) (http_status : ℕ) (body : Body) (id : Uuid) (w : World)
    → IsSafe (store_success env s http_status body id) w
unfolding store_success
store_success-IsSafe env s http_status body id = execute-IsSafe env internal λ db. some (record db {
  idempotency_records = complete_records s http_status body id db.idempotency_records;
})

store_plan-IsSafe : (env : Env) (s : Scope) (p : Plan) (w : World) → IsSafe (store_plan env s p) w
unfolding store_plan store_success
store_plan-IsSafe env s p =
    chain-IsSafe (record_transfer env p) _ (record_transfer-IsSafe env p) λ id.
      chain-IsSafe (call_out env internal) _ (query-IsSafe env internal (λ db. tt)) λ _.
        chain-IsSafe (store_success env s 201 (response_body env p id) id) _
          (store_success-IsSafe env s 201 (response_body env p id) id)
          λ _. pure-IsSafe (record { status = 201; body = response_body env p id })

with_accounts-IsSafe :
    (env : Env) (o : Order) (c : Option (ExchangeRateRow × FeeRuleRow)) (a : Pair) (w : World)
    → IsSafe (with_accounts env o c a) w
unfolding with_accounts
with_accounts-IsSafe env o c a w =
    >>=-IsSafe (lift (check_pair o.client_id o.preliminary a))
      (λ _. lift (make_plan o a c) >>= store_plan env o.scope) w
      (lift-IsSafe (check_pair o.client_id o.preliminary a) w)
      λ _ e.
        >>=-IsSafe (lift (make_plan o a c)) (store_plan env o.scope) _
          (lift-IsSafe (make_plan o a c) _) λ plan e'. store_plan-IsSafe env o.scope plan _

-- The configuration is read from the tables that the gate left.
kept :
    (env : Env) (o : Order) (time : Timestamp) (w : World)
    (c : Option (ExchangeRateRow × FeeRuleRow))
    → UniqueIds w.db.accounts
    → (load_configuration env o.operation o.preliminary time w).0 ≡ done c
    → UniqueIds (load_configuration env o.operation o.preliminary time w).1.db.accounts
kept env o time w c u e =
    let (db, _, _, _) =
      load_configuration-done env o.operation o.preliminary time w
        (load_configuration env o.operation o.preliminary time w).1 c
        (ap (λ x. (x, (load_configuration env o.operation o.preliminary time w).1)) e) in
    rw db u

pub perform_transfer-IsSafe :
    (env : Env) (o : Order) (w : World)
    → UniqueIds w.db.accounts
    → IsSafe (perform_transfer env o) w
unfolding perform_transfer at_time with_configuration
perform_transfer-IsSafe env o w u =
    >>=-IsSafe (query env internal (λ db. env.now)) (at_time env o) w
      (query-IsSafe env internal (λ db. env.now) w)
      λ time e.
        >>=-IsSafe (load_configuration env o.operation o.preliminary time)
          (with_configuration env o) _
          (load_configuration-IsSafe env o.operation o.preliminary time _)
          λ c e'.
            >>=-IsSafe (lock_pair env o.checked.source o.checked.destination)
              (with_accounts env o c) _
              (lock_pair-IsSafe env o.checked.source o.checked.destination _
                (kept env o time _ c u e'))
              λ a e''. with_accounts-IsSafe env o c a _
