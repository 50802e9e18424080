-- ===== src/Transfers/Perform/Progress/Record.antt =====
-- The statements that record a payment go through, if the rows they write are allowed.
use high_performance_ledger.Prelude.{ℕ, suc, ◌≡◌, ◌≢◌, refl, true, false, some, ◌∷◌, arith}
use high_performance_ledger.Prelude.Int.{ℤ, pos, ◌≤ℤ◌}
use high_performance_ledger.Database.{Uuid, Transfer, Database, exists}
use high_performance_ledger.Database.Accounts.{set_balance}
use high_performance_ledger.Database.Records.{
  has_transfer_id, has_entry_id, transfer_allowed, entry_allowed, insert_transfer, insert_entry,
}
use high_performance_ledger.Idempotency.{Scope, complete_records, store_success}
use high_performance_ledger.Tx.{
  Env, committed, World, Tx, tick, call_out, ◌>>◌, pure, draw_uuid, execute,
}
use high_performance_ledger.Tx.Laws.{
  Returns, >>=-Returns, pure-Returns, draw_uuid-Returns, query-Returns, execute-Returns, >>-Returns,
}
use high_performance_ledger.ApiError.{AppError, internal}
use high_performance_ledger.Gate.{Response}
use high_performance_ledger.Transfers.Record.{
  Plan, transfer_row, debit_entry, credit_entry, update_balance, insert_entry_row, record_transfer,
  response_body,
}
use high_performance_ledger.Transfers.Perform.{store_plan}

-- No call fails, the COMMIT is done, and the ids that are drawn are new.
pub record IsReliable (env : Env) (db : Database) : Type 0 where
  pub works : (n : ℕ) → env.fails n ≡ false
  pub commits : env.commit ≡ committed
  pub new_transfer : (n : ℕ) → exists (has_transfer_id (env.new_v4 n)) db.transfers ≡ false
  pub new_entry : (n : ℕ) → exists (has_entry_id (env.new_v4 n)) db.account_entries ≡ false
  pub differ : (n m : ℕ) → n ≢ m → env.new_v4 n ≢ env.new_v4 m

-- A plan whose rows meet the CHECKs of the tables.
pub record IsStorable (plan : Plan) : Type 0 where
  pub distinct : plan.source_id ≢ plan.destination_id
  pub positive :
      (pos 1 ≤ℤ plan.amount_minor)
      × (pos 1 ≤ℤ plan.price.destination_amount_minor)
      × (pos 0 ≤ℤ plan.price.fee_amount_minor)
      × (pos 1 ≤ℤ plan.price.total_source_debit_minor)

module _ (env : Env) (w : World) (r : IsReliable env w.db) (scope : Scope) (plan : Plan)
    (p : IsStorable plan) where
  row-allowed : transfer_allowed (transfer_row env plan (env.new_v4 w.calls)) w.db.transfers ≡ true
  row-allowed =
      let new = r.new_transfer w.calls in
      let distinct = p.distinct in let amounts = p.positive in ground arith

  debit-allowed :
      (n : ℕ) (id : Uuid)
      → entry_allowed (debit_entry env plan (env.new_v4 n) id) w.db.account_entries ≡ true
  debit-allowed n id =
      let new = r.new_entry n in
      let distinct = p.distinct in let amounts = p.positive in ground arith

  credit-allowed :
      (n m : ℕ) (id : Uuid)
      → n ≢ m
      → entry_allowed
          (credit_entry env plan (env.new_v4 m) id)
          (debit_entry env plan (env.new_v4 n) id ∷ w.db.account_entries)
        ≡ true
  credit-allowed n m id h =
      let new = r.new_entry m in
      let differ = r.differ n m h in
      let distinct = p.distinct in let amounts = p.positive in ground arith

  abbrev id : Uuid
  id = env.new_v4 w.calls

  abbrev n4 : ℕ
  n4 = suc (suc (suc (suc w.calls)))

  abbrev row : Transfer
  row = transfer_row env plan id

  abbrev with_row : Database
  with_row = record w.db { transfers = row ∷ w.db.transfers }

  abbrev with_source : Database
  with_source = record with_row {
    accounts = set_balance plan.source_id plan.source_balance w.db.accounts;
  }

  abbrev with_destination : Database
  with_destination = record with_row {
    accounts =
        set_balance plan.destination_id plan.destination_balance
          (set_balance plan.source_id plan.source_balance w.db.accounts);
  }

  abbrev with_debit : Database
  with_debit = record with_destination {
    account_entries = debit_entry env plan (env.new_v4 n4) id ∷ w.db.account_entries;
  }

  abbrev with_credit : Database
  with_credit = record with_destination {
    account_entries =
        credit_entry env plan (env.new_v4 (suc (suc n4))) id
        ∷ debit_entry env plan (env.new_v4 n4) id
        ∷ w.db.account_entries;
  }

  abbrev with_tables : Database → ℕ → World
  with_tables d n = record w { db = d; calls = n }

  abbrev insert_debit : Tx AppError (Unit {0})
  insert_debit = insert_entry_row env (λ e. debit_entry env plan e id)

  abbrev insert_credit : Tx AppError (Unit {0})
  insert_credit = insert_entry_row env (λ e. credit_entry env plan e id)

  insert_debit-Returns :
      Returns insert_debit
        (with_tables with_destination n4)
        tt
        (with_tables with_debit (suc (suc n4)))
  unfolding insert_entry_row insert_entry
  insert_debit-Returns =
      let allowed = debit-allowed n4 id in
      >>=-Returns (draw_uuid env)
        (λ e. execute env internal (insert_entry (debit_entry env plan e id)))
        (draw_uuid-Returns env (with_tables with_destination n4))
        (execute-Returns env internal (insert_entry (debit_entry env plan (env.new_v4 n4) id))
          (with_tables with_destination (suc n4)) with_debit (r.works (suc n4)) (rw allowed))

  insert_credit-Returns :
      Returns insert_credit
        (with_tables with_debit (suc (suc n4)))
        tt
        (with_tables with_credit (suc (suc (suc (suc n4)))))
  unfolding insert_entry_row insert_entry
  insert_credit-Returns =
      let allowed = credit-allowed n4 (suc (suc n4)) id (λ e. omega arith) in
      >>=-Returns (draw_uuid env)
        (λ e. execute env internal (insert_entry (credit_entry env plan e id)))
        (draw_uuid-Returns env (with_tables with_debit (suc (suc n4))))
        (execute-Returns env internal
          (insert_entry (credit_entry env plan (env.new_v4 (suc (suc n4))) id))
          (with_tables with_debit (suc (suc (suc n4)))) with_credit (r.works (suc (suc (suc n4))))
          (rw allowed))

  update_balance-Returns :
      (account_id : Uuid) (balance : ℤ) (v : World)
      → Returns (update_balance env account_id balance) v tt (record (tick v) {
        db = record v.db { accounts = set_balance account_id balance v.db.accounts };
      })
  unfolding update_balance
  update_balance-Returns account_id balance v =
      execute-Returns env internal
        (λ d. some (record d { accounts = set_balance account_id balance d.accounts })) v _
        (r.works v.calls) refl

  record_transfer-Returns :
      Returns (record_transfer env plan) w id (with_tables with_credit (suc (suc (suc (suc n4)))))
  unfolding record_transfer insert_transfer
  record_transfer-Returns =
      let allowed = row-allowed in
      let last = insert_credit >> pure id in
      let entries = insert_debit >> last in
      let second = update_balance env plan.destination_id plan.destination_balance >> entries in
      let first = update_balance env plan.source_id plan.source_balance >> second in
      >>=-Returns (draw_uuid env)
        (λ t.
          execute env internal (insert_transfer (transfer_row env plan t))
          >> (update_balance env plan.source_id plan.source_balance
              >> (update_balance env plan.destination_id plan.destination_balance
                  >> (insert_entry_row env (λ e. debit_entry env plan e t)
                      >> (insert_entry_row env (λ e. credit_entry env plan e t) >> pure t)))))
        (draw_uuid-Returns env w)
        (>>-Returns (execute env internal (insert_transfer row)) first
          (execute-Returns env internal (insert_transfer row) (tick w) with_row
            (r.works (suc w.calls)) (rw allowed))
          (>>-Returns (update_balance env plan.source_id plan.source_balance) second
            (update_balance-Returns plan.source_id plan.source_balance
              (with_tables with_row (suc (suc w.calls))))
            (>>-Returns (update_balance env plan.destination_id plan.destination_balance) entries
              (update_balance-Returns plan.destination_id plan.destination_balance
                (with_tables with_source (suc (suc (suc w.calls)))))
              (>>-Returns insert_debit last insert_debit-Returns (
                >>-Returns insert_credit (pure id) insert_credit-Returns
                  (pure-Returns id (with_tables with_credit (suc (suc (suc (suc n4)))))))))))

  abbrev pub answer : Response
  answer = record { status = 201; body = response_body env plan id }

  -- The result is stored behind the last statement.
  abbrev n9 : ℕ
  n9 = suc (suc (suc (suc (suc n4))))

  abbrev with_result : Database
  with_result = record with_credit {
    idempotency_records =
        complete_records scope 201 (response_body env plan id) id w.db.idempotency_records;
  }

  abbrev pub stored : World
  stored = with_tables with_result (suc n9)

  store_success-Returns :
      Returns
        (store_success env scope 201 (response_body env plan id) id)
        (with_tables with_credit n9)
        tt
        stored
  unfolding store_success
  store_success-Returns =
      execute-Returns env internal
        (λ d. some (record d {
          idempotency_records =
              complete_records scope 201 (response_body env plan id) id d.idempotency_records;
        }))
        (with_tables with_credit n9) with_result (r.works n9) refl

  pub store_plan-Returns : Returns (store_plan env scope plan) w answer stored
  unfolding store_plan
  store_plan-Returns =
      >>=-Returns (record_transfer env plan)
        (λ t.
          call_out env internal
          >> (store_success env scope 201 (response_body env plan t) t
              >> pure (record { status = 201; body = response_body env plan t })))
        record_transfer-Returns
        (>>-Returns (call_out env internal)
          (store_success env scope 201 (response_body env plan id) id >> pure answer)
          (query-Returns env internal (λ d. tt) (with_tables with_credit (suc (suc (suc (suc n4)))))
            (r.works (suc (suc (suc (suc n4))))))
          (>>-Returns (store_success env scope 201 (response_body env plan id) id) (pure answer)
            store_success-Returns (pure-Returns answer stored)))
