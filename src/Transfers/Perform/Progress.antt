-- ===== src/Transfers/Perform/Progress.antt =====
-- A payment that nothing stands in the way of is made.
pub mod Record
use high_performance_ledger.Prelude.{ℕ, suc, ◌≡◌, ◌≢◌, refl, true, false, none, some, ◌∷◌, arith}
use high_performance_ledger.Prelude.Int.{ℤ, pos, ◌+ℤ◌, ◌-ℤ◌, ◌≤ℤ◌, IsI64}
use high_performance_ledger.Prelude.Text.{Text, =t_refl}
use high_performance_ledger.Prelude.Result.{ok}
use high_performance_ledger.Database.{
  Uuid, Timestamp, Account, active, Transfer, Kind, Database, exists,
}
use high_performance_ledger.Database.Accounts.{
  find_account, set_balance, UniqueIds, find-lock_left, find-lock_right, length-lock,
}
use high_performance_ledger.Database.Records.{
  has_transfer_id, has_entry_id, transfer_allowed, entry_allowed, insert_transfer, insert_entry,
}
use high_performance_ledger.Idempotency.{complete_records, transfer_operation, store_success}
use high_performance_ledger.Tx.{
  Env, committed, World, Tx, done, tick, lift, query, call_out, ◌>>=◌, ◌>>◌, pure, draw_uuid,
  execute,
}
use high_performance_ledger.Tx.Laws.{
  Returns, >>=-Returns, pure-Returns, draw_uuid-Returns, query-Returns, execute-Returns,
  lift-Returns, >>-Returns,
}
use high_performance_ledger.ApiError.{AppError, internal}
use high_performance_ledger.Gate.{Response}
use high_performance_ledger.Transfers.Request.{Preliminary}
use high_performance_ledger.Transfers.Price.{
  Pair, lock_pair, check_pair, load_configuration, price, new_balances,
}
use high_performance_ledger.Transfers.Record.{
  Plan, transfer_row, debit_entry, credit_entry, update_balance, insert_entry_row, record_transfer,
  response_body,
}
use high_performance_ledger.Transfers.Perform.Progress.Record.{
  IsReliable, IsStorable, answer, stored, store_plan-Returns,
}
use high_performance_ledger.Transfers.Perform.{
  Order, make_plan, store_plan, with_accounts, with_configuration, at_time, perform_transfer,
}

-- A payment in one currency that the source can make and the destination can take.
pub record IsPayable (o : Order) (db : Database) : Type 0 where
  pub source : Account
  pub destination : Account
  pub unique : UniqueIds db.accounts
  pub distinct : o.checked.source ≢ o.checked.destination
  pub found_source : find_account o.checked.source db.accounts ≡ some source
  pub found_destination : find_account o.checked.destination db.accounts ≡ some destination
  pub owned : source.owner_id ≡ o.client_id
  pub source_active : source.status ≡ active
  pub destination_active : destination.status ≡ active
  pub read : o.preliminary ≡ record {
    source_currency = source.currency;
    source_scale = source.currency_scale;
    destination_currency = destination.currency;
    destination_scale = destination.currency_scale;
  }
  pub plain : o.operation ≡ transfer_operation
  pub positive : pos 1 ≤ℤ o.amount_minor
  pub covered : o.amount_minor ≤ℤ source.balance_minor
  pub debit_fits : IsI64 (source.balance_minor -ℤ o.amount_minor)
  pub credit_fits : IsI64 (destination.balance_minor +ℤ o.amount_minor)

lock_pair-both :
    (env : Env) (i j : Uuid) (w : World) (a b : Account)
    → env.fails w.calls ≡ false
    → UniqueIds w.db.accounts
    → i ≢ j
    → find_account i w.db.accounts ≡ some a
    → find_account j w.db.accounts ≡ some b
    → lock_pair env i j w ≡ (done (record { source = a; destination = b }), tick w)
unfolding lock_pair
lock_pair-both env i j w a b works u differ fa fb =
    let count = length-lock i j w.db.accounts differ u in
    let left = find-lock_left i j w.db.accounts in
    let right = find-lock_right i j w.db.accounts in ground arith

module _ (o : Order) (db : Database) (p : IsPayable o db) where
  pair : Pair
  pair = record { source = p.source; destination = p.destination }

  plan : Plan
  plan = record {
    client_id = o.client_id;
    source_id = o.checked.source;
    destination_id = o.checked.destination;
    accounts = pair;
    amount_minor = o.amount_minor;
    price = record {
      kind = Kind.transfer;
      destination_amount_minor = o.amount_minor;
      fee_amount_minor = pos 0;
      total_source_debit_minor = o.amount_minor;
      fee_bps = none;
      exchange_rate = none;
      exchange_rate_id = none;
    };
    source_balance = p.source.balance_minor -ℤ o.amount_minor;
    destination_balance = p.destination.balance_minor +ℤ o.amount_minor;
  }

  check_pair-pair : check_pair o.client_id o.preliminary pair ≡ ok tt
  unfolding check_pair pair
  check_pair-pair =
      let owned = p.owned in
      let read = p.read in
      let s = p.source_active in
      let d = p.destination_active in
      let refl1 = =t_refl o.client_id in
      let refl2 = =t_refl p.source.currency in
      let refl3 = =t_refl p.destination.currency in ground arith

  make_plan-plan : make_plan o pair none ≡ ok plan
  unfolding make_plan price new_balances plan pair
  make_plan-plan =
      let covered = p.covered in
      let debit = p.debit_fits in let credit = p.credit_fits in ground arith

  zero_least : pos 0 ≤ℤ pos 0
  zero_least = ground arith

  plan-IsStorable : IsStorable plan
  unfolding plan pair
  plan-IsStorable = record {
    distinct = p.distinct;
    positive = (p.positive, p.positive, zero_least, p.positive);
  }

  module _ (env : Env) (w : World) (r : IsReliable env w.db) where
    abbrev created : Response
    created = answer env w r o.scope plan plan-IsStorable

    abbrev after : World
    after = stored env w r o.scope plan plan-IsStorable

    with_accounts-Returns : Returns (with_accounts env o none pair) w created after
    unfolding with_accounts
    with_accounts-Returns =
        >>-Returns (lift (check_pair o.client_id o.preliminary pair))
          (lift (make_plan o pair none) >>= store_plan env o.scope)
          (lift-Returns (check_pair o.client_id o.preliminary pair) w tt check_pair-pair)
          (>>=-Returns (lift (make_plan o pair none)) (store_plan env o.scope)
            (lift-Returns (make_plan o pair none) w plan make_plan-plan)
            (store_plan-Returns env w r o.scope plan plan-IsStorable))

-- The configuration of a payment in one currency is none.
load_configuration-plain :
    (env : Env) (operation : Text) (p : Preliminary) (time : Timestamp) (w : World)
    → operation ≡ transfer_operation
    → Returns (load_configuration env operation p time) w none w
unfolding load_configuration
load_configuration-plain env operation p time w h = record { returns = rw h }

pub perform_transfer-Returns :
    (env : Env) (o : Order) (w : World) (p : IsPayable o w.db) (r : IsReliable env w.db)
    → (a : Response) × (v : World) × Returns (perform_transfer env o) w a v × (a.status ≡ 201)
unfolding perform_transfer at_time with_configuration pair
perform_transfer-Returns env o w p r = (
  _,
  _,
  >>=-Returns (query env internal (λ db. env.now)) (at_time env o)
      (query-Returns env internal (λ db. env.now) w (r.works w.calls))
      (>>=-Returns (load_configuration env o.operation o.preliminary env.now)
        (with_configuration env o)
        (load_configuration-plain env o.operation o.preliminary env.now (tick w) p.plain)
        (>>=-Returns (lock_pair env o.checked.source o.checked.destination)
          (with_accounts env o none)
          (record {
            returns =
                lock_pair-both env o.checked.source o.checked.destination (tick w) p.source
                  p.destination (r.works (suc w.calls)) p.unique p.distinct p.found_source
                  p.found_destination;
          })
          (with_accounts-Returns o w.db p env (tick (tick w)) r))),
  refl,
)
