-- ===== src/Transfers/Perform/Stages.antt =====
-- What each stage of a transfer that succeeds has established.
use high_performance_ledger.Prelude.{◌≡◌, Option, none, some, arith, ◌≢◌, ◌∙◌, true}
use high_performance_ledger.Prelude.Int.{◌+ℤ◌, ◌-ℤ◌, ◌≤ℤ◌, IsI64, ℤ, pos}
use high_performance_ledger.Prelude.Text.{Text, =t_sound}
use high_performance_ledger.Prelude.Result.{ok}
use high_performance_ledger.Database.{
  Uuid, transfer, fx_transfer, ExchangeRateRow, FeeRuleRow, active, reversal,
}
use high_performance_ledger.Database.Accounts.{find_account, find-lock_left, find-lock_right}
use high_performance_ledger.Tx.{Env, World, done, Tx, ◌>>=◌, call_out, pure}
use high_performance_ledger.Transfers.Request.{Preliminary}
use high_performance_ledger.Transfers.Price.{
  Pair, lock_pair, check_pair, price, new_balances, Price,
}
use high_performance_ledger.Transfers.Record.{Plan, transfer_row, record_transfer, response_body}
use high_performance_ledger.Transfers.Perform.{Order, make_plan, store_plan}
use high_performance_ledger.Fx.{calculate_fee}
use high_performance_ledger.Fx.Rounding.{calculate_fee_bounds}
use high_performance_ledger.ApiError.{AppError, internal}
use high_performance_ledger.Database.Records.{transfer_allowed}
use high_performance_ledger.Idempotency.{complete_records, store_success}
use high_performance_ledger.Tx.Laws.{>>=-done}
use high_performance_ledger.Transfers.Record.Effect.{recorded, drawn, record_transfer_effect}
use high_performance_ledger.Gate.{Response}
use high_performance_ledger.Prelude.{inl, inr}
use high_performance_ledger.Prelude.Result.{Result-cases}
use high_performance_ledger.Fx.{ExactRate, parse, calculate_destination}
use high_performance_ledger.Transfers.Price.{as_u8}
use high_performance_ledger.Transfers.Perform.Configuration.{configured_kind}

pub lock_pair-done :
    (env : Env) (i j : Uuid) (w w' : World) (a : Pair)
    → lock_pair env i j w ≡ (done a, w')
    → (w'.db ≡ w.db)
      × (w'.counted ≡ w.counted)
      × (find_account i w.db.accounts ≡ some a.source)
      × (find_account j w.db.accounts ≡ some a.destination)
unfolding lock_pair
lock_pair-done env i j w w' a h =
    ground (arith, find-lock_left i j w.db.accounts, find-lock_right i j w.db.accounts)

pub check_pair_ok :
    (client_id : Text) (p : Preliminary) (a : Pair)
    → check_pair client_id p a ≡ ok tt
    → (a.source.owner_id ≡ client_id)
      × (a.source.status ≡ active)
      × (a.destination.status ≡ active)
      × (a.source.currency ≡ p.source_currency)
      × (a.destination.currency ≡ p.destination_currency)
      × (a.source.currency_scale ≡ p.source_scale)
      × (a.destination.currency_scale ≡ p.destination_scale)
unfolding check_pair
check_pair_ok client_id p a h = ground (
  arith,
  =t_sound a.source.owner_id client_id,
  =t_sound a.source.currency p.source_currency,
  =t_sound a.destination.currency p.destination_currency,
)

-- What a plan is made of, and that the balances it sets are exact and in range.
pub record IsPlan (o : Order) (a : Pair) (c : Option (ExchangeRateRow × FeeRuleRow)) (plan : Plan)
    : Type 0 where
  pub client : plan.client_id ≡ o.client_id
  pub source : plan.source_id ≡ o.checked.source
  pub destination : plan.destination_id ≡ o.checked.destination
  pub accounts : plan.accounts ≡ a
  pub amount : plan.amount_minor ≡ o.amount_minor
  pub priced : price o.amount_minor a c ≡ ok plan.price
  pub covered : plan.price.total_source_debit_minor ≤ℤ a.source.balance_minor
  pub source_balance :
      plan.source_balance ≡ a.source.balance_minor -ℤ plan.price.total_source_debit_minor
  pub source_fits : IsI64 plan.source_balance
  pub destination_balance :
      plan.destination_balance ≡ a.destination.balance_minor +ℤ plan.price.destination_amount_minor
  pub destination_fits : IsI64 plan.destination_balance

pub make_plan_ok :
    (o : Order) (a : Pair) (c : Option (ExchangeRateRow × FeeRuleRow)) (plan : Plan)
    → make_plan o a c ≡ ok plan
    → IsPlan o a c plan
unfolding make_plan new_balances
make_plan_ok o a c plan h = ground arith

-- A priced conversion has the fee that `calculate_fee` computes, and the amount that
-- `calculate_destination` does.
pub price_fx_ok :
    (amount : ℤ) (a : Pair) (rate : ExchangeRateRow) (fee : FeeRuleRow) (p : Price)
    → price amount a (some (rate, fee)) ≡ ok p
    → (exact : ExactRate) × (calculate_fee amount fee.fee_bps
        ≡ ok (record {
          fee_minor = p.fee_amount_minor;
          total_source_debit_minor = p.total_source_debit_minor;
        }))
      × (parse rate.rate ≡ ok exact)
      × (calculate_destination amount
            (as_u8 a.source.currency_scale)
            (as_u8 a.destination.currency_scale)
            exact
          ≡ ok p.destination_amount_minor)
      × (p.kind ≡ fx_transfer)
      × (p.fee_bps ≡ some fee.fee_bps)
      × (p.exchange_rate ≡ some rate.rate)
      × (p.exchange_rate_id ≡ some rate.id)
unfolding price
price_fx_ok amount a rate fee p h = elim (Result-cases (parse rate.rate)) [
  | inl (exact, read) ↦ (
    exact,
    ground arith,
    read,
    ground arith,
    ground arith,
    ground arith,
    ground arith,
    ground arith,
  )
  | inr (e, malformed) ↦ ground arith
]

pub price_ok :
    (amount : ℤ) (a : Pair) (c : Option (ExchangeRateRow × FeeRuleRow)) (p : Price)
    → price amount a c ≡ ok p
    → pos 1 ≤ℤ amount
    → (p.fee_amount_minor ≤ℤ amount)
      × (p.total_source_debit_minor ≡ amount +ℤ p.fee_amount_minor)
      × (p.kind ≡ configured_kind c)
      × (p.kind ≢ reversal)
      × (p.kind ≡ transfer → p.fee_amount_minor ≡ pos 0)
      × (p.kind ≡ transfer → p.destination_amount_minor ≡ amount)
unfolding price ◌+ℤ◌
price_ok amount a none p h k = ground arith
price_ok amount a (some (rate, fee)) p h k =
    let (_, e, _, _, converted, _, _, _) = price_fx_ok amount a rate fee p h in
    let bounds = calculate_fee_bounds amount fee.fee_bps _ e in ground arith

answer : Env → Order → Plan → Uuid → Tx AppError Response
answer env o p id = call_out env internal >>= λ _.
    store_success env o.scope 201 (response_body env p id) id >>= λ _.
    pure (record { status = 201; body = response_body env p id })

answer_effect :
    (env : Env) (o : Order) (p : Plan) (id : Uuid) (w w' : World) (r : Response)
    → answer env o p id w ≡ (done r, w')
    → (w'.db ≡ record w.db {
      idempotency_records =
          complete_records o.scope 201 (response_body env p id) id w.db.idempotency_records;
    })
      × (response_body env p id ≡ r.body)
      × (r.status ≡ 201)
      × (w'.counted ≡ w.counted)
unfolding answer store_success
answer_effect env o p id w w' r h = ground arith

-- The effect of a plan that is carried out.
pub store_plan-done :
    (env : Env) (o : Order) (p : Plan) (w w' : World) (r : Response)
    → store_plan env o.scope p w ≡ (done r, w')
    → (id : Uuid) × (i : Uuid) × (j : Uuid) × (w'.db ≡ record (recorded env p id i j w.db) {
      idempotency_records = complete_records o.scope 201 r.body id w.db.idempotency_records;
    })
      × (transfer_allowed (transfer_row env p id) w.db.transfers ≡ true)
      × (response_body env p id ≡ r.body)
      × (r.status ≡ 201)
      × (w'.counted ≡ w.counted)
unfolding store_plan answer
store_plan-done env o p w w' r h =
    let (id, v, e, k) = >>=-done (record_transfer env p) (answer env o p) w h in
    let (db, allowed, counted) = record_transfer_effect env p w v id e in
    let (written, body, status, same) = answer_effect env o p id v w' r k in
    (
      id,
      drawn env w 4,
      drawn env w 6,
      rw (written, db, body),
      allowed,
      body,
      status,
      same ∙ counted,
    )
