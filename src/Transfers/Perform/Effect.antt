-- ===== src/Transfers/Perform/Effect.antt =====
-- What `perform_transfer` has done when it succeeds.
use high_performance_ledger.Prelude.{◌≡◌, refl, ◌∙◌, ap, true, Option, some}
use high_performance_ledger.Prelude.Int.{ℤ}
use high_performance_ledger.ApiError.{internal}
use high_performance_ledger.Database.{
  Uuid, Body, Database, Kind, transfer, fx_transfer, reversal, ExchangeRateRow, FeeRuleRow,
}
use high_performance_ledger.Database.Accounts.{find_account}
use high_performance_ledger.Database.Records.{transfer_allowed, transfer_allowed_lem}
use high_performance_ledger.Idempotency.{complete_records}
use high_performance_ledger.Tx.{Env, World, done, ◌>>=◌, query, lift}
use high_performance_ledger.Tx.Laws.{>>=-done, lift-done, query-done}
use high_performance_ledger.Transfers.Spec.{fx_only, Moves, IsPriced, Performed, kind_of}
use high_performance_ledger.Transfers.Moved.{moved, moved-Moves}
use high_performance_ledger.Transfers.Price.{Pair, load_configuration, lock_pair, check_pair}
use high_performance_ledger.Transfers.Record.{Plan, if_fx, transfer_row}
use high_performance_ledger.Transfers.Record.Effect.{recorded}
use high_performance_ledger.Gate.{Response}
use high_performance_ledger.Transfers.Record.{response_body}
use high_performance_ledger.Prelude.{some, refl, ◌⊎◌, sym}
use high_performance_ledger.Transfers.Spec.{told, IsPlain, IsConversion, IsDetailed}
use high_performance_ledger.Transfers.Perform.Configuration.{
  IsConfiguration, configured_kind, load_configuration-done,
}
use high_performance_ledger.Transfers.Perform.{
  Order, make_plan, store_plan, with_accounts, with_configuration, at_time, perform_transfer,
}
use high_performance_ledger.Transfers.Perform.Stages.{
  lock_pair-done, check_pair_ok, IsPlan, make_plan_ok, price_ok, store_plan-done,
}
use high_performance_ledger.Transfers.Perform.Detail.{IsChecked, response_body_lem, configured_lem}

if_fx_lem : (k : Kind) (x : ℤ) → if_fx k x ≡ fx_only k x
if_fx_lem transfer x = refl
if_fx_lem fx_transfer x = refl
if_fx_lem reversal x = refl

-- The tables behind a transfer whose result is stored.
abbrev finished : Env → Order → Plan → Uuid → Uuid → Uuid → Body → Database → Database
finished env o plan id i j body before = record (recorded env plan id i j before) {
  idempotency_records = complete_records o.scope 201 body id before.idempotency_records;
}

module _ (env : Env) (o : Order) (a : Pair) (c : Option (ExchangeRateRow × FeeRuleRow))
    (plan : Plan) (before : Database) (id i j : Uuid) (r : Response) (status : r.status ≡ 201)
    (body : response_body env plan id ≡ r.body)
    (configured : IsConfiguration o.preliminary env.now before c) (checked : IsChecked o before a)
    (planned : IsPlan o a c plan)
    (allowed : transfer_allowed (transfer_row env plan id) before.transfers ≡ true) where
  finished-Moves :
      Moves before
        (finished env o plan id i j r.body before)
        (transfer_row env plan id)
        a.source
        a.destination
  finished-Moves = rw same (
      moved-Moves (transfer_row env plan id) a.source a.destination i j
        (complete_records o.scope 201 r.body id before.idempotency_records) before allowed
        (rw planned.source checked.found_source) (rw planned.destination checked.found_destination)
        (rw (← planned.source_balance) planned.source_fits)
        (rw (← planned.destination_balance) planned.destination_fits))
    where
      same :
          finished env o plan id i j r.body before
          ≡ moved
              (transfer_row env plan id)
              a.source
              a.destination
              i
              j
              (complete_records o.scope 201 r.body id before.idempotency_records)
              before
      same = rw (
        if_fx_lem plan.price.kind plan.amount_minor,
        if_fx_lem plan.price.kind plan.price.fee_amount_minor,
        if_fx_lem plan.price.kind plan.price.destination_amount_minor,
        planned.source_balance,
        planned.destination_balance,
      )

  finished-IsPriced : IsPriced (transfer_row env plan id)
  finished-IsPriced =
      let (_, sent, received, fee) =
        transfer_allowed_lem (transfer_row env plan id) before.transfers allowed in
      let (bound, total, _, forward, free, exact) =
        price_ok plan.amount_minor a c plan.price (rw planned.amount planned.priced) sent in
      record {
        sent = sent;
        received = received;
        fee = fee;
        fee_bound = bound;
        total = total;
        forward = forward;
        free = free;
        exact = exact;
      }

  finished-body :
      r.body
      ≡ told env
          (transfer_row env plan id)
          a.source.currency_scale
          a.destination.currency_scale
          plan.price.kind
  finished-body =
      let row = transfer_row env plan id in
      sym body
      ∙ (response_body_lem env plan id plan.price.kind refl
          ∙ ap
              (λ x.
                told env row x.source.currency_scale x.destination.currency_scale plan.price.kind)
              planned.accounts)

  finished-configured :
      IsPlain (transfer_row env plan id)
      ⊎ IsConversion before (transfer_row env plan id) a.source a.destination
  finished-configured = configured_lem env o a c plan before id planned checked configured

  finished-IsDetailed : IsDetailed env before (transfer_row env plan id) a.source a.destination r
  finished-IsDetailed = record {
    source_currency = ap (λ x. x.source.currency) planned.accounts;
    destination_currency = ap (λ x. x.destination.currency) planned.accounts;
    time = refl;
    forward = refl;
    configured = finished-configured;
    body = finished-body;
  }

  finished-kind : plan.price.kind ≡ configured_kind c
  finished-kind =
      let (_, sent, _, _) =
        transfer_allowed_lem (transfer_row env plan id) before.transfers allowed in
      (price_ok plan.amount_minor a c plan.price (rw planned.amount planned.priced) sent).2

  finished-Performed :
      configured_kind c ≡ kind_of o.operation
      → Performed env o before (finished env o plan id i j r.body before) r
  finished-Performed same = record {
    transfer = transfer_row env plan id;
    source = a.source;
    destination = a.destination;
    from = planned.source;
    to = planned.destination;
    amount = planned.amount;
    moves = finished-Moves;
    entitled = record {
      owned = checked.owned;
      source_active = checked.source_active;
      destination_active = checked.destination_active;
      covered = planned.covered;
      initiated = planned.client;
    };
    priced = finished-IsPriced;
    detailed = finished-IsDetailed;
    kind = finished-kind ∙ same;
    source_currency = checked.source_currency;
    destination_currency = checked.destination_currency;
    created = status;
    kept = refl;
  }

-- A transfer that is performed was priced and entitled, and did what the specification says.
with_accounts-Performed :
    (env : Env) (o : Order) (c : Option (ExchangeRateRow × FeeRuleRow)) (a : Pair) (w w' : World)
    (r : Response)
    → find_account o.checked.source w.db.accounts ≡ some a.source
    → find_account o.checked.destination w.db.accounts ≡ some a.destination
    → configured_kind c ≡ kind_of o.operation
    → IsConfiguration o.preliminary env.now w.db c
    → with_accounts env o c a w ≡ (done r, w')
    → Performed env o w.db w'.db r × (w'.counted ≡ w.counted)
unfolding with_accounts
with_accounts-Performed env o c a w w' r fs fd kind configured h =
    let (_, v, e, k) =
      >>=-done (lift (check_pair o.client_id o.preliminary a))
        (λ _. lift (make_plan o a c) >>= store_plan env o.scope) w h in
    let (valid, stay) = lift-done (check_pair o.client_id o.preliminary a) w e in
    let (owned, source_active, destination_active, source_currency, destination_currency, _, _) =
      check_pair_ok o.client_id o.preliminary a valid in
    let (plan, v', e', k') = >>=-done (lift (make_plan o a c)) (store_plan env o.scope) v k in
    let (made, stay') = lift-done (make_plan o a c) v e' in
    let (id, i, j, db, allowed, body, status, counted) =
      store_plan-done env o plan w w' r (rw (stay ∙ stay') k') in
    let checked : IsChecked o w.db a = record {
      found_source = fs;
      found_destination = fd;
      owned = owned;
      source_active = source_active;
      destination_active = destination_active;
      source_currency = source_currency;
      destination_currency = destination_currency;
    } in
    (
      rw db (
          finished-Performed env o a c plan w.db id i j r status body configured checked
            (make_plan_ok o a c plan made) allowed kind),
      counted,
    )

with_configuration-Performed :
    (env : Env) (o : Order) (c : Option (ExchangeRateRow × FeeRuleRow)) (w w' : World)
    (r : Response)
    → configured_kind c ≡ kind_of o.operation
    → IsConfiguration o.preliminary env.now w.db c
    → with_configuration env o c w ≡ (done r, w')
    → Performed env o w.db w'.db r × (w'.counted ≡ w.counted)
unfolding with_configuration
with_configuration-Performed env o c w w' r kind configured h =
    let (a, v, e, k) =
      >>=-done (lock_pair env o.checked.source o.checked.destination) (with_accounts env o c) w h in
    let (db, counted, fs, fd) = lock_pair-done env o.checked.source o.checked.destination w v a e in
    let (performed, same) =
      with_accounts-Performed env o c a v w' r (rw db fs) (rw db fd) kind (rw db configured) k in
    (rw (← db) performed, same ∙ counted)

pub perform_transfer-Performed :
    (env : Env) (o : Order) (w w' : World) (r : Response)
    → perform_transfer env o w ≡ (done r, w')
    → Performed env o w.db w'.db r × (w'.counted ≡ w.counted)
unfolding perform_transfer at_time
perform_transfer-Performed env o w w' r h =
    let (time, u, e, k) = >>=-done (query env internal (λ db. env.now)) (at_time env o) w h in
    let (now, ticked) = query-done env internal (λ db. env.now) w e in
    let (c, v, e', k') =
      >>=-done (load_configuration env o.operation o.preliminary time) (with_configuration env o) u
        k in
    let (db, counted, kind, configured) =
      load_configuration-done env o.operation o.preliminary time u v c e' in
    let (performed, same) =
      with_configuration-Performed env o c v w' r kind (rw (now, ← db) at configured) k' in
    (rw (← (db ∙ ap (λ x. x.db) ticked)) performed, same ∙ counted ∙ ap (λ x. x.counted) ticked)
