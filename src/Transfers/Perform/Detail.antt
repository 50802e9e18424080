-- ===== src/Transfers/Perform/Detail.antt =====
-- The columns of the row of a transfer, and what the client is told of it.
use high_performance_ledger.Fx.Chosen.{chosen_rate_lem, chosen_rule_lem}
use high_performance_ledger.Prelude.{◌≡◌, refl, ◌∙◌, ap, Option, some}
use high_performance_ledger.Database.{
  Uuid, Database, active, Kind, transfer, fx_transfer, reversal, ExchangeRateRow, FeeRuleRow,
}
use high_performance_ledger.Database.Accounts.{find_account}
use high_performance_ledger.Tx.{Env}
use high_performance_ledger.Transfers.Price.{Pair}
use high_performance_ledger.Transfers.Record.{Plan, transfer_row}
use high_performance_ledger.Transfers.Record.{response_body}
use high_performance_ledger.Transfers.Price.{price}
use high_performance_ledger.Prelude.{none, some, refl, arith, ◌⊎◌, inl, inr}
use high_performance_ledger.Transfers.Spec.{told, IsPlain, IsConversion}
use high_performance_ledger.Transfers.Perform.Configuration.{IsConfiguration}
use high_performance_ledger.Transfers.Perform.Stages.{price_fx_ok}
use high_performance_ledger.Transfers.Perform.{Order}
use high_performance_ledger.Transfers.Perform.Stages.{IsPlan}

-- What the checks of a locked pair have established.
pub record IsChecked (o : Order) (before : Database) (a : Pair) : Type 0 where
  pub found_source : find_account o.checked.source before.accounts ≡ some a.source
  pub found_destination : find_account o.checked.destination before.accounts ≡ some a.destination
  pub owned : a.source.owner_id ≡ o.client_id
  pub source_currency : a.source.currency ≡ o.preliminary.source_currency
  pub destination_currency : a.destination.currency ≡ o.preliminary.destination_currency
  pub source_active : a.source.status ≡ active
  pub destination_active : a.destination.status ≡ active

-- The client is told the row that is written.
pub response_body_lem :
    (env : Env) (plan : Plan) (id : Uuid) (k : Kind)
    → plan.price.kind ≡ k
    → response_body env plan id
      ≡ told env
          (transfer_row env plan id)
          plan.accounts.source.currency_scale
          plan.accounts.destination.currency_scale
          k
unfolding response_body
response_body_lem env plan id transfer h = rw h refl
response_body_lem env plan id fx_transfer h = rw h refl
response_body_lem env plan id reversal h = rw h refl

-- The price is that of the configuration that applies.
pub configured_lem :
    (env : Env) (o : Order) (a : Pair) (c : Option (ExchangeRateRow × FeeRuleRow)) (plan : Plan)
    (before : Database) (id : Uuid)
    → IsPlan o a c plan
    → IsChecked o before a
    → IsConfiguration o.preliminary env.now before c
    → IsPlain (transfer_row env plan id)
      ⊎ IsConversion before (transfer_row env plan id) a.source a.destination
unfolding price
configured_lem env o a none plan before id planned checked configured = inl (record {
  kind = priced_plain.0;
  fee_bps = priced_plain.1;
  exchange_rate = priced_plain.2;
  exchange_rate_id = priced_plain.3;
})
  where
    priced_plain :
        (plan.price.kind ≡ transfer)
        × (plan.price.fee_bps ≡ none)
        × (plan.price.exchange_rate ≡ none)
        × (plan.price.exchange_rate_id ≡ none)
    priced_plain = ground (arith, planned.priced)
configured_lem env o a (some (rate, rule)) plan before id planned checked (chosen, ruled) =
    let (exact, charged, read, converted, kind, fee_bps, exchange_rate, exchange_rate_id) =
      price_fx_ok plan.amount_minor a rate rule plan.price (rw planned.amount planned.priced) in
    let from = ap (λ x. x.source.currency) planned.accounts ∙ checked.source_currency in
    let to = ap (λ x. x.destination.currency) planned.accounts ∙ checked.destination_currency in
    inr (record {
      rate = rate;
      rule = rule;
      exact_rate = exact;
      kind = kind;
      rate_chosen = rw (from, to) chosen;
      rule_chosen = rw (from, to) ruled;
      rate_fits = rw (from, to) (chosen_rate_lem _ _ env.now before.exchange_rates rate chosen);
      rule_fits = rw (from, to) (chosen_rule_lem _ _ env.now before.fx_fee_rules rule ruled);
      charged = charged;
      rate_read = read;
      converted = converted;
      fee_bps = fee_bps;
      exchange_rate = exchange_rate;
      exchange_rate_id = exchange_rate_id;
    })
