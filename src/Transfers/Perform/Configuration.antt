-- ===== src/Transfers/Perform/Configuration.antt =====
-- What `load_configuration` has read when it succeeds.
use high_performance_ledger.Fx.Selection.{fee_rule_of}
use high_performance_ledger.Fx.Chosen.{select_exchange_rate-done, select_fee_rule-done}
use high_performance_ledger.Prelude.{◌≡◌, Option, none, some, arith}
use high_performance_ledger.Prelude.Text.{Text}
use high_performance_ledger.Prelude.Result.{ok}
use high_performance_ledger.Database.{
  Timestamp, Kind, transfer, fx_transfer, ExchangeRateRow, FeeRuleRow,
}
use high_performance_ledger.Tx.{Env, World, done, ◌>>=◌, pure}
use high_performance_ledger.Transfers.Request.{Preliminary}
use high_performance_ledger.Transfers.Price.{load_configuration}
use high_performance_ledger.Transfers.Spec.{kind_of}
use high_performance_ledger.Fx.Select.{select_exchange_rate, select_fee_rule}
use high_performance_ledger.Tx.Laws.{>>=-done}
use high_performance_ledger.Prelude.{inl, inr, refl, Bool-cases}
use high_performance_ledger.Prelude.Text.{◌=t◌}
use high_performance_ledger.Database.{Database, select}
use high_performance_ledger.Idempotency.{fx_transfer_operation}
use high_performance_ledger.Fx.Select.{
  rate_unavailable, rate_ambiguous, rate_applies, pair_fee_applies, default_fee_applies, single,
}
use high_performance_ledger.Tx.{rename_error}
use high_performance_ledger.Tx.Laws.{rename_error-done}
use high_performance_ledger.Transfers.Request.{transfer_configuration_error}
use high_performance_ledger.Transfers.Price.{read_configuration}

-- The kind that goes with what was read.
abbrev pub configured_kind : Option (ExchangeRateRow × FeeRuleRow) → Kind
configured_kind none = transfer
configured_kind (some _) = fx_transfer

-- The configuration that goes with the currencies and the time.
abbrev pub IsConfiguration :
    Preliminary → Timestamp → Database → Option (ExchangeRateRow × FeeRuleRow) → Type 0
IsConfiguration p time db none = Unit
IsConfiguration p time db (some (rate, rule)) =
    (single rate_unavailable rate_ambiguous
        (select (rate_applies p.source_currency p.destination_currency time) db.exchange_rates)
      ≡ ok rate)
    × (fee_rule_of
          (select (pair_fee_applies p.source_currency p.destination_currency time) db.fx_fee_rules)
          (select (default_fee_applies time) db.fx_fee_rules)
        ≡ ok rule)

read_configuration-done :
    (env : Env) (p : Preliminary) (time : Timestamp) (w w' : World)
    (c : Option (ExchangeRateRow × FeeRuleRow))
    → read_configuration env p time w ≡ (done c, w')
    → (w'.db ≡ w.db)
      × (w'.counted ≡ w.counted)
      × (configured_kind c ≡ fx_transfer)
      × IsConfiguration p time w.db c
unfolding read_configuration
read_configuration-done env p time w w' c h =
    let (rate, v, e, k) =
      >>=-done
        (rename_error transfer_configuration_error
          (select_exchange_rate env p.source_currency p.destination_currency time))
        (λ r.
          rename_error transfer_configuration_error
            (select_fee_rule env p.source_currency p.destination_currency time)
          >>= λ f. pure (some (r, f)))
        w h in
    let (rule, v', e', k') =
      >>=-done
        (rename_error transfer_configuration_error
          (select_fee_rule env p.source_currency p.destination_currency time))
        (λ f. pure (some (rate, f))) v k in
    let (chosen, db, counted) =
      select_exchange_rate-done env p.source_currency p.destination_currency time w v rate (
        rename_error-done transfer_configuration_error
          (select_exchange_rate env p.source_currency p.destination_currency time) w e) in
    let (ruled, db', counted') =
      select_fee_rule-done env p.source_currency p.destination_currency time v v' rule (
        rename_error-done transfer_configuration_error
          (select_fee_rule env p.source_currency p.destination_currency time) v e') in
    let both : some (rate, rule) ≡ c = ground arith in
    rw (← both) (ground arith, ground arith, refl, (chosen, rw (← db) ruled))

-- Configuration is only read, and only for a transfer between currencies.
pub load_configuration-done :
    (env : Env) (operation : Text) (p : Preliminary) (time : Timestamp) (w w' : World)
    (c : Option (ExchangeRateRow × FeeRuleRow))
    → load_configuration env operation p time w ≡ (done c, w')
    → (w'.db ≡ w.db)
      × (w'.counted ≡ w.counted)
      × (configured_kind c ≡ kind_of operation)
      × IsConfiguration p time w.db c
unfolding load_configuration
load_configuration-done env operation p time w w' c h =
    elim (Bool-cases (operation =t fx_transfer_operation)) [
      | inl fx ↦
          let (db, counted, kind, configured) =
            read_configuration-done env p time w w' c (rw (load_configuration, fx) at h) in
          (db, counted, rw fx kind, configured)
      | inr plain ↦
          let is : none ≡ c = ground arith in
          rw (← is) (ground arith, ground arith, rw plain refl, tt)
    ]
