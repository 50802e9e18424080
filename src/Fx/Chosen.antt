-- ===== src/Fx/Chosen.antt =====
-- What a rate and a fee rule that are chosen are.
use high_performance_ledger.Fx.Selection.{fee_rule_of, fee_rule_of-single, single-rows}
use high_performance_ledger.Fx.Select.{is_pair, is_default}
use high_performance_ledger.Prelude.{
  ◌<◌, ◌⊎◌, true, Option, none, some, Bool-cases, inl, inr, ◌≤◌, ◌≡◌, refl, sym, ◌∙◌, ap, Bool,
  List, [], ◌∷◌, arith,
}
use high_performance_ledger.Prelude.Text.{Text, =t_sound}
use high_performance_ledger.Prelude.Result.{ok}
use high_performance_ledger.Database.{Timestamp, ExchangeRateRow, FeeRuleRow, select}
use high_performance_ledger.Tx.{Env, World, done, query}
use high_performance_ledger.Tx.Laws.{>>=-done, query-done}
use high_performance_ledger.Fx.Select.{
  ConfigurationError, database, rate_unavailable, rate_ambiguous, fee_rule_unavailable,
  fee_rule_ambiguous, rate_applies, rate_before, fee_before, pair_fee_applies, default_fee_applies,
  pair_fee_rows, default_fee_rows, single, select_exchange_rate, choose_fee_rule, select_fee_rule,
}

-- A rate that is chosen is the one row that applies.
pub select_exchange_rate-done :
    (env : Env) (source destination : Text) (time : Timestamp) (w w' : World)
    (rate : ExchangeRateRow)
    → select_exchange_rate env source destination time w ≡ (done rate, w')
    → (single rate_unavailable rate_ambiguous
          (select (rate_applies source destination time) w.db.exchange_rates)
        ≡ ok rate)
      × (w'.db ≡ w.db)
      × (w'.counted ≡ w.counted)
unfolding select_exchange_rate
select_exchange_rate-done env source destination time w w' rate h =
    let same =
      single-rows rate_before rate_unavailable rate_ambiguous
        (select (rate_applies source destination time) w.db.exchange_rates) in
    (sym same ∙ ground arith, ground arith, ground arith)

choose_fee_rule-done :
    (env : Env) (time : Timestamp) (rules : List FeeRuleRow) (w w' : World) (rule : FeeRuleRow)
    → choose_fee_rule env time rules w ≡ (done rule, w')
    → (fee_rule_of rules (default_fee_rows time w.db) ≡ ok rule)
      × (w'.db ≡ w.db)
      × (w'.counted ≡ w.counted)
unfolding choose_fee_rule
choose_fee_rule-done env time [] w w' rule h = ground arith
choose_fee_rule-done env time (r ∷ []) w w' rule h = ground arith
choose_fee_rule-done env time (r ∷ other ∷ rules) w w' rule h = ground arith

-- A rule that is chosen is the one row for the pair that applies, or else the one default.
pub select_fee_rule-done :
    (env : Env) (source destination : Text) (time : Timestamp) (w w' : World) (rule : FeeRuleRow)
    → select_fee_rule env source destination time w ≡ (done rule, w')
    → (fee_rule_of
          (select (pair_fee_applies source destination time) w.db.fx_fee_rules)
          (select (default_fee_applies time) w.db.fx_fee_rules)
        ≡ ok rule)
      × (w'.db ≡ w.db)
      × (w'.counted ≡ w.counted)
unfolding select_fee_rule
select_fee_rule-done env source destination time w w' rule h =
    let pair = select (pair_fee_applies source destination time) w.db.fx_fee_rules in
    let defaults = select (default_fee_applies time) w.db.fx_fee_rules in
    let (rows, v, e, k) =
      >>=-done (query env database (pair_fee_rows source destination time))
        (choose_fee_rule env time) w h in
    let (read, ticked) = query-done env database (pair_fee_rows source destination time) w e in
    let (chosen, db, counted) = choose_fee_rule-done env time rows v w' rule k in
    let same =
      fee_rule_of-single pair (pair_fee_rows source destination time w.db) defaults
        (default_fee_rows time w.db)
        (single-rows fee_before fee_rule_unavailable fee_rule_ambiguous pair)
        (single-rows fee_before fee_rule_unavailable fee_rule_ambiguous defaults) in
    (
      sym same
          ∙ (ap (λ x. fee_rule_of x (default_fee_rows time w.db)) (sym read)
              ∙ (ap (λ x. fee_rule_of rows (default_fee_rows time x)) (ap (λ x. x.db) (sym ticked))
                  ∙ chosen)),
      db ∙ ap (λ x. x.db) ticked,
      counted ∙ ap (λ x. x.counted) ticked,
    )

-- A single row of those that are selected meets the condition.
single-select :
    {A : Type 0} (p : A → Bool) (u a : ConfigurationError) (xs : List A) (x : A)
    → single u a (select p xs) ≡ ok x
    → p x ≡ true
single-select {A} p u a xs x h = only xs (single-ok (select p xs) h)
  where
    single-ok : (ys : List A) → single u a ys ≡ ok x → ys ≡ x ∷ []
    single-ok [] e = ground arith
    single-ok (y ∷ []) e = ground arith
    single-ok (y ∷ z ∷ ys) e = ground arith

    only : (ys : List A) → select p ys ≡ x ∷ [] → p x ≡ true
    only [] e = ground arith
    only (y ∷ ys) e = elim (Bool-cases (p y)) [
      | inl chosen ↦ ground arith
      | inr left ↦ only ys (ground arith)
    ]

-- A rate that is chosen is for the two currencies and valid at the time.
pub chosen_rate_lem :
    (source destination : Text) (time : Timestamp) (rates : List ExchangeRateRow)
    (rate : ExchangeRateRow)
    → single rate_unavailable rate_ambiguous (select (rate_applies source destination time) rates)
      ≡ ok rate
    → (rate.source_currency ≡ source)
      × (rate.destination_currency ≡ destination)
      × (rate.valid_from ≤ time)
      × (time < rate.valid_until)
chosen_rate_lem source destination time rates rate h =
    let applies =
      single-select (rate_applies source destination time) rate_unavailable rate_ambiguous rates
        rate h in
    ground
      (arith, =t_sound rate.source_currency source, =t_sound rate.destination_currency destination)

fee_rule_of-ok :
    (rules defaults : List FeeRuleRow) (rule : FeeRuleRow)
    → fee_rule_of rules defaults ≡ ok rule
    → (single fee_rule_unavailable fee_rule_ambiguous rules ≡ ok rule)
      ⊎ (single fee_rule_unavailable fee_rule_ambiguous defaults ≡ ok rule)
fee_rule_of-ok [] defaults rule h = inr h
fee_rule_of-ok (x ∷ xs) defaults rule h = inl h

is_pair_lem :
    (source destination : Text) (pair : Option (Text × Text))
    → is_pair source destination pair ≡ true
    → pair ≡ some (source, destination)
is_pair_lem source destination none h = ground arith
is_pair_lem source destination (some (s, d)) h =
    ground (arith, =t_sound s source, =t_sound d destination)

is_default_lem : (pair : Option (Text × Text)) → is_default pair ≡ true → pair ≡ none
is_default_lem none h = refl
is_default_lem (some x) h = ground arith

-- A rule that is chosen is for the pair of currencies or a default, and valid at the time.
pub chosen_rule_lem :
    (source destination : Text) (time : Timestamp) (rules : List FeeRuleRow) (rule : FeeRuleRow)
    → fee_rule_of
        (select (pair_fee_applies source destination time) rules)
        (select (default_fee_applies time) rules)
      ≡ ok rule
    → ((rule.pair ≡ some (source, destination)) ⊎ (rule.pair ≡ none))
      × (rule.valid_from ≤ time)
      × (time < rule.valid_until)
chosen_rule_lem source destination time rules rule h =
    elim (fee_rule_of-ok (select (pair_fee_applies source destination time) rules)
      (select (default_fee_applies time) rules) rule h) [
        | inl paired ↦
            let applies =
              single-select (pair_fee_applies source destination time) fee_rule_unavailable
                fee_rule_ambiguous rules rule paired in
            (
              inl (is_pair_lem source destination rule.pair (ground arith)),
              ground arith,
              ground arith,
            )
        | inr defaulted ↦
            let applies =
              single-select (default_fee_applies time) fee_rule_unavailable fee_rule_ambiguous rules
                rule defaulted in
            (inr (is_default_lem rule.pair (ground arith)), ground arith, ground arith)
      ]
