-- ===== src/Fx/Selection.antt =====
-- Which configuration is chosen, whatever the order of the rows.
use high_performance_ledger.Prelude.{
  suc, ◌≤◌, ◌≡◌, refl, ◌∙◌, ap, Bool, false, List, [], ◌∷◌, arith,
}
use high_performance_ledger.Prelude.Lists.{length, take}
use high_performance_ledger.Prelude.Text.{Text}
use high_performance_ledger.Prelude.Result.{Result, ok, err}
use high_performance_ledger.Database.{Timestamp, FeeRuleRow, select, order_by, insert_by}
use high_performance_ledger.Tx.{Env, World, Outcome, done, failed, tick}
use high_performance_ledger.Fx.Select.{
  ConfigurationError, rate_unavailable, rate_ambiguous, fee_rule_unavailable, fee_rule_ambiguous,
  rate_applies, rate_before, fee_before, pair_fee_applies, default_fee_applies, pair_fee_rows,
  default_fee_rows, single, select_exchange_rate, choose_fee_rule, select_fee_rule,
}

-- A result as the outcome of a computation.
abbrev pub outcome : {E A : Type 0} → Result E A → Outcome E A
outcome (ok a) = done a
outcome (err e) = failed e

module _ {A : Type 0} (before : A → A → Bool) where
  length-insert_by : (x : A) (xs : List A) → length (insert_by before x xs) ≡ suc (length xs)
  length-insert_by x [] = refl
  length-insert_by x (y ∷ ys) = ground (arith, length-insert_by x ys)

  take-two : (xs : List A) → 2 ≤ length xs → (x : A) × (y : A) × (take 2 xs ≡ x ∷ y ∷ [])
  take-two [] h = ground arith
  take-two (x ∷ []) h = ground arith
  take-two (x ∷ y ∷ ys) h = (x, y, refl)

  -- Two rows are enough to see that a row is the only one, and their order does not matter.
  pub single-rows :
      (u a : ConfigurationError) (xs : List A)
      → single u a (take 2 (order_by before xs)) ≡ single u a xs
  single-rows u a [] = refl
  single-rows u a (x ∷ []) = refl
  single-rows u a (x ∷ y ∷ ys) =
      let (p, q, e) = take-two (order_by before (x ∷ y ∷ ys)) (
        omega (
          arith,
          length-insert_by x (order_by before (y ∷ ys)),
          length-insert_by y (order_by before ys),
        )) in
      rw e

-- The rate for two currencies at a time is the one row that applies; it is an error if there is none
-- or several. The order of the rows and the limit of two do not matter. The statement does not fail.
pub select_exchange_rate_lem :
    (env : Env) (source destination : Text) (time : Timestamp) (w : World)
    → env.fails w.calls ≡ false
    → (select_exchange_rate env source destination time w).0
      ≡ outcome (
          single rate_unavailable rate_ambiguous
            (select (rate_applies source destination time) w.db.exchange_rates))
unfolding select_exchange_rate
select_exchange_rate_lem env source destination time w h =
    let same =
      single-rows rate_before rate_unavailable rate_ambiguous
        (select (rate_applies source destination time) w.db.exchange_rates) in
    ground arith

-- A rule of the pair comes before the defaults.
abbrev pub fee_rule_of : List FeeRuleRow → List FeeRuleRow → Result ConfigurationError FeeRuleRow
fee_rule_of [] defaults = single fee_rule_unavailable fee_rule_ambiguous defaults
fee_rule_of (rule ∷ rules) defaults = single fee_rule_unavailable fee_rule_ambiguous (rule ∷ rules)

choose_fee_rule_lem :
    (env : Env) (time : Timestamp) (rules : List FeeRuleRow) (w : World)
    → env.fails w.calls ≡ false
    → (choose_fee_rule env time rules w).0
      ≡ outcome (fee_rule_of rules (default_fee_rows time w.db))
unfolding choose_fee_rule
choose_fee_rule_lem env time [] w h = ground arith
choose_fee_rule_lem env time (rule ∷ []) w h = refl
choose_fee_rule_lem env time (rule ∷ other ∷ rules) w h = refl

-- Rows that have the same single row give the same rule.
pub fee_rule_of-single :
    (p p' d d' : List FeeRuleRow)
    → single fee_rule_unavailable fee_rule_ambiguous p'
      ≡ single fee_rule_unavailable fee_rule_ambiguous p
    → single fee_rule_unavailable fee_rule_ambiguous d'
      ≡ single fee_rule_unavailable fee_rule_ambiguous d
    → fee_rule_of p' d' ≡ fee_rule_of p d
fee_rule_of-single [] [] d d' h k = k
fee_rule_of-single [] (x ∷ []) d d' h k = ground arith
fee_rule_of-single [] (x ∷ y ∷ ys) d d' h k = ground arith
fee_rule_of-single (x ∷ []) [] d d' h k = ground arith
fee_rule_of-single (x ∷ y ∷ ys) [] d d' h k = ground arith
fee_rule_of-single (x ∷ xs) (y ∷ ys) d d' h k = h

-- The fee rule for two currencies at a time is the one row for the pair that applies; if there is none,
-- the one default row that applies. Several rows, or no row at all, are errors. The statements do not
-- fail.
pub select_fee_rule_lem :
    (env : Env) (source destination : Text) (time : Timestamp) (w : World)
    → env.fails w.calls ≡ false
    → env.fails (suc w.calls) ≡ false
    → (select_fee_rule env source destination time w).0
      ≡ outcome (
          fee_rule_of
            (select (pair_fee_applies source destination time) w.db.fx_fee_rules)
            (select (default_fee_applies time) w.db.fx_fee_rules))
unfolding select_fee_rule
select_fee_rule_lem env source destination time w h k =
    let pair = select (pair_fee_applies source destination time) w.db.fx_fee_rules in
    let defaults = select (default_fee_applies time) w.db.fx_fee_rules in
    let chosen =
      choose_fee_rule_lem env time (pair_fee_rows source destination time w.db) (tick w) k in
    let first : select_fee_rule env source destination time w
        ≡ choose_fee_rule env time (pair_fee_rows source destination time w.db) (tick w) =
      ground arith in
    ap (λ x. x.0) first
    ∙ (chosen
        ∙ ap outcome (
            fee_rule_of-single pair (pair_fee_rows source destination time w.db) defaults
              (default_fee_rows time w.db)
              (single-rows fee_before fee_rule_unavailable fee_rule_ambiguous pair)
              (single-rows fee_before fee_rule_unavailable fee_rule_ambiguous defaults)))
