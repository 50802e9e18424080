-- ===== src/Fx/Select.antt =====
-- src/fx.rs, its configuration: the one exchange rate and the one fee rule that apply to a pair of
-- currencies at a time.
use high_performance_ledger.Prelude.{
  Bool, true, false, ◌||◌, ◌&&◌, Option, none, some, List, [], ◌∷◌, leb, ltb, ◌==◌,
}
use high_performance_ledger.Prelude.Lists.{take}
use high_performance_ledger.Prelude.Text.{Text, ◌=t◌}
use high_performance_ledger.Prelude.Result.{Result, ok, err}
use high_performance_ledger.Database.{
  Uuid, Timestamp, Database, ExchangeRateRow, FeeRuleRow, select, order_by,
}
use high_performance_ledger.Tx.{Env, Tx, ◌>>=◌, pure, fail, lift, query}

pub data ConfigurationError : Type 0 where
  rate_unavailable rate_ambiguous fee_rule_unavailable fee_rule_ambiguous database :
      ConfigurationError

-- `valid_from <= $time AND valid_until > $time`
abbrev pub is_valid_at : Timestamp → Timestamp → Timestamp → Bool
is_valid_at time from until = leb from time && ltb time until

abbrev pub rate_applies : Text → Text → Timestamp → ExchangeRateRow → Bool
rate_applies source destination time r =
    (r.source_currency =t source)
    && ((r.destination_currency =t destination) && is_valid_at time r.valid_from r.valid_until)

-- `ORDER BY valid_from, id`
abbrev pub starts_before : Timestamp → Uuid → Timestamp → Uuid → Bool
starts_before from id from' id' = ltb from from' || (from == from' && ltb id id')

abbrev pub rate_before : ExchangeRateRow → ExchangeRateRow → Bool
rate_before a b = starts_before a.valid_from a.id b.valid_from b.id

abbrev pub fee_before : FeeRuleRow → FeeRuleRow → Bool
fee_before a b = starts_before a.valid_from a.id b.valid_from b.id

abbrev pub rate_rows : Text → Text → Timestamp → Database → List ExchangeRateRow
rate_rows source destination time db =
    take 2 (order_by rate_before (select (rate_applies source destination time) db.exchange_rates))

-- `source_currency = $1 AND destination_currency = $2`, which no default satisfies
abbrev pub is_pair : Text → Text → Option (Text × Text) → Bool
is_pair source destination none = false
is_pair source destination (some (s, d)) = (s =t source) && (d =t destination)

abbrev pub is_default : Option (Text × Text) → Bool
is_default none = true
is_default (some _) = false

abbrev pub pair_fee_applies : Text → Text → Timestamp → FeeRuleRow → Bool
pair_fee_applies source destination time r =
    is_pair source destination r.pair && is_valid_at time r.valid_from r.valid_until

abbrev pub default_fee_applies : Timestamp → FeeRuleRow → Bool
default_fee_applies time r = is_default r.pair && is_valid_at time r.valid_from r.valid_until

abbrev pub pair_fee_rows : Text → Text → Timestamp → Database → List FeeRuleRow
pair_fee_rows source destination time db =
    take 2 (order_by fee_before (select (pair_fee_applies source destination time) db.fx_fee_rules))

abbrev pub default_fee_rows : Timestamp → Database → List FeeRuleRow
default_fee_rows time db =
    take 2 (order_by fee_before (select (default_fee_applies time) db.fx_fee_rules))

-- The match on the rows: one row is the answer, none and several are errors.
abbrev pub single :
    {A : Type 0} → ConfigurationError → ConfigurationError → List A → Result ConfigurationError A
single unavailable ambiguous [] = err unavailable
single unavailable ambiguous (x ∷ []) = ok x
single unavailable ambiguous (x ∷ y ∷ ys) = err ambiguous

unfoldable pub select_exchange_rate :
    Env → Text → Text → Timestamp → Tx ConfigurationError ExchangeRateRow
select_exchange_rate env source destination time = do
  rows ← query env database (rate_rows source destination time)
  lift (single rate_unavailable rate_ambiguous rows)

default_fee_rule : Env → Timestamp → Tx ConfigurationError FeeRuleRow
default_fee_rule env time = do
  defaults ← query env database (default_fee_rows time)
  lift (single fee_rule_unavailable fee_rule_ambiguous defaults)

-- The match on the rules of the pair; with none of them the defaults are read.
unfoldable pub choose_fee_rule :
    Env → Timestamp → List FeeRuleRow → Tx ConfigurationError FeeRuleRow
unfolding default_fee_rule
choose_fee_rule env time [] = default_fee_rule env time
choose_fee_rule env time (rule ∷ []) = pure rule
choose_fee_rule env time (rule ∷ other ∷ rules) = fail fee_rule_ambiguous

unfoldable pub select_fee_rule : Env → Text → Text → Timestamp → Tx ConfigurationError FeeRuleRow
unfolding choose_fee_rule
select_fee_rule env source destination time = do
  pair ← query env database (pair_fee_rows source destination time)
  choose_fee_rule env time pair
