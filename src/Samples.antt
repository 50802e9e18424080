-- ===== src/Samples.antt =====
-- Uses of what is proved of the parts that the handlers share, at concrete inputs.
use high_performance_ledger.Prelude.{ℕ, ◌≤◌, ◌≡◌, ◌↔◌, refl, true, none, some, [], ◌∷◌, arith}
use high_performance_ledger.Prelude.Int.{pos, i64_mod}
use high_performance_ledger.Prelude.Text.{Text, codes}
use high_performance_ledger.Prelude.Result.{ok}
use high_performance_ledger.Observability.{
  FinancialOperation, FinancialReason, TerminalOutcome, operation_outcome,
}
use high_performance_ledger.Database.{ExchangeRateRow, FeeRuleRow}
use high_performance_ledger.Fx.Select.{select_exchange_rate, select_fee_rule}
use high_performance_ledger.Fx.Selection.{select_exchange_rate_lem, select_fee_rule_lem}
use high_performance_ledger.Idempotency.{Scope, owned, from_headers, reserve}
use high_performance_ledger.Idempotency.Fingerprint.{transfer_input_injective}
use high_performance_ledger.Idempotency.Protocol.{IsKey, from_headers_iff, reserve_panics_iff}
use high_performance_ledger.Tx.{World, done, panicked}
use high_performance_ledger.Transfers.Sample.{env, db, world, response}
use high_performance_ledger.Gate.{transaction}
use high_performance_ledger.Gate.Atomic.{is_done, transaction_counts_once}
use high_performance_ledger.Auth.{
  split_whitespace, authenticate, from_request_parts, IsAuthenticated, from_request_parts_sound,
}
use high_performance_ledger.Prelude.Text.{trim}

abbrev early : ExchangeRateRow
early = record {
  id = 1;
  source_currency = codes "EUR";
  destination_currency = codes "PLN";
  rate = codes "4.30";
  valid_from = 0;
  valid_until = 50;
}

abbrev late : ExchangeRateRow
late = record {
  id = 2;
  source_currency = codes "EUR";
  destination_currency = codes "PLN";
  rate = codes "4.35";
  valid_from = 50;
  valid_until = 100;
}

abbrev general : FeeRuleRow
general = record { id = 3; pair = none; fee_bps = pos 100; valid_from = 0; valid_until = 100 }

abbrev special : FeeRuleRow
special = record {
  id = 4;
  pair = some (codes "EUR", codes "PLN");
  fee_bps = pos 50;
  valid_from = 0;
  valid_until = 100;
}

abbrev configured : World
configured = record world {
  db = record db { exchange_rates = late ∷ early ∷ []; fx_fee_rules = general ∷ special ∷ [] };
}

select_exchange_rate_lem_example :
    (select_exchange_rate env (codes "EUR") (codes "PLN") 77 configured).0 ≡ done late
select_exchange_rate_lem_example =
    select_exchange_rate_lem env (codes "EUR") (codes "PLN") 77 configured refl

select_fee_rule_lem_example :
    (select_fee_rule env (codes "EUR") (codes "PLN") 77 configured).0 ≡ done special
select_fee_rule_lem_example =
    select_fee_rule_lem env (codes "EUR") (codes "PLN") 77 configured refl refl

transfer_input_injective_example :
    (◌≡◌ {A = ℕ} 65 65) × (◌≡◌ {A = ℕ} 66 66) × (codes "PLN" ≡ codes "PLN") × (pos 250 ≡ pos 250)
transfer_input_injective_example =
    transfer_input_injective 65 66 65 66 (codes "PLN") (codes "PLN") (pos 250) (pos 250)
      (ground arith, ground arith) (ground arith, ground arith) (ground arith, ground arith)
      (ground arith, ground arith) refl

from_headers_iff_example : (from_headers env (codes "key-1" ∷ []) ≡ ok (codes "key-1")) ↔ (
    (value : Text) × (codes "key-1" ∷ [] ≡ value ∷ [])
    × (some value ≡ some (codes "key-1"))
    × IsKey (codes "key-1"))
from_headers_iff_example = from_headers_iff env (codes "key-1" ∷ []) (codes "key-1")

abbrev scope : Scope
scope = record { client_id = codes "alice"; operation_type = codes "transfer"; key = codes "key-1" }

reserve_panics_iff_example :
    ((reserve env scope (codes "f") 9223372036854775808 world).0 ≡ panicked)
    ↔ (i64_mod ≤ 9223372036854775808)
reserve_panics_iff_example = reserve_panics_iff env scope (codes "f") 9223372036854775808 world refl

abbrev world_then : World
world_then = (reserve env scope (codes "f") 60 world).1

reserved_now : reserve env scope (codes "f") 60 world ≡ (done owned, world_then)
unfolding reserve
reserved_now = refl

transaction_counts_once_example :
    (result : TerminalOutcome) × (reason : FinancialReason) × ((transaction env
        FinancialOperation.transfer
        (λ v. (done response, v))
        world).1.counted
      ≡ operation_outcome FinancialOperation.transfer result reason ∷ [])
    × ((result ≡ TerminalOutcome.success) ↔ (
        is_done (transaction env FinancialOperation.transfer (λ v. (done response, v)) world).0
        ≡ true))
transaction_counts_once_example =
    transaction_counts_once env FinancialOperation.transfer (λ v. (done response, v)) world

-- A token stands for the client that it names.
known :
    from_request_parts (λ s. some s) (λ s. some (some s)) (codes "bearer  alice" ∷ [])
    ≡ ok (codes "alice")
unfolding from_request_parts authenticate split_whitespace trim
known = refl

from_request_parts_sound_example :
    IsAuthenticated (λ s. some s) (λ s. some (some s)) (codes "bearer  alice" ∷ []) (codes "alice")
from_request_parts_sound_example =
    from_request_parts_sound (λ s. some s) (λ s. some (some s)) (codes "bearer  alice" ∷ [])
      (codes "alice") known
