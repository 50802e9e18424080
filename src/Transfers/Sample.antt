-- ===== src/Transfers/Sample.antt =====
-- A sample: two accounts, a request, and the run of `create_transfer` on them.
use high_performance_ledger.Prelude.{◌+◌, ◌≡◌, refl, false, none, some, [], ◌∷◌}
use high_performance_ledger.Prelude.Int.{pos, ◌+ℤ◌, ◌-ℤ◌}
use high_performance_ledger.Prelude.Text.{codes, trim, split_once}
use high_performance_ledger.Prelude.Decimal.{decimal, padded}
use high_performance_ledger.Money.{parse_minor_units, format_minor_units}
use high_performance_ledger.ApiError.{AppError}
use high_performance_ledger.Database.{Account, active, Database, transfer_created}
use high_performance_ledger.Database.Records.{insert_transfer, insert_entry}
use high_performance_ledger.Idempotency.{
  from_headers, transfer_fingerprint, completed_success, reserve, store_success,
}
use high_performance_ledger.Tx.{Env, World, Outcome, done, committed}
use high_performance_ledger.Transfers.Request.{
  CreateTransferRequest, check_request, operation_type, read_amount,
}
use high_performance_ledger.Transfers.Price.{
  load_configuration, lock_pair, check_pair, price, new_balances,
}
use high_performance_ledger.Transfers.Record.{record_transfer, response_body}
use high_performance_ledger.Transfers.Perform.{perform_transfer}
use high_performance_ledger.Transfers.Create.{create_transfer, transfer_block}
use high_performance_ledger.Gate.{Response, gate, transaction}

-- Ids are written in decimal, the n-th UUID is 1000 + n, and a text stands for its own hash.
abbrev pub env : Env
env = record {
  fails = λ n. false;
  new_v4 = λ n. 1000 + n;
  now = 77;
  commit = committed;
  parse_uuid = λ t. elim t [ [] ↦ none | c ∷ s ↦ some c ];
  timestamp_text = λ n. n ∷ [];
  to_rfc3339 = λ n. n ∷ [];
  sha256_hex = λ s. s;
  header_to_str = λ s. some s;
  status_from_u16 = λ n. some n;
}

abbrev pub alice : Account
alice = record {
  id = 65;
  owner_id = codes "alice";
  currency = codes "PLN";
  currency_scale = 2;
  balance_minor = pos 1000;
  status = active;
  version = 0;
}

abbrev pub bob : Account
bob = record {
  id = 66;
  owner_id = codes "bob";
  currency = codes "PLN";
  currency_scale = 2;
  balance_minor = pos 50;
  status = active;
  version = 3;
}

abbrev pub db : Database
db = record {
  accounts = bob ∷ alice ∷ [];
  transfers = [];
  account_entries = [];
  idempotency_records = [];
  exchange_rates = [];
  fx_fee_rules = [];
}

abbrev pub world : World
world = record { db = db; calls = 0; counted = [] }

abbrev pub request : CreateTransferRequest
request = record {
  source_account_id = codes "A";
  destination_account_id = codes "B";
  amount = codes "2.50";
}

abbrev pub first : Outcome AppError Response × World
first = create_transfer env 86400 (codes "alice") (codes "key-1" ∷ []) (some request) world

abbrev pub response : Response
response = record {
  status = 201;
  body = transfer_created 1007 65 66 (codes "PLN") (codes "2.50") (77 ∷ []);
}

pub answered : first ≡ (done response, first.1)
unfolding create_transfer transfer_block transaction gate perform_transfer check_request
    from_headers operation_type read_amount load_configuration lock_pair check_pair price
    new_balances record_transfer response_body insert_transfer insert_entry completed_success
    reserve store_success parse_minor_units format_minor_units transfer_fingerprint ◌+ℤ◌ ◌-ℤ◌ trim
    split_once decimal padded
answered = refl
