-- ===== src/Transfers/Tests.antt =====
-- Runs of `create_transfer`, and uses of what is proved of it.
use high_performance_ledger.Prelude.{
  none, ◌≡◌, refl, true, false, some, List, [], ◌∷◌, ap, ◌≢◌, ◌⊎◌,
}
use high_performance_ledger.Prelude.Int.{ℤ, pos, ◌+ℤ◌, ◌-ℤ◌}
use high_performance_ledger.Prelude.Text.{Text, codes, trim, split_once, ◌=t◌}
use high_performance_ledger.Prelude.Decimal.{decimal, padded}
use high_performance_ledger.Money.{parse_minor_units, format_minor_units}
use high_performance_ledger.Database.{IdempotencyRecord}
use high_performance_ledger.Database.Accounts.{find_account}
use high_performance_ledger.Database.Records.{insert_transfer, insert_entry}
use high_performance_ledger.Idempotency.{
  find_record, from_headers, transfer_fingerprint, be_bytes, completed_success, reserve,
  store_success,
}
use high_performance_ledger.Tx.{done, failed}
use high_performance_ledger.Transfers.Request.{
  CreateTransferRequest, check_request, operation_type, read_amount,
}
use high_performance_ledger.Transfers.Price.{
  load_configuration, lock_pair, check_pair, price, new_balances, insufficient_funds,
}
use high_performance_ledger.Transfers.Record.{record_transfer, response_body}
use high_performance_ledger.Transfers.Perform.{Order, perform_transfer}
use high_performance_ledger.Transfers.Create.{create_transfer, transfer_block}
use high_performance_ledger.Gate.{gate, transaction}
use high_performance_ledger.ApiError.{idempotency_conflict}
use high_performance_ledger.Tx.{unacknowledged}
use high_performance_ledger.Gate.Atomic.{IsStored}
use high_performance_ledger.Transfers.Sample.{
  env, alice, bob, db, world, request, first, response, answered,
}
use high_performance_ledger.Transfers.Create.Sound.{
  IsOrder, IsExecuted, IsReplay, fingerprint_of, create_transfer_sound,
}
use high_performance_ledger.Transfers.Create.Replay.{
  create_transfer_replays, create_transfer_conflicts,
}
use high_performance_ledger.Database.{Transfer, Kind}
use high_performance_ledger.ApiError.{not_found}
use high_performance_ledger.Transfers.Details.{get_transfer, get_transfer_lem}

abbrev moved_before : Transfer
moved_before = record {
  id = 7;
  source_account_id = 65;
  destination_account_id = 66;
  source_currency = codes "PLN";
  destination_currency = codes "PLN";
  source_amount_minor = pos 250;
  destination_amount_minor = pos 250;
  fee_amount_minor = pos 0;
  total_source_debit_minor = pos 250;
  fee_bps = none;
  exchange_rate = none;
  exchange_rate_id = none;
  kind = Kind.transfer;
  reverses_transfer_id = none;
  initiated_by = codes "alice";
  created_at = 77;
}

get_transfer_lem_example :
    ((get_transfer env
        (codes "carol")
        (7 ∷ [])
        (record world { db = record db { transfers = moved_before ∷ [] } })).0
      ≡ failed not_found)
    × ((get_transfer env
          (codes "carol")
          (7 ∷ [])
          (record world { db = record db { transfers = moved_before ∷ [] } })).1.db
        ≡ record db { transfers = moved_before ∷ [] })
get_transfer_lem_example =
    get_transfer_lem env (codes "carol") (7 ∷ []) 7 moved_before alice bob
      (record world { db = record db { transfers = moved_before ∷ [] } }) refl refl refl refl refl

abbrev key : List Text
key = codes "key-1" ∷ []

-- The balances behind the run: 2.50 have moved.
moved :
    (find_account 65 first.1.db.accounts
      ≡ some (record alice { balance_minor = pos 750; version = 1 }))
    × (find_account 66 first.1.db.accounts
        ≡ some (record bob { balance_minor = pos 300; version = 4 }))
unfolding create_transfer transfer_block transaction gate perform_transfer check_request
    from_headers operation_type read_amount load_configuration lock_pair check_pair price
    new_balances record_transfer response_body insert_transfer insert_entry completed_success
    reserve store_success parse_minor_units format_minor_units transfer_fingerprint ◌+ℤ◌ ◌-ℤ◌ trim
    split_once decimal padded
moved = (refl, refl)

-- The answer is lost behind the COMMIT: the tables are changed all the same.
lost :
    (create_transfer
      (record env { commit = unacknowledged })
      86400
      (codes "alice")
      key
      (some request)
      world).1.db
    ≡ first.1.db
unfolding create_transfer transfer_block transaction gate perform_transfer check_request
    from_headers operation_type read_amount load_configuration lock_pair check_pair price
    new_balances record_transfer response_body insert_transfer insert_entry completed_success
    reserve store_success parse_minor_units format_minor_units transfer_fingerprint ◌+ℤ◌ ◌-ℤ◌ trim
    split_once decimal padded
lost = refl

-- One minor unit more than there is.
too_much :
    (create_transfer env 86400
      (codes "alice")
      key
      (some (record request { amount = codes "10.01" }))
      world).0
    ≡ failed insufficient_funds
unfolding create_transfer transfer_block transaction gate perform_transfer check_request
    from_headers operation_type read_amount load_configuration lock_pair check_pair price
    new_balances record_transfer response_body insert_transfer insert_entry completed_success
    reserve store_success parse_minor_units format_minor_units transfer_fingerprint ◌+ℤ◌ ◌-ℤ◌ trim
    split_once decimal padded
too_much = refl

create_transfer_sound_example :
    (o : Order) × IsOrder env (codes "alice") key (some request) db o
    × (IsExecuted env 86400 o db first.1.db response ⊎ IsReplay env o db first.1.db response)
create_transfer_sound_example =
    create_transfer_sound env 86400 (codes "alice") key (some request) world first.1 response
      answered

-- The order that a request for the amount makes of the tables behind the run.
abbrev order_for : Text → ℤ → Order
order_for amount minor = record {
  client_id = codes "alice";
  scope = record {
    client_id = codes "alice";
    operation_type = codes "transfer";
    key = codes "key-1";
  };
  checked = record { key = codes "key-1"; source = 65; destination = 66; amount = amount };
  preliminary = record {
    source_currency = codes "PLN";
    source_scale = 2;
    destination_currency = codes "PLN";
    destination_scale = 2;
  };
  operation = codes "transfer";
  amount_minor = minor;
}

same-IsOrder :
    IsOrder env (codes "alice") key (some request) first.1.db (order_for (codes "2.50") (pos 250))
unfolding create_transfer transfer_block transaction gate perform_transfer check_request
    from_headers operation_type read_amount load_configuration lock_pair check_pair price
    new_balances record_transfer response_body insert_transfer insert_entry completed_success
    reserve store_success parse_minor_units format_minor_units transfer_fingerprint ◌+ℤ◌ ◌-ℤ◌ trim
    split_once decimal padded
same-IsOrder = record {
  client = refl;
  scoped = refl;
  checks = refl;
  reads = refl;
  kind = refl;
  amount = refl;
}

other_request : CreateTransferRequest
other_request = record request { amount = codes "3.00" }

other-IsOrder :
    IsOrder env
      (codes "alice")
      key
      (some other_request)
      first.1.db
      (order_for (codes "3.00") (pos 300))
unfolding create_transfer transfer_block transaction gate perform_transfer check_request
    from_headers operation_type read_amount load_configuration lock_pair check_pair price
    new_balances record_transfer response_body insert_transfer insert_entry completed_success
    reserve store_success parse_minor_units format_minor_units transfer_fingerprint ◌+ℤ◌ ◌-ℤ◌ trim
    split_once decimal padded other_request
other-IsOrder = record {
  client = refl;
  scoped = refl;
  checks = refl;
  reads = refl;
  kind = refl;
  amount = refl;
}

abbrev stored : IdempotencyRecord
stored = record {
  client_id = codes "alice";
  operation_type = codes "transfer";
  idempotency_key = codes "key-1";
  request_fingerprint = transfer_fingerprint env 65 66 (codes "PLN") (pos 250);
  result = some (201, response.body, 1007);
  created_at = 77;
  expires_at = 86400000077;
}

in_use :
    find_record (order_for (codes "2.50") (pos 250)).scope first.1.db.idempotency_records
    ≡ some stored
unfolding create_transfer transfer_block transaction gate perform_transfer check_request
    from_headers operation_type read_amount load_configuration lock_pair check_pair price
    new_balances record_transfer response_body insert_transfer insert_entry completed_success
    reserve store_success parse_minor_units format_minor_units transfer_fingerprint ◌+ℤ◌ ◌-ℤ◌ trim
    split_once decimal padded
in_use = refl

kept :
    IsStored env
      (order_for (codes "2.50") (pos 250)).scope
      (fingerprint_of env (order_for (codes "2.50") (pos 250)))
      first.1.db
      response
kept = record {
  kept = stored;
  id = 1007;
  http_status = 201;
  found = in_use;
  same = refl;
  result = refl;
  status = refl;
}

create_transfer_replays_example :
    ((create_transfer env 60 (codes "alice") key (some request) first.1).0 ≡ done response)
    × ((create_transfer env 60 (codes "alice") key (some request) first.1).1.db ≡ first.1.db)
create_transfer_replays_example =
    create_transfer_replays env 60 (codes "alice") key (some request) first.1
      (order_for (codes "2.50") (pos 250)) (λ n h. refl) same-IsOrder response refl kept

differs : stored.request_fingerprint ≢ fingerprint_of env (order_for (codes "3.00") (pos 300))
unfolding transfer_fingerprint be_bytes
differs e =
    let h : false ≡ true =
      ap (λ s. s =t fingerprint_of env (order_for (codes "3.00") (pos 300))) e in
    cc

create_transfer_conflicts_example :
    ((create_transfer env 60 (codes "alice") key (some other_request) first.1).0
      ≡ failed idempotency_conflict)
    × ((create_transfer env 60 (codes "alice") key (some other_request) first.1).1.db ≡ first.1.db)
create_transfer_conflicts_example =
    create_transfer_conflicts env 60 (codes "alice") key (some other_request) first.1
      (order_for (codes "3.00") (pos 300)) (λ n h. refl) other-IsOrder stored
      (201, response.body, 1007) in_use refl differs
