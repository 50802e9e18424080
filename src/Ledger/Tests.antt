-- ===== src/Ledger/Tests.antt =====
-- Uses of what is proved of the ledger, on the sample transfer.
use high_performance_ledger.Prelude.{◌≡◌, refl, some, List, [], ◌∷◌, arith}
use high_performance_ledger.Prelude.Int.{pos, ◌+ℤ◌}
use high_performance_ledger.Prelude.Text.{Text, codes}
use high_performance_ledger.Transfers.Sample.{
  env, alice, bob, db, world, request, first, response, answered,
}
use high_performance_ledger.Transfers.Perform.{Order}
use high_performance_ledger.Transfers.Create.Sound.{IsOrder}
use high_performance_ledger.Tx.{done}
use high_performance_ledger.Gate.{Response}
use high_performance_ledger.Transfers.Create.{create_transfer}
use high_performance_ledger.Transfers.Perform.Progress.Record.{IsReliable}
use high_performance_ledger.Transfers.Perform.Progress.{IsPayable}
use high_performance_ledger.Transfers.Create.Progress.{create_transfer_progress}
use high_performance_ledger.Ledger.{total}
use high_performance_ledger.Ledger.Invariant.{IsLedger, create_transfer-IsLedger}
use high_performance_ledger.Ledger.Conservation.{create_transfer_conserves}
use high_performance_ledger.Accounts.{CreateAccountRequest, create_account}
use high_performance_ledger.Ledger.Opening.{create_account-IsLedger}
use high_performance_ledger.Transfers.Request.{check_request, operation_type, read_amount}
use high_performance_ledger.Idempotency.{from_headers}
use high_performance_ledger.Money.{parse_minor_units}
use high_performance_ledger.Prelude.Text.{trim, split_once}
use high_performance_ledger.Prelude.Int.{◌-ℤ◌}

abbrev key : List Text
key = codes "key-1" ∷ []

sample-IsLedger : IsLedger db
sample-IsLedger = record { unique = (refl, (refl, tt)); solvent = λ id a found. ground arith }

-- 10.00 and 0.50 in one currency.
held : total (codes "PLN") db.accounts ≡ pos 1050
unfolding total ◌+ℤ◌
held = refl

create_transfer-IsLedger_example : IsLedger first.1.db
create_transfer-IsLedger_example =
    create_transfer-IsLedger env 86400 (codes "alice") key (some request) world sample-IsLedger

abbrev order : Order
order = record {
  client_id = codes "alice";
  scope = record {
    client_id = codes "alice";
    operation_type = codes "transfer";
    key = codes "key-1";
  };
  checked = record { key = codes "key-1"; source = 65; destination = 66; amount = codes "2.50" };
  preliminary = record {
    source_currency = codes "PLN";
    source_scale = 2;
    destination_currency = codes "PLN";
    destination_scale = 2;
  };
  operation = codes "transfer";
  amount_minor = pos 250;
}

request-IsOrder : IsOrder env (codes "alice") key (some request) db order
unfolding check_request from_headers operation_type read_amount parse_minor_units ◌+ℤ◌ ◌-ℤ◌ trim
    split_once
request-IsOrder = record {
  client = refl;
  scoped = refl;
  checks = refl;
  reads = refl;
  kind = refl;
  amount = refl;
}

create_transfer_conserves_example :
    total (codes "PLN") first.1.db.accounts ≡ total (codes "PLN") db.accounts
create_transfer_conserves_example =
    create_transfer_conserves env 86400 (codes "alice") key (some request) world first.1 response
      order (codes "PLN") answered (refl, (refl, tt)) request-IsOrder refl

abbrev opening : CreateAccountRequest
opening = record { currency = codes "eur"; initial_balance = codes "10.25" }

create_account-IsLedger_example :
    IsLedger (create_account env 60 (codes "alice") key (some opening) world).1.db
create_account-IsLedger_example =
    create_account-IsLedger env 60 (codes "alice") key (some opening) world sample-IsLedger

sample-IsPayable : IsPayable order db
unfolding ◌+ℤ◌ ◌-ℤ◌
sample-IsPayable = record {
  source = alice;
  destination = bob;
  unique = (refl, (refl, tt));
  distinct = λ e. omega (arith, e);
  found_source = refl;
  found_destination = refl;
  owned = refl;
  source_active = refl;
  destination_active = refl;
  read = refl;
  plain = refl;
  positive = omega arith;
  covered = omega arith;
  debit_fits = (omega arith, omega arith);
  credit_fits = (omega arith, omega arith);
}

sample-IsReliable : IsReliable env db
sample-IsReliable = record {
  works = λ n. refl;
  commits = refl;
  new_transfer = λ n. refl;
  new_entry = λ n. refl;
  differ = λ n m h e. h (omega (arith, e));
}

create_transfer_progress_example :
    (r : Response) × ((create_transfer env 86400 (codes "alice") key (some request) world).0
      ≡ done r)
    × (r.status ≡ 201)
create_transfer_progress_example =
    create_transfer_progress env 86400 (codes "alice") key (some request) world order
      request-IsOrder sample-IsPayable sample-IsReliable refl (omega arith) (omega arith)
