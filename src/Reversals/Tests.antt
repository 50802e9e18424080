-- ===== src/Reversals/Tests.antt =====
-- Uses of what is proved of `reverse_transfer`.
use high_performance_ledger.Prelude.{inl, ◌≡◌, ◌⊎◌, refl, none, [], ◌∷◌, arith}
use high_performance_ledger.Prelude.Int.{pos, ◌+ℤ◌, ◌-ℤ◌}
use high_performance_ledger.Prelude.Text.{codes, trim, split_once}
use high_performance_ledger.Prelude.Decimal.{decimal, padded}
use high_performance_ledger.Money.{parse_minor_units, format_minor_units}
use high_performance_ledger.Database.{Transfer, Kind}
use high_performance_ledger.Database.Records.{insert_transfer, insert_entry}
use high_performance_ledger.Idempotency.{
  from_headers, transfer_fingerprint, completed_success, reserve, store_success,
}
use high_performance_ledger.Gate.{gate, transaction}
use high_performance_ledger.Transfers.Request.{check_request, operation_type, read_amount}
use high_performance_ledger.Transfers.Price.{
  load_configuration, lock_pair, check_pair, price, new_balances,
}
use high_performance_ledger.Transfers.Record.{record_transfer, response_body}
use high_performance_ledger.Transfers.Perform.{perform_transfer}
use high_performance_ledger.Transfers.Create.{create_transfer, transfer_block}
use high_performance_ledger.Transfers.Moved.{moved-Moves}
use high_performance_ledger.Database.{Uuid}
use high_performance_ledger.Transfers.Sample.{env, alice, bob, db, first, response}
use high_performance_ledger.Transfers.Create.Sound.{IsExecuted, reserved, fingerprint_of}
use high_performance_ledger.Transfers.Perform.{Order}
use high_performance_ledger.Reversals.{Undo}
use high_performance_ledger.Reversals.Sample.{key, reversed, answer, is_answered}
use high_performance_ledger.Reversals.Sound.{IsUndo, IsReversed, IsRepeated, reverse_transfer_sound}
use high_performance_ledger.Reversals.Restores.{balance_of, reverse_transfer_restores}

reverse_transfer_sound_example :
    (u : Undo) × IsUndo env (codes "bob") key (1007 ∷ []) u
    × (IsReversed env 86400 u first.1.db reversed.1.db answer
        ⊎ IsRepeated env u first.1.db reversed.1.db answer)
reverse_transfer_sound_example =
    reverse_transfer_sound env 86400 (codes "bob") key (1007 ∷ []) first.1 reversed.1 answer
      is_answered

abbrev order : Order
order = record {
  client_id = codes "alice";
  scope = record {
    client_id = codes "alice";
    operation_type = codes "transfer";
    key = codes "key-1";
  };
  checked = record { key = codes "key-1"; source = 65; destination = 66; amount = codes "2.50" };
  preliminary = record {
    source_currency = codes "PLN";
    source_scale = 2;
    destination_currency = codes "PLN";
    destination_scale = 2;
  };
  operation = codes "transfer";
  amount_minor = pos 250;
}

abbrev paid : Transfer
paid = record {
  id = 1007;
  source_account_id = 65;
  destination_account_id = 66;
  source_currency = codes "PLN";
  destination_currency = codes "PLN";
  source_amount_minor = pos 250;
  destination_amount_minor = pos 250;
  fee_amount_minor = pos 0;
  total_source_debit_minor = pos 250;
  fee_bps = none;
  exchange_rate = none;
  exchange_rate_id = none;
  kind = Kind.transfer;
  reverses_transfer_id = none;
  initiated_by = codes "alice";
  created_at = 77;
}

is_executed : IsExecuted env 86400 order db first.1.db response
unfolding create_transfer transfer_block transaction gate perform_transfer check_request
    from_headers operation_type read_amount load_configuration lock_pair check_pair price
    new_balances record_transfer response_body insert_transfer insert_entry completed_success
    reserve store_success parse_minor_units format_minor_units transfer_fingerprint ◌+ℤ◌ ◌-ℤ◌ trim
    split_once decimal padded
is_executed = record {
  new_key = refl;
  performed = record {
    transfer = paid;
    source = alice;
    destination = bob;
    from = refl;
    to = refl;
    amount = refl;
    moves =
        moved-Moves paid alice bob 1011 1013 first.1.db.idempotency_records
          (reserved env 86400 order.scope (fingerprint_of env order) db) refl refl refl
          (omega arith) (omega arith);
    entitled = record {
      owned = refl;
      source_active = refl;
      destination_active = refl;
      covered = omega arith;
      initiated = refl;
    };
    priced = record {
      sent = omega arith;
      received = omega arith;
      fee = omega arith;
      fee_bound = omega arith;
      total = refl;
      forward = λ h. ground arith;
      free = λ h. refl;
      exact = λ h. refl;
    };
    detailed = record {
      source_currency = refl;
      destination_currency = refl;
      time = refl;
      forward = refl;
      configured =
          inl
            (record { kind = refl; fee_bps = refl; exchange_rate = refl; exchange_rate_id = refl });
      body = refl;
    };
    kind = refl;
    source_currency = refl;
    destination_currency = refl;
    created = refl;
    kept = refl;
  };
}

reverse_transfer_restores_example :
    (u : Undo) × IsUndo env (codes "bob") key (1007 ∷ []) u
    × (((id : Uuid) → balance_of id reversed.1.db ≡ balance_of id db)
        ⊎ IsRepeated env u first.1.db reversed.1.db answer)
unfolding is_executed
reverse_transfer_restores_example =
    reverse_transfer_restores env env 86400 86400 order db response answer (codes "bob") key
      (1007 ∷ []) first.1 reversed.1 is_executed refl is_answered
