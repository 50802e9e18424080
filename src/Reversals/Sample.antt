-- ===== src/Reversals/Sample.antt =====
-- A sample: the run of `reverse_transfer` on the tables that the sample transfer leaves.
use high_performance_ledger.Prelude.{◌≡◌, refl, [], ◌∷◌, List}
use high_performance_ledger.Prelude.Int.{◌+ℤ◌, ◌-ℤ◌}
use high_performance_ledger.Prelude.Text.{Text, codes, trim, split_once}
use high_performance_ledger.Prelude.Decimal.{decimal, padded}
use high_performance_ledger.Money.{parse_minor_units, format_minor_units}
use high_performance_ledger.ApiError.{AppError}
use high_performance_ledger.Database.{reversal_created}
use high_performance_ledger.Database.Records.{insert_transfer, insert_entry}
use high_performance_ledger.Idempotency.{
  from_headers, transfer_fingerprint, reversal_fingerprint, completed_success, reserve,
  store_success,
}
use high_performance_ledger.Tx.{World, Outcome, done}
use high_performance_ledger.Gate.{Response, gate, transaction}
use high_performance_ledger.Transfers.Request.{check_request, operation_type, read_amount}
use high_performance_ledger.Transfers.Price.{
  load_configuration, lock_pair, check_pair, price, new_balances,
}
use high_performance_ledger.Transfers.Record.{
  record_transfer, response_body, update_balance, insert_entry_row,
}
use high_performance_ledger.Transfers.Perform.{perform_transfer}
use high_performance_ledger.Transfers.Create.{create_transfer, transfer_block}
use high_performance_ledger.Transfers.Sample.{env, first}
use high_performance_ledger.Reversals.{
  reverse_transfer, reversal_block, perform_reversal, check_original, check_accounts,
  restored_balances, record_reversal, reversal_body,
}

abbrev pub key : List Text
key = codes "key-2" ∷ []

abbrev pub reversed : Outcome AppError Response × World
reversed = reverse_transfer env 86400 (codes "bob") key (1007 ∷ []) first.1

abbrev pub answer : Response
answer = record {
  status = 201;
  body =
      reversal_created 1024 1007 66 65 (codes "PLN") (codes "PLN") (codes "2.50") (codes "2.50")
        (codes "0.00") (codes "2.50") (codes "0.50") (codes "10.00") (77 ∷ []);
}

-- Bob takes the transfer of Alice back.
pub is_answered : reversed ≡ (done answer, reversed.1)
unfolding create_transfer transfer_block transaction gate perform_transfer check_request
    from_headers operation_type read_amount load_configuration lock_pair check_pair price
    new_balances record_transfer response_body insert_transfer insert_entry completed_success
    reserve store_success parse_minor_units format_minor_units transfer_fingerprint ◌+ℤ◌ ◌-ℤ◌ trim
    split_once decimal padded reverse_transfer reversal_block perform_reversal check_original
    check_accounts restored_balances record_reversal reversal_body reversal_fingerprint
    update_balance insert_entry_row
is_answered = refl
