-- ===== src/Observability.antt =====
-- src/observability.rs: the labels of the financial metrics, and the observation of one database
-- transaction, which reports how it ended. A counter is modelled by the list of what was counted;
-- clocks, histograms and log lines are left out.
pub mod Requests
use high_performance_ledger.Prelude.{Bool, true, false, List, ◌∷◌, if◌then◌else◌}
use high_performance_ledger.Prelude.Text.{Text, codes}

pub data FinancialOperation : Type 0 where
  transfer fx_transfer reversal : FinancialOperation

pub data TerminalOutcome : Type 0 where
  success rejected internal_error : TerminalOutcome

pub data IdempotencyOutcome : Type 0 where
  owner replay conflict : IdempotencyOutcome

pub data FinancialReason : Type 0 where
  none internal_error same_source_and_destination account_unavailable insufficient_funds
        rate_unavailable rate_configuration_ambiguous fee_rule_unavailable
        fee_rule_configuration_ambiguous destination_amount_too_small idempotency_conflict
        reversal_of_reversal transfer_already_reversed arithmetic_overflow malformed_amount
        too_many_fractional_digits non_positive_amount amount_overflow malformed_account_id
        malformed_transfer_id invalid_json not_found bad_request unauthorized forbidden conflict
        service_unavailable invalid_request :
      FinancialReason

-- `FinancialOperation::as_str`
abbrev pub operation_label : FinancialOperation → Text
operation_label FinancialOperation.transfer = codes "transfer"
operation_label FinancialOperation.fx_transfer = codes "fx_transfer"
operation_label FinancialOperation.reversal = codes "reversal"

-- `FinancialReason::as_str`
abbrev pub reason_label : FinancialReason → Text
reason_label FinancialReason.none = codes "none"
reason_label FinancialReason.internal_error = codes "internal_error"
reason_label FinancialReason.same_source_and_destination = codes "same_source_and_destination"
reason_label FinancialReason.account_unavailable = codes "account_unavailable"
reason_label FinancialReason.insufficient_funds = codes "insufficient_funds"
reason_label FinancialReason.rate_unavailable = codes "rate_unavailable"
reason_label FinancialReason.rate_configuration_ambiguous = codes "rate_configuration_ambiguous"
reason_label FinancialReason.fee_rule_unavailable = codes "fee_rule_unavailable"
reason_label FinancialReason.fee_rule_configuration_ambiguous =
    codes "fee_rule_configuration_ambiguous"
reason_label FinancialReason.destination_amount_too_small = codes "destination_amount_too_small"
reason_label FinancialReason.idempotency_conflict = codes "idempotency_conflict"
reason_label FinancialReason.reversal_of_reversal = codes "reversal_of_reversal"
reason_label FinancialReason.transfer_already_reversed = codes "transfer_already_reversed"
reason_label FinancialReason.arithmetic_overflow = codes "arithmetic_overflow"
reason_label FinancialReason.malformed_amount = codes "malformed_amount"
reason_label FinancialReason.too_many_fractional_digits = codes "too_many_fractional_digits"
reason_label FinancialReason.non_positive_amount = codes "non_positive_amount"
reason_label FinancialReason.amount_overflow = codes "amount_overflow"
reason_label FinancialReason.malformed_account_id = codes "malformed_account_id"
reason_label FinancialReason.malformed_transfer_id = codes "malformed_transfer_id"
reason_label FinancialReason.invalid_json = codes "invalid_json"
reason_label FinancialReason.not_found = codes "not_found"
reason_label FinancialReason.bad_request = codes "bad_request"
reason_label FinancialReason.unauthorized = codes "unauthorized"
reason_label FinancialReason.forbidden = codes "forbidden"
reason_label FinancialReason.conflict = codes "conflict"
reason_label FinancialReason.service_unavailable = codes "service_unavailable"
reason_label FinancialReason.invalid_request = codes "invalid_request"

-- What the counters `ledger_idempotency_outcomes_total` and `ledger_operations_total` are told.
pub data Metric : Type 0 where
  idempotency_outcome : FinancialOperation → IdempotencyOutcome → Metric
  operation_outcome : FinancialOperation → TerminalOutcome → FinancialReason → Metric

pub record TransactionObservation : Type 0 where
  pub operation : FinancialOperation
  pub completed : Bool

abbrev pub started : FinancialOperation → TransactionObservation
started operation = record { operation = operation; completed = false }

-- `TransactionObservation::idempotency`
abbrev pub idempotency : TransactionObservation → IdempotencyOutcome → List Metric → List Metric
idempotency o outcome counted = idempotency_outcome o.operation outcome ∷ counted

-- `TransactionObservation::complete`: the first call counts, and later ones do nothing.
abbrev pub complete :
    TransactionObservation
    → TerminalOutcome
    → FinancialReason
    → List Metric
    → TransactionObservation × List Metric
complete o outcome reason counted =
    if o.completed
    then (o, counted)
    else (record o { completed = true }, operation_outcome o.operation outcome reason ∷ counted)

-- `Drop for TransactionObservation`: what was not completed counts as an internal error.
abbrev pub drop : TransactionObservation → List Metric → List Metric
drop o counted =
    if o.completed
    then counted
    else (complete o TerminalOutcome.internal_error FinancialReason.internal_error counted).1

-- What an observation counts that is completed and then goes out of scope.
abbrev pub complete_and_drop :
    TransactionObservation → TerminalOutcome → FinancialReason → List Metric → List Metric
complete_and_drop o outcome reason counted =
    let (completed, counts) = complete o outcome reason counted in drop completed counts
