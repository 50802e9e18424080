-- ===== src/ApiError.antt =====
-- src/api_error.rs: the errors of the handlers, the responses that they become, and the reasons
-- that they are counted under.
pub mod Laws
use high_performance_ledger.Prelude.{ℕ, Option, none, List, [], ◌∷◌, if◌then◌else◌}
use high_performance_ledger.Prelude.Text.{Text, codes, ◌=t◌}
use high_performance_ledger.Observability.{FinancialReason, TerminalOutcome}

-- `details` is a JSON value, given by its text. The source of an internal error is only logged.
pub data AppError : Type 0 where
  bad_request : Option Text → AppError
  validation business : Text → Text → AppError
  unauthorized forbidden not_found conflict idempotency_conflict account_unavailable
        service_unavailable internal :
      AppError

-- The envelope of an error; `request_id` is always empty.
pub record ErrorEnvelope : Type 0 where
  pub code : Text
  pub message : Text
  pub details : Option Text

abbrev pub envelope : Text → Text → Option Text → ErrorEnvelope
envelope code message details = record { code = code; message = message; details = details }

-- The arms of the match in `financial_reason`.
abbrev pub reasons : List (Text × FinancialReason)
reasons =
    (codes "same_source_and_destination", FinancialReason.same_source_and_destination)
    ∷ (codes "account_unavailable", FinancialReason.account_unavailable)
    ∷ (codes "insufficient_funds", FinancialReason.insufficient_funds)
    ∷ (codes "rate_unavailable", FinancialReason.rate_unavailable)
    ∷ (codes "rate_configuration_ambiguous", FinancialReason.rate_configuration_ambiguous)
    ∷ (codes "fee_rule_unavailable", FinancialReason.fee_rule_unavailable)
    ∷ (codes "fee_rule_configuration_ambiguous", FinancialReason.fee_rule_configuration_ambiguous)
    ∷ (codes "destination_amount_too_small", FinancialReason.destination_amount_too_small)
    ∷ (codes "idempotency_conflict", FinancialReason.idempotency_conflict)
    ∷ (codes "reversal_of_reversal", FinancialReason.reversal_of_reversal)
    ∷ (codes "transfer_already_reversed", FinancialReason.transfer_already_reversed)
    ∷ (codes "arithmetic_overflow", FinancialReason.arithmetic_overflow)
    ∷ (codes "malformed_amount", FinancialReason.malformed_amount)
    ∷ (codes "too_many_fractional_digits", FinancialReason.too_many_fractional_digits)
    ∷ (codes "non_positive_amount", FinancialReason.non_positive_amount)
    ∷ (codes "amount_overflow", FinancialReason.amount_overflow)
    ∷ (codes "malformed_account_id", FinancialReason.malformed_account_id)
    ∷ (codes "malformed_transfer_id", FinancialReason.malformed_transfer_id)
    ∷ (codes "invalid_json", FinancialReason.invalid_json)
    ∷ []

unfoldable pub find_reason : Text → List (Text × FinancialReason) → FinancialReason
find_reason code [] = FinancialReason.invalid_request
find_reason code ((arm, reason) ∷ arms) = if code =t arm then reason else find_reason code arms

unfoldable pub financial_reason : Text → FinancialReason
financial_reason code = find_reason code reasons

unfoldable pub financial_metric_outcome : AppError → TerminalOutcome × FinancialReason
financial_metric_outcome internal = (TerminalOutcome.internal_error, FinancialReason.internal_error)
financial_metric_outcome idempotency_conflict =
    (TerminalOutcome.rejected, FinancialReason.idempotency_conflict)
financial_metric_outcome account_unavailable =
    (TerminalOutcome.rejected, FinancialReason.account_unavailable)
financial_metric_outcome (business code message) = (TerminalOutcome.rejected, financial_reason code)
financial_metric_outcome (validation code message) =
    (TerminalOutcome.rejected, financial_reason code)
financial_metric_outcome not_found = (TerminalOutcome.rejected, FinancialReason.not_found)
financial_metric_outcome (bad_request details) =
    (TerminalOutcome.rejected, FinancialReason.bad_request)
financial_metric_outcome unauthorized = (TerminalOutcome.rejected, FinancialReason.unauthorized)
financial_metric_outcome forbidden = (TerminalOutcome.rejected, FinancialReason.forbidden)
financial_metric_outcome conflict = (TerminalOutcome.rejected, FinancialReason.conflict)
financial_metric_outcome service_unavailable =
    (TerminalOutcome.rejected, FinancialReason.service_unavailable)

-- The status and the envelope of an error.
unfoldable pub response_parts : AppError → ℕ × ErrorEnvelope
response_parts (bad_request details) =
    (400, envelope (codes "bad_request") (codes "The request is invalid") details)
response_parts (validation code message) = (400, envelope code message none)
response_parts unauthorized =
    (401, envelope (codes "unauthorized") (codes "Authentication is required") none)
response_parts forbidden =
    (403, envelope (codes "forbidden") (codes "You are not allowed to perform this action") none)
response_parts not_found =
    (404, envelope (codes "not_found") (codes "The requested resource was not found") none)
response_parts conflict =
    (409, envelope (codes "conflict") (codes "The request conflicts with current state") none)
response_parts idempotency_conflict = (
  409,
  envelope (codes "idempotency_conflict")
      (codes "The Idempotency-Key was already used for a different request") none,
)
response_parts account_unavailable = (
  404,
  envelope (codes "account_unavailable") (codes "The requested account is unavailable") none,
)
response_parts (business code message) = (422, envelope code message none)
response_parts service_unavailable =
    (503, envelope (codes "service_unavailable") (codes "Service is temporarily unavailable") none)
response_parts internal =
    (500, envelope (codes "internal_error") (codes "An internal error occurred") none)
