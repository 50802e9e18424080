-- ===== src/Transfers/Request.antt =====
-- The first part of `create_transfer`: what is checked of the request, the currencies of the two
-- accounts, and the kind of the operation.
use high_performance_ledger.Prelude.{ℕ, List, Option, none, some, ◌==◌, leb, if◌then◌else◌}
use high_performance_ledger.Prelude.Int.{ℤ, pos, leb_ℤ}
use high_performance_ledger.Prelude.Text.{Text, codes, ◌=t◌}
use high_performance_ledger.Prelude.Result.{Result, ok, err, ◌>>=◌, ◌>>◌, return_if, ok_or, map_err}
use high_performance_ledger.Money.{
  MoneyError, parse_minor_units, malformed, too_many_fractional_digits, negative, overflow,
}
use high_performance_ledger.Fx.{
  ArithmeticError, invalid_rate, invalid_scale, invalid_amount, destination_too_small,
}
use high_performance_ledger.Fx.Select.{
  ConfigurationError, rate_unavailable, rate_ambiguous, fee_rule_unavailable, fee_rule_ambiguous,
  database,
}
use high_performance_ledger.ApiError.{AppError, validation, business, internal}
use high_performance_ledger.Database.{Uuid, Account, Database}
use high_performance_ledger.Database.Accounts.{find_account}
use high_performance_ledger.Idempotency.{from_headers, transfer_operation, fx_transfer_operation}
use high_performance_ledger.Tx.{Env}

pub record CreateTransferRequest : Type 0 where
  pub source_account_id : Text
  pub destination_account_id : Text
  pub amount : Text

-- What the checks make of the headers and the body.
pub record Checked : Type 0 where
  pub key : Text
  pub source : Uuid
  pub destination : Uuid
  pub amount : Text

abbrev pub malformed_account_id : AppError
malformed_account_id = validation (codes "malformed_account_id") (codes "The account ID is invalid")

abbrev pub same_accounts : AppError
same_accounts =
    validation (codes "same_source_and_destination")
      (codes "The source and destination accounts must differ")

abbrev pub invalid_json : AppError
invalid_json = validation (codes "invalid_json") (codes "The request body is invalid")

-- The values of the header `Idempotency-Key`, and the body; `none` is a body that is no request.
unfoldable pub check_request :
    Env → List Text → Option CreateTransferRequest → Result AppError Checked
check_request env headers body = do
  key ← from_headers env headers
  request ← ok_or body invalid_json
  source ← ok_or (env.parse_uuid request.source_account_id) malformed_account_id
  destination ← ok_or (env.parse_uuid request.destination_account_id) malformed_account_id
  return_if (source == destination) same_accounts
  ok (record { key = key; source = source; destination = destination; amount = request.amount })

-- The currencies and scales of the two accounts, read before they are locked.
pub record Preliminary : Type 0 where
  pub source_currency : Text
  pub source_scale : ℕ
  pub destination_currency : Text
  pub destination_scale : ℕ

-- The join of the two account rows.
abbrev pub join_preliminary : Option Account → Option Account → Option Preliminary
join_preliminary none d = none
join_preliminary (some s) none = none
join_preliminary (some s) (some d) = some (record {
  source_currency = s.currency;
  source_scale = s.currency_scale;
  destination_currency = d.currency;
  destination_scale = d.currency_scale;
})

abbrev pub read_preliminary : Uuid → Uuid → Database → Option Preliminary
read_preliminary source destination db =
    join_preliminary (find_account source db.accounts) (find_account destination db.accounts)

-- The operation that two currencies make; one currency has one scale.
unfoldable pub operation_type : Preliminary → Result AppError Text
operation_type p =
    if p.source_currency =t p.destination_currency
    then (if p.source_scale == p.destination_scale then ok transfer_operation else err internal)
    else ok fx_transfer_operation

abbrev pub non_positive_amount : AppError
non_positive_amount =
    validation (codes "non_positive_amount") (codes "The amount must be greater than zero")

abbrev pub transfer_money_error : MoneyError → AppError
transfer_money_error malformed =
    validation (codes "malformed_amount") (codes "The amount is malformed")
transfer_money_error too_many_fractional_digits =
    validation (codes "too_many_fractional_digits")
      (codes "The amount has too many fractional digits for this currency")
transfer_money_error negative = non_positive_amount
transfer_money_error overflow =
    validation (codes "amount_overflow") (codes "The amount is out of range")

abbrev pub transfer_configuration_error : ConfigurationError → AppError
transfer_configuration_error rate_unavailable =
    business (codes "rate_unavailable") (codes "An FX rate is unavailable")
transfer_configuration_error rate_ambiguous =
    business (codes "rate_configuration_ambiguous") (codes "FX rate configuration is ambiguous")
transfer_configuration_error fee_rule_unavailable =
    business (codes "fee_rule_unavailable") (codes "An FX fee rule is unavailable")
transfer_configuration_error fee_rule_ambiguous =
    business (codes "fee_rule_configuration_ambiguous")
      (codes "FX fee rule configuration is ambiguous")
transfer_configuration_error database = internal

abbrev pub out_of_range : AppError
out_of_range = business (codes "arithmetic_overflow") (codes "The transfer amount is out of range")

abbrev pub transfer_arithmetic_error : ArithmeticError → AppError
transfer_arithmetic_error destination_too_small =
    business (codes "destination_amount_too_small")
      (codes "The converted destination amount rounds to zero")
transfer_arithmetic_error ArithmeticError.overflow = out_of_range
transfer_arithmetic_error invalid_rate = internal
transfer_arithmetic_error invalid_scale = internal
transfer_arithmetic_error invalid_amount = internal

-- `u8::try_from` of the scale of an account
abbrev pub try_u8 : ℕ → Option ℕ
try_u8 n = if leb n 255 then some n else none

-- The amount of a transfer, which is positive.
unfoldable pub read_amount : Preliminary → Text → Result AppError ℤ
read_amount p amount = do
  scale ← ok_or (try_u8 p.source_scale) internal
  minor ← map_err transfer_money_error (parse_minor_units amount scale)
  return_if (leb_ℤ minor (pos 0)) non_positive_amount
  ok minor
