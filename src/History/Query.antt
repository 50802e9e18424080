-- ===== src/History/Query.antt =====
-- src/api/history.rs, `parse_query`: the parameters of the URL.
use high_performance_ledger.Prelude.{
  ℕ, ◌==◌, Bool, true, false, ◌&&◌, ◌||◌, not, leb, ltb, Option, none, some, List, [], ◌∷◌,
  if◌then◌else◌,
}
use high_performance_ledger.Prelude.Lists.{is_empty}
use high_performance_ledger.Prelude.Int.{i64_mod}
use high_performance_ledger.Prelude.Text.{Text, codes, ◌=t◌, all_digits, split, split_once}
use high_performance_ledger.Prelude.Decimal.{value}
use high_performance_ledger.Prelude.Result.{
  Result, ok, err, ◌>>=◌ as bind, ◌>>◌ as then', return_if, ok_or,
}
use high_performance_ledger.ApiError.{AppError, validation}
use high_performance_ledger.Database.{Uuid}
use high_performance_ledger.Tx.{Env}
use high_performance_ledger.History.Cursor.{Cursor, CursorCodec, invalid_cursor, decode_cursor}

pub record Query : Type 0 where
  pub counterparty_account_id : Option Uuid
  pub limit : ℕ
  pub cursor : Option Cursor

abbrev pub invalid_query : AppError
invalid_query =
    validation (codes "invalid_limit") (codes "The limit must be an integer from 1 to 100")

abbrev pub malformed_counterparty : AppError
malformed_counterparty =
    validation (codes "malformed_counterparty_account_id")
      (codes "The counterparty account ID is invalid")

-- The values of the parameters that the service reads.
pub record Parameters : Type 0 where
  pub counterparty : Option Text
  pub limit : Option Text
  pub cursor : Option Text

-- `option.replace(value).is_some()` is an error.
abbrev pub once : {A : Type 0} → Option Text → AppError → A → Result AppError A
once none e a = ok a
once (some _) e a = err e

abbrev pub read_parameter : Text → Text → Parameters → Result AppError Parameters
read_parameter key text p =
    if key =t codes "counterparty_account_id"
    then once p.counterparty invalid_query (record p { counterparty = some text })
    else if key =t codes "limit"
    then once p.limit invalid_query (record p { limit = some text })
    else if key =t codes "cursor"
    then once p.cursor invalid_cursor (record p { cursor = some text })
    else ok p

-- `part.split_once('=').unwrap_or((part, ""))`
abbrev pub key_value : Text → Text × Text
key_value part = elim (split_once 61 part) [ none ↦ (part, []) | some pair ↦ pair ]

abbrev pub read_part : Text → Parameters → Result AppError Parameters
read_part part p =
    if is_empty part then ok p else (let (key, text) = key_value part in read_parameter key text p)

unfoldable pub read_parts : List Text → Parameters → Result AppError Parameters
read_parts [] p = ok p
read_parts (part ∷ parts) p = bind (read_part part p) (read_parts parts)

abbrev pub no_parameters : Parameters
no_parameters = record { counterparty = none; limit = none; cursor = none }

abbrev pub parse_counterparty : Env → Option Text → Result AppError (Option Uuid)
parse_counterparty env none = ok none
parse_counterparty env (some text) =
    bind (ok_or (env.parse_uuid text) malformed_counterparty) λ id. ok (some id)

-- `value.parse::<i64>()`, of a number that is not negative
abbrev pub parse_digits : Text → Option ℕ
parse_digits digits =
    if is_empty digits || not (all_digits digits) || not (ltb (value digits) i64_mod)
    then none
    else some (value digits)

-- A sign is allowed; a negative number is out of the range of a limit anyway.
abbrev pub parse_nonnegative : Text → Option ℕ
parse_nonnegative [] = none
parse_nonnegative (c ∷ s) = if c == 43 then parse_digits s else parse_digits (c ∷ s)

abbrev pub in_range : ℕ → Bool
in_range limit = leb 1 limit && leb limit 100

abbrev pub check_range : Option ℕ → Result AppError ℕ
check_range none = err invalid_query
check_range (some limit) = if in_range limit then ok limit else err invalid_query

abbrev pub parse_limit : Option Text → Result AppError ℕ
parse_limit none = ok 50
parse_limit (some text) = check_range (parse_nonnegative text)

abbrev pub parse_cursor : CursorCodec → Option Text → Result AppError (Option Cursor)
parse_cursor codec none = ok none
parse_cursor codec (some text) = bind (decode_cursor codec text) λ cursor. ok (some cursor)

abbrev pub same_uuid : Option Uuid → Option Uuid → Bool
same_uuid none none = true
same_uuid (some a) (some b) = a == b
same_uuid none (some b) = false
same_uuid (some a) none = false

-- A cursor belongs to the account and the counterparty that it was made for.
abbrev pub is_for : Uuid → Option Uuid → Cursor → Bool
is_for account_id counterparty cursor =
    (cursor.account_id == account_id) && same_uuid cursor.counterparty_account_id counterparty

abbrev pub check_cursor : Uuid → Option Uuid → Option Cursor → Result AppError (Unit {0})
check_cursor account_id counterparty none = ok tt
check_cursor account_id counterparty (some cursor) =
    return_if (not (is_for account_id counterparty cursor)) invalid_cursor

-- The query of the URL; there is none where `raw` is empty.
unfoldable pub parse_query : Env → CursorCodec → Text → Uuid → Result AppError Query
parse_query env codec raw account_id = bind (read_parts (split 38 raw) no_parameters) λ p.
    bind (parse_counterparty env p.counterparty) λ counterparty. bind (parse_limit p.limit) λ limit.
      bind (parse_cursor codec p.cursor) λ cursor.
        then' (check_cursor account_id counterparty cursor)
          (ok (record { counterparty_account_id = counterparty; limit = limit; cursor = cursor }))
