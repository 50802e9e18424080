-- ===== src/Accounts.antt =====
-- src/api/accounts.rs: the opening of an account under an idempotency key, and the reading of a
-- balance.
pub mod Effect
pub mod Replay
pub mod Safe
mod Tests
use high_performance_ledger.Prelude.{
  ℕ, Bool, true, false, Option, none, some, List, [], ◌∷◌, ◌&&◌, if◌then◌else◌,
}
use high_performance_ledger.Prelude.Int.{ℤ}
use high_performance_ledger.Prelude.Text.{Text, codes, ◌=t◌}
use high_performance_ledger.Prelude.Result.{Result, ok, err, ◌>>=◌ as bind, ok_or, map_err}
use high_performance_ledger.Money.{
  Currency, currency, MoneyError, malformed, too_many_fractional_digits, negative, overflow,
  parse_initial_balance, format_minor_units,
}
use high_performance_ledger.ApiError.{
  AppError, validation, internal, idempotency_conflict, not_found,
}
use high_performance_ledger.Database.{Uuid, Account, active, Body, account_created, Database, find}
use high_performance_ledger.Database.Accounts.{has_id, find_account}
use high_performance_ledger.Idempotency.{
  account_creation_operation, from_headers, account_creation_fingerprint, Scope, Reservation, owned,
  replay, conflict, reserve, store_success,
}
use high_performance_ledger.Tx.{
  Env, CommitAnswer, committed, refused, unacknowledged, World, Outcome, done, failed, panicked, Tx,
  ◌>>=◌, ◌>>◌, pure, fail, lift, or_fail, query, execute, call_out, draw_uuid,
}
use high_performance_ledger.Gate.{Response}
use high_performance_ledger.Transfers.Request.{malformed_account_id, invalid_json}
use high_performance_ledger.Transfers.Price.{as_u8}

pub record CreateAccountRequest : Type 0 where
  pub currency : Text
  pub initial_balance : Text

abbrev pub money_error : MoneyError → AppError
money_error malformed = validation (codes "malformed_amount") (codes "The amount is malformed")
money_error too_many_fractional_digits =
    validation (codes "too_many_fractional_digits")
      (codes "The amount has too many fractional digits for this currency")
money_error negative =
    validation (codes "negative_initial_balance") (codes "The initial balance cannot be negative")
money_error overflow = validation (codes "amount_overflow") (codes "The amount is out of range")

-- What the checks make of the headers and the body.
pub record Opening : Type 0 where
  pub key : Text
  pub in_currency : Currency
  pub balance_minor : ℤ

abbrev pub unsupported_currency : AppError
unsupported_currency =
    validation (codes "unsupported_currency") (codes "The currency is not supported")

unfoldable pub check_account :
    Env → List Text → Option CreateAccountRequest → Result AppError Opening
check_account env headers body = bind (from_headers env headers) λ key.
    bind (ok_or body invalid_json) λ request.
      bind (ok_or (currency request.currency) unsupported_currency) λ c.
        bind (map_err money_error (parse_initial_balance request.initial_balance c.scale))
          λ balance. ok (record { key = key; in_currency = c; balance_minor = balance })

-- A part of a transaction: an error or a panic drops the transaction, which rolls it back.
abbrev pub dropped_on_error : {A : Type 0} → Database → Tx AppError A → Tx AppError A
dropped_on_error before m w =
    let (r, w') = m w in
    elim r [
      | done a ↦ (done a, w')
      | failed e ↦ (failed e, record w' { db = before })
      | panicked ↦ (panicked, record w' { db = before })
    ]

-- `transaction.commit().await.map_err(AppError::internal)?`
abbrev pub commit_all : Env → Database → Tx AppError (Unit {0})
commit_all env before w = elim env.commit [
  | committed ↦ (done tt, w)
  | refused ↦ (failed internal, record w { db = before })
  | unacknowledged ↦ (failed internal, w)
]

-- `INSERT INTO accounts`, with its primary key; the status and the version have defaults.
abbrev pub insert_account : Account → Database → Option Database
insert_account a db = elim (find_account a.id db.accounts) [
  | none ↦ some (record db { accounts = a ∷ db.accounts })
  | some _ ↦ none
]

abbrev pub opened_account : Text → Opening → Uuid → Account
opened_account client_id o id = record {
  id = id;
  owner_id = client_id;
  currency = o.in_currency.code;
  currency_scale = o.in_currency.scale;
  balance_minor = o.balance_minor;
  status = active;
  version = 0;
}

abbrev pub account_body : Opening → Uuid → Body
account_body o id =
    account_created id o.in_currency.code (format_minor_units o.balance_minor o.in_currency.scale)

abbrev pub account_scope : Text → Text → Scope
account_scope client_id key = record {
  client_id = client_id;
  operation_type = account_creation_operation;
  key = key;
}

-- What the owner of the key does.
unfoldable pub open_account : Env → Text → Opening → Tx AppError Response
open_account env client_id o = do
  id ← draw_uuid env
  execute env internal (insert_account (opened_account client_id o id))
  call_out env internal
  store_success env (account_scope client_id o.key) 201 (account_body o id) id
  pure (record { status = 201; body = account_body o id })

after_reserve : Env → Text → Opening → Database → Reservation → Tx AppError Response
after_reserve env client_id o before owned =
    dropped_on_error before (open_account env client_id o) >>= λ response.
    commit_all env before >> pure response
after_reserve env client_id o before (replay http_status body) = do
  commit_all env before
  status ← or_fail (env.status_from_u16 http_status) internal
  pure (record { status = status; body = body })
after_reserve env client_id o before conflict = dropped_on_error before (fail idempotency_conflict)

unfoldable pub account_transaction : Env → ℕ → Text → Opening → Tx AppError Response
unfolding after_reserve
account_transaction env retention client_id o w =
    (dropped_on_error w.db (
          reserve env (account_scope client_id o.key)
            (account_creation_fingerprint env o.in_currency.code o.balance_minor) retention)
        >>= after_reserve env client_id o w.db)
      w

unfoldable pub create_account :
    Env → ℕ → Text → List Text → Option CreateAccountRequest → Tx AppError Response
create_account env retention client_id headers body = do
  o ← lift (check_account env headers body)
  call_out env internal
  account_transaction env retention client_id o

pub record AccountBalanceResponse : Type 0 where
  pub id : Uuid
  pub currency : Text
  pub balance : Text
  pub version : ℕ

-- `WHERE id = $1 AND owner_id = $2`
abbrev pub is_own : Uuid → Text → Account → Bool
is_own id client_id a = has_id id a && (a.owner_id =t client_id)

abbrev pub balance_response : Uuid → Account → AccountBalanceResponse
balance_response id a = record {
  id = id;
  currency = a.currency;
  balance = format_minor_units a.balance_minor (as_u8 a.currency_scale);
  version = a.version;
}

unfoldable pub get_balance : Env → Text → Text → Tx AppError AccountBalanceResponse
get_balance env client_id account_id = do
  id ← or_fail (env.parse_uuid account_id) malformed_account_id
  found ← query env internal (λ db. find (is_own id client_id) db.accounts)
  a ← or_fail found not_found
  pure (balance_response id a)
