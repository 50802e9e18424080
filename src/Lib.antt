-- ===== src/Lib.antt =====
-- Verification of the high-performance ledger service.
--
-- The service keeps accounts with balances in minor units of a currency, and moves money between
-- them on behalf of authenticated clients. A handler runs in one PostgreSQL transaction; a request
-- carries an Idempotency-Key, under which its result is stored and repeated.
--
-- What models which part (paths from the root of the repository):
--   Prelude        numbers, texts, decimals and results that the parts share; `i64` with its range
--   Money          src/money.rs: `currency`, `parse_minor_units`, `format_minor_units`
--   Fx             src/fx.rs: rates, fees and conversion; Fx/Select the queries that select them
--   Observability  src/observability.rs: what is counted of an operation
--   ApiError       src/api_error.rs: errors, their statuses and their metric reasons
--   Auth           src/auth.rs: the client of a request
--   Database       migrations/0001 and 0004: the rows, and the statements on them
--   Tx             a handler's work: the tables, the outside that it calls, `?` and `expect`
--   Idempotency    src/idempotency.rs: keys, fingerprints, `completed_success`, `reserve`, `store_success`
--   Gate           src/api/transfers.rs: the idempotency gate of a handler, and its COMMIT or ROLLBACK
--   Transfers      src/api/transfers.rs, `create_transfer`, in its order: Request (checks, amount), Price
--                  (configuration, locks, costs, balances), Record (the rows), Perform and Create (the
--                  whole). Spec says what a transfer is to do
--   Transfers/Details  src/api/transfers.rs, `get_transfer`
--   Accounts       src/api/accounts.rs: `create_account` and `get_balance`
--   Reversals      src/api/reversals.rs, `reverse_transfer`; Spec says what a reversal is to do
--   History        src/api/history.rs: Cursor (its text), Query (the URL), Page (`get_account_history`)
--   Config         src/config.rs: the settings of the service
--   Ledger         the tables as a ledger: entries against balances, totals, invariants
--   Service        the three handlers that write, as steps from tables to tables, and what any number of
--                  steps leads to
--   Samples        uses of the theorems on the shared parts
--
-- A handler is a function on `World`: the tables as its transaction sees them, the number of calls made,
-- and what was counted. It is done, has failed with an `AppError`, or has panicked. Every statement may
-- fail (`Env.fails`, by the number of the call). `transaction` restores the tables on an error, and the
-- answer of PostgreSQL to a COMMIT is one of three: done, refused, or lost behind the change.
--
-- The code that is not in the repository is a parameter, a field of `Env`: `Uuid::parse_str` and
-- `Uuid::new_v4`, the clock and the text of a timestamp, SHA-256 with its hexadecimal text, the text of a
-- header, and `StatusCode::from_u16`. A UUID is the number of its 128 bits. JSON bodies are their members.
--
-- A `panicked` outcome is a Rust panic: an `expect` or an `unreachable!`. Reading the JSON of a cursor, and
-- writing it, are the fields of `CursorCodec`; the parser of socket addresses and the test of an RSA key
-- are those of `Config.Outside`.
--
-- Numbers are natural numbers and integers without bound, and every step in which the code checks the
-- range of `i64` is written out. The power of ten of a scale fits an `i128`, since a scale is at most
-- 18 by a CHECK of the schema. The version of an account has no bound here. No handler runs on fuel;
-- `History.Walk.walk`, which follows the cursors of a history, is given as many pages as the history has
-- entries, which is enough.
--
-- A run of the service (`Service.Reach`) is a sequence of requests, each with its own outside, which may
-- fail anywhere: the locks of rows are taken in one order, but the interleaving of transactions is not
-- modelled. Checks of the schema on the shape of texts, and the foreign keys, are left out: what the
-- handlers write meets them. A time of expiry beyond the range of a timestamp is among the calls that
-- fail. A source account of a reversal may be overdrawn by it, as in the code. The web framework, the
-- OpenAPI document, the start of the process and the benchmarks are not
-- modelled, as glue and I/O.
pub mod Prelude
pub mod Money
pub mod Fx
pub mod Observability
pub mod ApiError
pub mod Database
pub mod Tx
pub mod Auth
pub mod Idempotency
pub mod Gate
pub mod Transfers
pub mod History
pub mod Config
pub mod Service
pub mod Reversals
pub mod Accounts
pub mod Ledger
pub mod Samples
