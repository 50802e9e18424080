-- ===== src/Service.antt =====
-- The service as a whole: the requests that write, and the databases that they lead to. Requests that
-- meet are serialised by PostgreSQL, by row locks and unique indexes: a run is a sequence of requests.
pub mod Change
pub mod Extends
pub mod Invariant
pub mod Retry
pub mod Safe
pub mod Solvency
mod Tests
use high_performance_ledger.Prelude.{ℕ, Option, List}
use high_performance_ledger.Prelude.Text.{Text}
use high_performance_ledger.ApiError.{AppError}
use high_performance_ledger.Database.{Database}
use high_performance_ledger.Tx.{Env, World, Tx}
use high_performance_ledger.Gate.{Response}
use high_performance_ledger.Accounts.{CreateAccountRequest, create_account}
use high_performance_ledger.Transfers.Request.{CreateTransferRequest}
use high_performance_ledger.Transfers.Create.{create_transfer}
use high_performance_ledger.Reversals.{reverse_transfer}

-- The routes that write.
pub data Command : Type 0 where
  post_account : (body : Option CreateAccountRequest) → Command
  post_transfer : (body : Option CreateTransferRequest) → Command
  post_reversal : (transfer_id : Text) → Command

-- A request: who sends it, with which `Idempotency-Key` headers, and the outside that it meets.
pub record Request : Type 0 where
  pub env : Env
  pub retention : ℕ
  pub client_id : Text
  pub headers : List Text
  pub command : Command

abbrev pub request_of : Env → ℕ → Text → List Text → Command → Request
request_of env retention client_id headers c = record {
  env = env;
  retention = retention;
  client_id = client_id;
  headers = headers;
  command = c;
}

handle : Env → ℕ → Text → List Text → Command → Tx AppError Response
handle env retention client_id headers (post_account body) =
    create_account env retention client_id headers body
handle env retention client_id headers (post_transfer body) =
    create_transfer env retention client_id headers body
handle env retention client_id headers (post_reversal transfer_id) =
    reverse_transfer env retention client_id headers transfer_id

unfoldable pub serve : Request → Tx AppError Response
unfolding handle
serve q = handle q.env q.retention q.client_id q.headers q.command

-- One request, with any outcome.
pub data Step : Database → Database → Type 0 where
  request : (q : Request) (w : World) → Step w.db (serve q w).1.db

-- Any number of requests.
pub data Reach : Database → Database → Type 0 where
  start : {db : Database} → Reach db db
  then' :
      {before between after : Database}
      → Reach before between
      → Step between after
      → Reach before after
