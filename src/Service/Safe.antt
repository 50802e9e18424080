-- ===== src/Service/Safe.antt =====
-- No `expect` and no `unreachable!` of a handler is ever reached.
use high_performance_ledger.Prelude.{ℕ, ◌<◌, ◌≢◌, List}
use high_performance_ledger.Prelude.Int.{i64_mod}
use high_performance_ledger.Prelude.Text.{Text}
use high_performance_ledger.Database.{Database}
use high_performance_ledger.Tx.{Env, World, panicked}
use high_performance_ledger.Tx.Laws.{IsSafe}
use high_performance_ledger.Accounts.Safe.{create_account-IsSafe}
use high_performance_ledger.Transfers.Create.Safe.{create_transfer-IsSafe}
use high_performance_ledger.Reversals.Safe.{reverse_transfer-IsSafe}
use high_performance_ledger.Service.{
  Command, post_account, post_transfer, post_reversal, Request, request_of, serve, Reach,
}
use high_performance_ledger.Service.Invariant.{IsConsistent, Reach-IsConsistent}

handle-IsSafe :
    (env : Env) (retention : ℕ) (client_id : Text) (headers : List Text) (c : Command) (w : World)
    → IsConsistent w.db
    → retention < i64_mod
    → IsSafe (serve (request_of env retention client_id headers c)) w
unfolding serve
handle-IsSafe env retention client_id headers (post_account body) w c fits =
    create_account-IsSafe env retention client_id headers body w c.complete fits
handle-IsSafe env retention client_id headers (post_transfer body) w c fits =
    create_transfer-IsSafe env retention client_id headers body w c.unique c.complete fits
handle-IsSafe env retention client_id headers (post_reversal transfer_id) w c fits =
    reverse_transfer-IsSafe env retention client_id headers transfer_id w c.unique c.complete fits

-- After any number of requests on consistent tables, no request panics, whatever calls fail: the
-- record of a key that is found has its result, and two rows that are locked are the two accounts.
-- The retention fits into an `i64` of seconds.
pub serve_never_panics :
    {before : Database} (q : Request) (w : World)
    → IsConsistent before
    → Reach before w.db
    → q.retention < i64_mod
    → (serve q w).0 ≢ panicked
serve_never_panics q w c r fits =
    (handle-IsSafe q.env q.retention q.client_id q.headers q.command w (Reach-IsConsistent r c)
      fits).safe
