-- ===== src/Service/Retry.antt =====
-- A request that is sent again after other requests have come in between.
use high_performance_ledger.Prelude.{
  ℕ, ◌≤◌, ◌≡◌, refl, Bool, false, Option, some, List, arith, Option-cases, inl, inr,
}
use high_performance_ledger.Prelude.Text.{Text}
use high_performance_ledger.Database.{Uuid, Database, Timestamp}
use high_performance_ledger.Database.Accounts.{find_account}
use high_performance_ledger.Idempotency.{Scope}
use high_performance_ledger.Tx.{Env, World, done}
use high_performance_ledger.Gate.{Response}
use high_performance_ledger.Gate.Atomic.{IsStored}
use high_performance_ledger.Transfers.Request.{CreateTransferRequest, Preliminary, read_preliminary}
use high_performance_ledger.Transfers.Perform.{Order}
use high_performance_ledger.Transfers.Create.{create_transfer}
use high_performance_ledger.Transfers.Create.Sound.{IsOrder, fingerprint_of}
use high_performance_ledger.Transfers.Create.Replay.{create_transfer_replays}
use high_performance_ledger.Transfers.Create.Retry.{again, retried}
use high_performance_ledger.Idempotency.{
  from_headers, account_creation_fingerprint, reversal_fingerprint,
}
use high_performance_ledger.Accounts.{
  CreateAccountRequest, check_account, account_scope, create_account,
}
use high_performance_ledger.Accounts.Replay.{
  account_fingerprint, create_account-IsStored, create_account_replays,
}
use high_performance_ledger.Reversals.{reverse_transfer}
use high_performance_ledger.Reversals.Sound.{reverse_transfer_sound}
use high_performance_ledger.Reversals.Replay.{answered-IsStored, reverse_transfer_replays}
use high_performance_ledger.Service.{
  Command, post_account, post_transfer, post_reversal, Request, request_of, serve, Reach,
}
use high_performance_ledger.Service.Extends.{Extends, Reach-Extends}

IsStored-Extends :
    (env : Env) (s : Scope) (fingerprint : Text) (before after : Database) (r : Response)
    → Extends before after
    → IsStored env s fingerprint before r
    → IsStored env s fingerprint after r
IsStored-Extends env s fingerprint before after r h stored = record {
  kept = stored.kept;
  id = stored.id;
  http_status = stored.http_status;
  found = h.results s stored.kept stored.found;
  same = stored.same;
  result = stored.result;
  status = stored.status;
}

read_preliminary-Extends :
    (i j : Uuid) (before after : Database) (p : Preliminary)
    → Extends before after
    → read_preliminary i j before ≡ some p
    → read_preliminary i j after ≡ some p
read_preliminary-Extends i j before after p h reads =
    elim (Option-cases (find_account i before.accounts)) [
      | inl missing ↦ ground arith
      | inr (a, source) ↦ elim (Option-cases (find_account j before.accounts)) [
        | inl missing ↦ ground arith
        | inr (b, destination) ↦
            let (a', source', same) = h.accounts i a source in
            let (b', destination', same') = h.accounts j b destination in
            let c = same.currency in
            let k = same.scale in let c' = same'.currency in let k' = same'.scale in ground arith
      ]
    ]

IsOrder-Extends :
    (env : Env) (client_id : Text) (headers : List Text) (body : Option CreateTransferRequest)
    (before after : Database) (o : Order)
    → Extends before after
    → IsOrder env client_id headers body before o
    → IsOrder env client_id headers body after o
IsOrder-Extends env client_id headers body before after o h order = record {
  client = order.client;
  scoped = order.scoped;
  checks = order.checks;
  reads =
      read_preliminary-Extends o.checked.source o.checked.destination before after o.preliminary h
        order.reads;
  kind = order.kind;
  amount = order.amount;
}

module _ (env : Env) (fails : ℕ → Bool) (new_v4 : ℕ → Uuid) (now : Timestamp)
    (retention retention' : ℕ) (client_id : Text) (headers : List Text)
    (body : Option CreateTransferRequest) (w w' later : World) (r : Response)
    (created : env.status_from_u16 201 ≡ some 201)
    (answered : create_transfer env retention client_id headers body w ≡ (done r, w'))
    (between : Reach w'.db later.db) (reliable : (n : ℕ) → later.calls ≤ n → fails n ≡ false) where
  create_transfer_once :
      ((create_transfer (again env fails new_v4 now) retention' client_id headers body later).0
        ≡ done r)
      × ((create_transfer (again env fails new_v4 now) retention' client_id headers body later).1.db
          ≡ later.db)
  create_transfer_once =
      let env' = again env fails new_v4 now in
      let grown = Reach-Extends between in
      let (o, order, stored) =
        retried env fails new_v4 now retention retention' client_id headers body w w' w' r created
          answered refl in
      create_transfer_replays env' retention' client_id headers body later o reliable
        (IsOrder-Extends env' client_id headers body w'.db later.db o grown order) r refl
        (IsStored-Extends env' o.scope (fingerprint_of env' o) w'.db later.db r grown stored)

-- What is read of a request does not depend on the calls, the ids and the time that it meets.
account_again :
    (env : Env) (fails : ℕ → Bool) (new_v4 : ℕ → Uuid) (now : Timestamp) (retention : ℕ)
    (client_id : Text) (headers : List Text) (body : Option CreateAccountRequest)
    (w w' later : World) (r : Response)
    → env.status_from_u16 201 ≡ some 201
    → create_account env retention client_id headers body w ≡ (done r, w')
    → Extends w'.db later.db
    → ((n : ℕ) → later.calls ≤ n → fails n ≡ false)
    → ((create_account (again env fails new_v4 now) retention client_id headers body later).0
        ≡ done r)
      × ((create_account (again env fails new_v4 now) retention client_id headers body later).1.db
          ≡ later.db)
unfolding check_account from_headers account_creation_fingerprint
account_again env fails new_v4 now retention client_id headers body w w' later r created answered
      grown reliable =
    let (o, checks, stored, fits) =
      create_account-IsStored env retention client_id headers body w w' r created answered in
    let still =
      IsStored-Extends env (account_scope client_id o.key) (account_fingerprint env o) w'.db
        later.db r grown stored in
    create_account_replays (again env fails new_v4 now) retention client_id headers body later o r
      reliable refl fits checks
      (record {
        kept = still.kept;
        id = still.id;
        http_status = still.http_status;
        found = still.found;
        same = still.same;
        result = still.result;
        status = still.status;
      })

reversal_again :
    (env : Env) (fails : ℕ → Bool) (new_v4 : ℕ → Uuid) (now : Timestamp) (retention : ℕ)
    (client_id : Text) (headers : List Text) (transfer_id : Text) (w w' later : World)
    (r : Response)
    → env.status_from_u16 201 ≡ some 201
    → reverse_transfer env retention client_id headers transfer_id w ≡ (done r, w')
    → Extends w'.db later.db
    → ((n : ℕ) → later.calls ≤ n → fails n ≡ false)
    → ((reverse_transfer
          (again env fails new_v4 now)
          retention
          client_id
          headers
          transfer_id
          later).0
        ≡ done r)
      × ((reverse_transfer
            (again env fails new_v4 now)
            retention
            client_id
            headers
            transfer_id
            later).1.db
          ≡ later.db)
unfolding from_headers reversal_fingerprint
reversal_again env fails new_v4 now retention client_id headers transfer_id w w' later r created
      answered grown reliable =
    let (u, read, sound) =
      reverse_transfer_sound env retention client_id headers transfer_id w w' r answered in
    let stored = answered-IsStored env retention u w.db w'.db r created sound in
    let still =
      IsStored-Extends env u.scope (reversal_fingerprint env u.original_id) w'.db later.db r grown
        stored in
    reverse_transfer_replays (again env fails new_v4 now) retention client_id headers transfer_id
      later u reliable
      (record { key = read.key; keyed = read.keyed; original = read.original; is = read.is }) r refl
      (record {
        kept = still.kept;
        id = still.id;
        http_status = still.http_status;
        found = still.found;
        same = still.same;
        result = still.result;
        status = still.status;
      })

-- The request `q` sent again, when other calls fail, other ids are drawn and time has passed.
abbrev pub sent_again : Request → (ℕ → Bool) → (ℕ → Uuid) → Timestamp → Request
sent_again q fails new_v4 now = record q { env = again q.env fails new_v4 now }

handle_once :
    (env : Env) (fails : ℕ → Bool) (new_v4 : ℕ → Uuid) (now : Timestamp) (retention : ℕ)
    (client_id : Text) (headers : List Text) (c : Command) (w w' later : World) (r : Response)
    → env.status_from_u16 201 ≡ some 201
    → serve (request_of env retention client_id headers c) w ≡ (done r, w')
    → Reach w'.db later.db
    → ((n : ℕ) → later.calls ≤ n → fails n ≡ false)
    → ((serve (request_of (again env fails new_v4 now) retention client_id headers c) later).0
        ≡ done r)
      × ((serve (request_of (again env fails new_v4 now) retention client_id headers c) later).1.db
          ≡ later.db)
unfolding serve
handle_once env fails new_v4 now retention client_id headers (post_account body) w w' later r
      created h between =
    account_again env fails new_v4 now retention client_id headers body w w' later r created h
      (Reach-Extends between)
handle_once env fails new_v4 now retention client_id headers (post_transfer body) w w' later r
      created h between =
    create_transfer_once env fails new_v4 now retention retention client_id headers body w w' later
      r created h between
handle_once env fails new_v4 now retention client_id headers (post_reversal transfer_id) w w' later
      r created h between =
    reversal_again env fails new_v4 now retention client_id headers transfer_id w w' later r created
      h (Reach-Extends between)

-- Exactly once: a request of any kind that was answered with a response, and is sent again after any
-- number of other requests with any outcomes, gets the same response, and no table is changed. No call
-- of the second request fails, its COMMIT is done, and 201 is a status.
pub serve_once :
    (q : Request) (fails : ℕ → Bool) (new_v4 : ℕ → Uuid) (now : Timestamp) (w w' later : World)
    (r : Response)
    → q.env.status_from_u16 201 ≡ some 201
    → serve q w ≡ (done r, w')
    → Reach w'.db later.db
    → ((n : ℕ) → later.calls ≤ n → fails n ≡ false)
    → ((serve (sent_again q fails new_v4 now) later).0 ≡ done r)
      × ((serve (sent_again q fails new_v4 now) later).1.db ≡ later.db)
serve_once q fails new_v4 now =
    handle_once q.env fails new_v4 now q.retention q.client_id q.headers q.command
