-- ===== src/Transfers/Create/Retry.antt =====
-- A request that is sent again after it was answered.
use high_performance_ledger.Prelude.{
  ℕ, ◌≤◌, ◌≡◌, ◌⊎◌, refl, ◌∙◌, Bool, false, Option, some, List, arith, inl, inr,
}
use high_performance_ledger.Prelude.Text.{Text, =t_refl}
use high_performance_ledger.Database.{Uuid, Database, Timestamp}
use high_performance_ledger.Database.Accounts.{find_account}
use high_performance_ledger.Idempotency.{
  reservation, with_result, transfer_fingerprint, from_headers,
}
use high_performance_ledger.Tx.{Env, committed, World, done}
use high_performance_ledger.Gate.{Response}
use high_performance_ledger.Gate.Atomic.{IsStored}
use high_performance_ledger.Transfers.Request.{
  CreateTransferRequest, check_request, read_preliminary,
}
use high_performance_ledger.Transfers.Spec.{Performed}
use high_performance_ledger.Transfers.Perform.{Order}
use high_performance_ledger.Transfers.Create.{create_transfer}
use high_performance_ledger.Transfers.Create.Sound.{
  IsOrder, IsExecuted, IsReplay, fingerprint_of, create_transfer_sound,
}
use high_performance_ledger.Transfers.Create.Replay.{create_transfer_replays}

-- The outside at a later request: other calls may fail, other UUIDs are drawn, time has passed.
abbrev pub again : Env → (ℕ → Bool) → (ℕ → Uuid) → Timestamp → Env
again env fails new_v4 now = record env {
  fails = fails;
  new_v4 = new_v4;
  now = now;
  commit = committed;
}

-- The currencies of accounts do not change.
read_preliminary-Performed :
    (env : Env) (o : Order) (before after : Database) (r : Response)
    → Performed env o before after r
    → read_preliminary o.checked.source o.checked.destination after
      ≡ read_preliminary o.checked.source o.checked.destination before
read_preliminary-Performed env o before after r p =
    let source = p.from in
    let destination = p.to in
    let fs : find_account o.checked.source before.accounts ≡ some p.source =
      rw (← source) p.moves.found_source in
    let fd : find_account o.checked.destination before.accounts ≡ some p.destination =
      rw (← destination) p.moves.found_destination in
    let debited = rw source at p.moves.debited in
    let credited = rw destination at p.moves.credited in rw (debited, credited, fs, fd)

-- A transfer that was executed is stored.
IsExecuted-IsStored :
    (env : Env) (retention : ℕ) (o : Order) (before after : Database) (r : Response)
    → env.status_from_u16 201 ≡ some 201
    → IsExecuted env retention o before after r
    → IsStored env o.scope (fingerprint_of env o) after r
IsExecuted-IsStored env retention o before after r h x = record {
  kept =
      with_result 201 r.body p.transfer.id
        (reservation env o.scope (fingerprint_of env o) retention);
  id = p.transfer.id;
  http_status = 201;
  found = rw p.kept (
      ground
        (arith, =t_refl o.scope.client_id, =t_refl o.scope.operation_type, =t_refl o.scope.key));
  same = refl;
  result = refl;
  status = rw p.created h;
}
  where
    open x use {performed as p}

module _ (env : Env) (fails : ℕ → Bool) (new_v4 : ℕ → Uuid) (now : Timestamp)
    (retention retention' : ℕ) (client_id : Text) (headers : List Text)
    (body : Option CreateTransferRequest) (w w' later : World) (r : Response)
    (created : env.status_from_u16 201 ≡ some 201)
    (answered : create_transfer env retention client_id headers body w ≡ (done r, w'))
    (stays : later.db ≡ w'.db) where
  -- The same request finds the same order, and its stored response.
  finds_again :
      (o : Order)
      → IsOrder env client_id headers body w.db o
      → IsExecuted env retention o w.db w'.db r ⊎ IsReplay env o w.db w'.db r
      → (read_preliminary o.checked.source o.checked.destination w'.db ≡ some o.preliminary)
        × IsStored env o.scope (fingerprint_of env o) w'.db r
  finds_again o order (inl x) = (
    read_preliminary-Performed env o _ w'.db r x.performed ∙ order.reads,
    IsExecuted-IsStored env retention o w.db w'.db r created x,
  )
  finds_again o order (inr x) = rw x.unchanged (order.reads, x.stored)

  pub retried :
      (o : Order) × IsOrder (again env fails new_v4 now) client_id headers body later.db o
      × IsStored
          (again env fails new_v4 now)
          o.scope
          (fingerprint_of (again env fails new_v4 now) o)
          later.db
          r
  unfolding check_request from_headers transfer_fingerprint
  retried = rw stays (
      let (o, order, answer) =
        create_transfer_sound env retention client_id headers body w w' r answered in
      let (reads, stored) = finds_again o order answer in
      (
        o,
        record {
          client = order.client;
          scoped = order.scoped;
          checks = order.checks;
          reads = reads;
          kind = order.kind;
          amount = order.amount;
        },
        record {
          kept = stored.kept;
          id = stored.id;
          http_status = stored.http_status;
          found = stored.found;
          same = stored.same;
          result = stored.result;
          status = stored.status;
        },
      ))

  -- A request that was answered with a response and is sent again, while the tables are as that answer
  -- left them and no call fails, gets the same response, and no table is changed.
  pub create_transfer_retry :
      ((n : ℕ) → later.calls ≤ n → fails n ≡ false)
      → ((create_transfer (again env fails new_v4 now) retention' client_id headers body later).0
          ≡ done r)
        × ((create_transfer
              (again env fails new_v4 now)
              retention'
              client_id
              headers
              body
              later).1.db
            ≡ later.db)
  create_transfer_retry reliable =
      let (o, order, stored) = retried in
      create_transfer_replays (again env fails new_v4 now) retention' client_id headers body later o
        reliable order r refl stored
