-- ===== src/Service/Change.antt =====
-- What one request may do to the tables.
use high_performance_ledger.Prelude.{
  ℕ, ◌≡◌, refl, ◌∙◌, ap, none, ◌∷◌, List, [], arith, inl, inr, Bool,
}
use high_performance_ledger.Prelude.Int.{pos, ◌≤ℤ◌, IsI64}
use high_performance_ledger.Prelude.Text.{Text, =t_refl}
use high_performance_ledger.Database.{
  reversal, Uuid, Account, Transfer, IdempotencyRecord, Database, find, update,
}
use high_performance_ledger.Database.Accounts.{find_account}
use high_performance_ledger.Idempotency.{
  Scope, in_scope, find_record, with_result, reservation, complete_records,
  account_creation_fingerprint, reversal_fingerprint,
}
use high_performance_ledger.Tx.{Env, World}
use high_performance_ledger.Gate.{Response}
use high_performance_ledger.Accounts.{Opening, opened_account, account_scope, account_body}
use high_performance_ledger.Accounts.Effect.{opened_tables, create_account_changes}
use high_performance_ledger.Ledger.Opening.{check_account-balance}
use high_performance_ledger.Transfers.Spec.{Moves}
use high_performance_ledger.Transfers.Perform.{Order}
use high_performance_ledger.Reversals.{Undo}
use high_performance_ledger.Transfers.Create.Sound.{reserved, IsExecuted, fingerprint_of}
use high_performance_ledger.Transfers.Create.Rollback.{create_transfer_changes}
use high_performance_ledger.Reversals.Sound.{IsReversed, reverse_transfer_atomic}
use high_performance_ledger.Service.{
  Command, post_account, post_transfer, post_reversal, Request, request_of, serve,
}

-- The record of a request that was carried out: with its result, under a key that had none.
pub record IsRecorded (before after : Database) : Type 0 where
  pub scope : Scope
  pub env : Env
  pub fingerprint : Text
  pub retention : ℕ
  pub response : Response
  pub id : Uuid
  pub new_key : find_record scope before.idempotency_records ≡ none
  pub kept :
      after.idempotency_records
      ≡ with_result response.status response.body id (reservation env scope fingerprint retention)
        ∷ before.idempotency_records

-- An account is opened: with a new id, and a balance in range that is not negative.
pub record Opens (before after : Database) (a : Account) : Type 0 where
  pub new_id : find_account a.id before.accounts ≡ none
  pub balance : (pos 0 ≤ℤ a.balance_minor) × IsI64 a.balance_minor
  pub added : after.accounts ≡ a ∷ before.accounts
  pub same_transfers : after.transfers ≡ before.transfers
  pub same_entries : after.account_entries ≡ before.account_entries

-- A transfer is covered by its source; a reversal need not be.
pub data IsFunded (t : Transfer) (source : Account) : Type 0 where
  covered : t.total_source_debit_minor ≤ℤ source.balance_minor → IsFunded t source
  takes_back : t.kind ≡ reversal → IsFunded t source

pub data Change (before after : Database) : Type 0 where
  stays : after ≡ before → Change before after
  opens : (a : Account) → Opens before after a → IsRecorded before after → Change before after
  moves :
      (t : Transfer) (source destination : Account)
      → Moves before after t source destination
      → IsFunded t source
      → IsRecorded before after
      → Change before after

update_absent :
    (p : IdempotencyRecord → Bool) (f : IdempotencyRecord → IdempotencyRecord)
    (xs : List IdempotencyRecord)
    → find p xs ≡ none
    → update p f xs ≡ xs
update_absent p f [] h = refl
update_absent p f (x ∷ xs) h = ground (arith, update_absent p f xs)

-- The result goes to the reservation alone.
complete_reservation :
    (env : Env) (s : Scope) (fingerprint : Text) (retention : ℕ) (r : Response) (id : Uuid)
    (xs : List IdempotencyRecord)
    → r.status ≡ 201
    → find_record s xs ≡ none
    → complete_records s 201 r.body id (reservation env s fingerprint retention ∷ xs)
      ≡ with_result r.status r.body id (reservation env s fingerprint retention) ∷ xs
complete_reservation env s fingerprint retention r id xs created h =
    let rest = update_absent (in_scope s) (with_result 201 r.body id) xs h in
    let client = =t_refl s.client_id in
    let operation = =t_refl s.operation_type in let key = =t_refl s.key in ground arith

-- The reservation is in a table that a transfer does not read.
Moves-reserved :
    (env : Env) (retention : ℕ) (s : Scope) (fingerprint : Text) (before after : Database)
    (t : Transfer) (source destination : Account)
    → Moves (reserved env retention s fingerprint before) after t source destination
    → Moves before after t source destination
Moves-reserved env retention s fingerprint before after t source destination m = record {
  allowed = m.allowed;
  distinct = m.distinct;
  found_source = m.found_source;
  found_destination = m.found_destination;
  debited = m.debited;
  credited = m.credited;
  debit_fits = m.debit_fits;
  credit_fits = m.credit_fits;
  others = m.others;
  rewritten = m.rewritten;
  recorded = m.recorded;
  debit_id = m.debit_id;
  credit_id = m.credit_id;
  entered = m.entered;
}

complete_records-IsRecorded :
    (env : Env) (s : Scope) (fingerprint : Text) (retention : ℕ) (before after : Database)
    (r : Response) (id : Uuid)
    → find_record s before.idempotency_records ≡ none
    → r.status ≡ 201
    → after.idempotency_records
      ≡ complete_records s 201 r.body id
          (reservation env s fingerprint retention ∷ before.idempotency_records)
    → IsRecorded before after
complete_records-IsRecorded env s fingerprint retention before after r id new_key created kept =
    record {
      scope = s;
      env = env;
      fingerprint = fingerprint;
      retention = retention;
      response = r;
      id = id;
      new_key = new_key;
      kept =
          kept
          ∙ complete_reservation env s fingerprint retention r id before.idempotency_records created
              new_key;
    }

opened-Change :
    (env : Env) (retention : ℕ) (client_id : Text) (o : Opening) (id : Uuid)
    (before after : Database)
    → (pos 0 ≤ℤ o.balance_minor) × IsI64 o.balance_minor
    → find_account id before.accounts ≡ none
    → find_record (account_scope client_id o.key) before.idempotency_records ≡ none
    → after ≡ opened_tables env retention client_id o id before
    → Change before after
opened-Change env retention client_id o id before after balance new_id new_key tables =
    opens (opened_account client_id o id)
      (record {
        new_id = new_id;
        balance = balance;
        added = ap (λ db. db.accounts) tables;
        same_transfers = ap (λ db. db.transfers) tables;
        same_entries = ap (λ db. db.account_entries) tables;
      })
      (complete_records-IsRecorded env (account_scope client_id o.key)
        (account_creation_fingerprint env o.in_currency.code o.balance_minor) retention before after
        (record { status = 201; body = account_body o id }) id new_key refl
        (ap (λ db. db.idempotency_records) tables))

executed-Change :
    (env : Env) (retention : ℕ) (o : Order) (before after : Database) (r : Response)
    → IsExecuted env retention o before after r
    → Change before after
executed-Change env retention o before after r x =
    moves p.transfer p.source p.destination
      (Moves-reserved env retention o.scope (fingerprint_of env o) before after p.transfer p.source
        p.destination p.moves)
      (covered p.entitled.covered)
      (complete_records-IsRecorded env o.scope (fingerprint_of env o) retention before after r
        p.transfer.id x.new_key p.created p.kept)
  where
    open x use {performed as p}

reversed-Change :
    (env : Env) (retention : ℕ) (u : Undo) (before after : Database) (r : Response)
    → IsReversed env retention u before after r
    → Change before after
reversed-Change env retention u before after r x =
    moves p.transfer p.source p.destination
      (Moves-reserved env retention u.scope (reversal_fingerprint env u.original_id) before after
        p.transfer p.source p.destination p.moves)
      (takes_back p.undoes.kind)
      (complete_records-IsRecorded env u.scope (reversal_fingerprint env u.original_id) retention
        before after r p.transfer.id x.new_key p.created p.kept)
  where
    open x use {reversed as p}

handle-Change :
    (env : Env) (retention : ℕ) (client_id : Text) (headers : List Text) (c : Command) (w : World)
    → Change w.db (serve (request_of env retention client_id headers c) w).1.db
unfolding serve
handle-Change env retention client_id headers (post_account body) w =
    elim (create_account_changes env retention client_id headers body w) [
      | inl same ↦ stays same
      | inr (o, id, checks, new_id, new_key, tables) ↦
          opened-Change env retention client_id o id w.db _
            (check_account-balance env headers body o checks) new_id new_key tables
    ]
handle-Change env retention client_id headers (post_transfer body) w =
    elim (create_transfer_changes env retention client_id headers body w) [
      | inl same ↦ stays same
      | inr (o, r, _, x) ↦ executed-Change env retention o w.db _ r x
    ]
handle-Change env retention client_id headers (post_reversal transfer_id) w =
    elim (reverse_transfer_atomic env retention client_id headers transfer_id w) [
      | inl same ↦ stays same
      | inr (u, r, _, x) ↦ reversed-Change env retention u w.db _ r x
    ]

-- Whatever the outcome of a request that writes, also if it fails or panics or the answer to its
-- COMMIT is lost, it is all or nothing: the tables are as they were; or one account is opened; or one
-- transfer or reversal is carried out. What is done is recorded with its result under a key that was
-- not in use.
pub serve-Change : (q : Request) (w : World) → Change w.db (serve q w).1.db
serve-Change q w = handle-Change q.env q.retention q.client_id q.headers q.command w
