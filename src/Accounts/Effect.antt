-- ===== src/Accounts/Effect.antt =====
-- What the opening of an account writes, and who reads a balance.
use high_performance_ledger.Prelude.{◌*◌, ◌+◌}
use high_performance_ledger.Prelude.{
  ℕ, ◌≡◌, ◌≢◌, ◌⊎◌, refl, true, false, Option, none, some, List, [], ◌∷◌, arith, inl, inr,
  Option-cases, Bool-cases, suc, ltb, if◌then◌else◌, ◌==◌,
}
use high_performance_ledger.Prelude.Text.{Text, ◌=t◌}
use high_performance_ledger.Prelude.Result.{ok, Result-cases}
use high_performance_ledger.ApiError.{not_found}
use high_performance_ledger.Database.{Uuid, Account, Database, find}
use high_performance_ledger.Database.Accounts.{find_account, UniqueIds}
use high_performance_ledger.Idempotency.{
  find_record, reservation, complete_records, account_creation_fingerprint, reserve, store_success,
}
use high_performance_ledger.Prelude.Int.{i64_mod}
use high_performance_ledger.Tx.{Env, committed, unacknowledged, World, done, failed, tick}
use high_performance_ledger.Gate.Atomic.{is_done, Answer-cases}
use high_performance_ledger.Accounts.{
  CreateAccountRequest, Opening, check_account, opened_account, account_body, account_scope,
  open_account, account_transaction, create_account, is_own, balance_response, get_balance,
}

-- The tables with a new account, and its result stored.
abbrev pub opened_tables : Env → ℕ → Text → Opening → Uuid → Database → Database
opened_tables env retention client_id o id db = record db {
  accounts = opened_account client_id o id ∷ db.accounts;
  idempotency_records =
      complete_records (account_scope client_id o.key) 201 (account_body o id) id (
        reservation env (account_scope client_id o.key)
          (account_creation_fingerprint env o.in_currency.code o.balance_minor) retention
        ∷ db.idempotency_records);
}

-- The tables with a new account are those of the transaction, or nothing is changed.
account_transaction-db :
    (env : Env) (retention : ℕ) (client_id : Text) (o : Opening) (w : World)
    → env.commit ≢ unacknowledged
    → ((account_transaction env retention client_id o w).1.db ≡ w.db)
      ⊎ ((id : Uuid) × (find_account id w.db.accounts ≡ none)
          × (is_done (account_transaction env retention client_id o w).0 ≡ true)
          × ((account_transaction env retention client_id o w).1.db
              ≡ opened_tables env retention client_id o id w.db))
unfolding account_transaction reserve open_account store_success
account_transaction-db env retention client_id o w h =
    elim (Option-cases (find_record (account_scope client_id o.key) w.db.idempotency_records)) [
      | inr (k, found) ↦ inl (ground arith)
      | inl fresh ↦
          elim (Bool-cases (is_done (account_transaction env retention client_id o w).0)) [
            | inl answered ↦ inr (env.new_v4 (suc w.calls), ground arith, answered, ground arith)
            | inr refused' ↦ inl (ground arith)
          ]
    ]

-- Opening an account either adds one account with a new id, the opening balance and the caller as its
-- owner, and stores the result under the key, or it leaves the tables as they were, unless the answer
-- to the COMMIT was lost. An account is added only by a request that is answered with a response.
pub create_account_sound :
    (env : Env) (retention : ℕ) (client_id : Text) (headers : List Text)
    (body : Option CreateAccountRequest) (w : World)
    → env.commit ≢ unacknowledged
    → ((create_account env retention client_id headers body w).1.db ≡ w.db)
      ⊎ ((o : Opening) × (id : Uuid) × (check_account env headers body ≡ ok o)
          × (find_account id w.db.accounts ≡ none)
          × (is_done (create_account env retention client_id headers body w).0 ≡ true)
          × ((create_account env retention client_id headers body w).1.db
              ≡ opened_tables env retention client_id o id w.db))
unfolding create_account
create_account_sound env retention client_id headers body w h =
    elim (Result-cases (check_account env headers body)) [
      | inr (e, refused') ↦ inl (ground arith)
      | inl (o, checks) ↦ elim (Bool-cases (env.fails w.calls)) [
        | inl fails ↦ inl (ground arith)
        | inr works ↦ elim (account_transaction-db env retention client_id o (tick w) h) [
          | inl same ↦ inl (ground arith)
          | inr (id, fresh, answered, tables) ↦
              inr (o, id, checks, fresh, ground arith, ground arith)
        ]
      ]
    ]

-- The same of every request, also if the answer to its COMMIT was lost.
account_transaction_kept :
    (env : Env) (retention : ℕ) (client_id : Text) (o : Opening) (w : World)
    → ((account_transaction env retention client_id o w).1.db ≡ w.db)
      ⊎ ((id : Uuid) × (find_account id w.db.accounts ≡ none)
          × (find_record (account_scope client_id o.key) w.db.idempotency_records ≡ none)
          × ((account_transaction env retention client_id o w).1.db
              ≡ opened_tables env retention client_id o id w.db))
unfolding account_transaction reserve open_account store_success
account_transaction_kept env retention client_id o w =
    elim (Option-cases (find_record (account_scope client_id o.key) w.db.idempotency_records)) [
      | inr (k, found) ↦ inl (ground arith)
      | inl fresh ↦ elim (Answer-cases env.commit) [
        | inr (inl refused') ↦ inl (ground arith)
        | inl committed' ↦ stored fresh (inl committed')
        | inr (inr lost) ↦ stored fresh (inr lost)
      ]
    ]
  where
    reserved : World
    reserved = tick (record w {
      db = record w.db {
        idempotency_records =
            reservation env (account_scope client_id o.key)
              (account_creation_fingerprint env o.in_currency.code o.balance_minor) retention
            ∷ w.db.idempotency_records;
      };
    })

    stored :
        find_record (account_scope client_id o.key) w.db.idempotency_records ≡ none
        → (env.commit ≡ committed) ⊎ (env.commit ≡ unacknowledged)
        → ((account_transaction env retention client_id o w).1.db ≡ w.db)
          ⊎ ((id : Uuid) × (find_account id w.db.accounts ≡ none)
              × (find_record (account_scope client_id o.key) w.db.idempotency_records ≡ none)
              × ((account_transaction env retention client_id o w).1.db
                  ≡ opened_tables env retention client_id o id w.db))
    stored fresh ends = elim (Bool-cases (ltb retention i64_mod)) [
      | inr long ↦ inl (ground arith)
      | inl fits ↦ elim (Bool-cases (env.fails w.calls)) [
        | inl fails ↦ inl (ground arith)
        | inr works ↦ elim (Bool-cases (ltb env.now (env.now + retention * 1000000))) [
          | inr expired ↦ inl (ground arith)
          | inl later ↦ elim (Bool-cases (is_done (open_account env client_id o reserved).0)) [
            | inr refused' ↦ inl (ground arith)
            | inl opens ↦ inr (env.new_v4 (suc w.calls), ground arith, fresh, ground arith)
          ]
        ]
      ]
    ]

pub create_account_changes :
    (env : Env) (retention : ℕ) (client_id : Text) (headers : List Text)
    (body : Option CreateAccountRequest) (w : World)
    → ((create_account env retention client_id headers body w).1.db ≡ w.db)
      ⊎ ((o : Opening) × (id : Uuid) × (check_account env headers body ≡ ok o)
          × (find_account id w.db.accounts ≡ none)
          × (find_record (account_scope client_id o.key) w.db.idempotency_records ≡ none)
          × ((create_account env retention client_id headers body w).1.db
              ≡ opened_tables env retention client_id o id w.db))
unfolding create_account
create_account_changes env retention client_id headers body w =
    elim (Result-cases (check_account env headers body)) [
      | inr (e, refused') ↦ inl (ground arith)
      | inl (o, checks) ↦ elim (Bool-cases (env.fails w.calls)) [
        | inl fails ↦ inl (ground arith)
        | inr works ↦ elim (account_transaction_kept env retention client_id o (tick w)) [
          | inl same ↦ inl (ground arith)
          | inr (id, fresh, new_key, tables) ↦ inr (o, id, checks, fresh, new_key, ground arith)
        ]
      ]
    ]

find-is_own_none :
    (id : Uuid) (client_id : Text) (xs : List Account)
    → find_account id xs ≡ none
    → find (is_own id client_id) xs ≡ none
find-is_own_none id client_id [] h = refl
find-is_own_none id client_id (x ∷ xs) h = ground (arith, find-is_own_none id client_id xs)

find-is_own :
    (id : Uuid) (client_id : Text) (xs : List Account) (a : Account)
    → UniqueIds xs
    → find_account id xs ≡ some a
    → find (is_own id client_id) xs ≡ (if a.owner_id =t client_id then some a else none)
find-is_own id client_id [] a u h = cc
find-is_own id client_id (x ∷ xs) a u h = elim (Bool-cases (x.id == id)) [
  | inl here ↦ ground (arith, find-is_own_none id client_id xs)
  | inr later ↦ ground (arith, find-is_own id client_id xs a u.1)
]

-- A balance is shown exactly to the owner of the account, as it is in the tables: anyone else is told
-- that there is no such account. The ids of the accounts are distinct, and the statement does not fail.
pub get_balance_lem :
    (env : Env) (client_id account_id : Text) (id : Uuid) (a : Account) (w : World)
    → env.fails w.calls ≡ false
    → env.parse_uuid account_id ≡ some id
    → UniqueIds w.db.accounts
    → find_account id w.db.accounts ≡ some a
    → ((get_balance env client_id account_id w).0
        ≡ (if a.owner_id =t client_id then done (balance_response id a) else failed not_found))
      × ((get_balance env client_id account_id w).1.db ≡ w.db)
unfolding get_balance
get_balance_lem env client_id account_id id a w works parses u found =
    let own = find-is_own id client_id w.db.accounts a u found in (ground arith, ground arith)
