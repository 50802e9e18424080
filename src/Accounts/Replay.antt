-- ===== src/Accounts/Replay.antt =====
-- A request to open an account that is sent again.
use high_performance_ledger.Prelude.{◌*◌, ◌+◌, true}
use high_performance_ledger.Prelude.{
  ℕ, ◌≤◌, ◌≡◌, refl, false, some, Option, List, arith, suc, inl, inr, Option-cases, Bool-cases, ltb,
  ◌<◌,
}
use high_performance_ledger.Prelude.Int.{i64_mod}
use high_performance_ledger.Prelude.Result.{ok, Result-cases}
use high_performance_ledger.Prelude.Text.{Text, =t_refl, =t_sound}
use high_performance_ledger.Idempotency.{
  find_record, reservation, with_result, account_creation_fingerprint, reserve, store_success,
}
use high_performance_ledger.Tx.{Env, committed, World, done, tick}
use high_performance_ledger.Gate.{Response}
use high_performance_ledger.Gate.Atomic.{IsStored}
use high_performance_ledger.Accounts.{
  CreateAccountRequest, Opening, check_account, account_scope, open_account, account_transaction,
  create_account,
}

abbrev pub account_fingerprint : Env → Opening → Text
account_fingerprint env o = account_creation_fingerprint env o.in_currency.code o.balance_minor

-- A response is stored under the key of the request.
account_transaction-IsStored :
    (env : Env) (retention : ℕ) (client_id : Text) (o : Opening) (w w' : World) (r : Response)
    → env.status_from_u16 201 ≡ some 201
    → account_transaction env retention client_id o w ≡ (done r, w')
    → IsStored env (account_scope client_id o.key) (account_fingerprint env o) w'.db r
unfolding account_transaction reserve open_account store_success
account_transaction-IsStored env retention client_id o w w' r created h =
    elim (Option-cases (find_record (account_scope client_id o.key) w.db.idempotency_records)) [
      | inl fresh ↦ record {
        kept =
            with_result 201 r.body (env.new_v4 (suc w.calls)) (
              reservation env (account_scope client_id o.key) (account_fingerprint env o)
                retention);
        id = env.new_v4 (suc w.calls);
        http_status = 201;
        found = ground (
          arith,
          =t_refl client_id,
          =t_refl (account_scope client_id o.key).operation_type,
          =t_refl o.key,
        );
        same = refl;
        result = refl;
        status = ground arith;
      }
      | inr (k, found) ↦ elim (Option-cases k.result) [
        | inl incomplete ↦ ground arith
        | inr ((http_status, body, id), result) ↦ record {
          kept = k;
          id = id;
          http_status = http_status;
          found = ground arith;
          same = ground (arith, =t_sound k.request_fingerprint (account_fingerprint env o));
          result = ground arith;
          status = ground arith;
        }
      ]
    ]

-- A retention with which a key can be reserved.
abbrev pub IsRetention : ℕ → Type 0
IsRetention retention = (retention < i64_mod) × (1 ≤ retention)

account_transaction-fits :
    (env : Env) (retention : ℕ) (client_id : Text) (o : Opening) (w w' : World) (r : Response)
    → account_transaction env retention client_id o w ≡ (done r, w')
    → IsRetention retention
unfolding account_transaction reserve
account_transaction-fits env retention client_id o w w' r h =
    elim (Bool-cases (ltb retention i64_mod)) [
      | inr long ↦ ground arith
      | inl fits ↦ elim (Bool-cases (ltb env.now (env.now + retention * 1000000))) [
        | inl later ↦ (ground arith, ground arith)
        | inr expired ↦ ground arith
      ]
    ]

pub create_account-IsStored :
    (env : Env) (retention : ℕ) (client_id : Text) (headers : List Text)
    (body : Option CreateAccountRequest) (w w' : World) (r : Response)
    → env.status_from_u16 201 ≡ some 201
    → create_account env retention client_id headers body w ≡ (done r, w')
    → (o : Opening) × (check_account env headers body ≡ ok o)
      × IsStored env (account_scope client_id o.key) (account_fingerprint env o) w'.db r
      × IsRetention retention
unfolding create_account
create_account-IsStored env retention client_id headers body w w' r created h =
    elim (Result-cases (check_account env headers body)) [
      | inr (e, refused') ↦ ground arith
      | inl (o, checks) ↦ (
        o,
        checks,
        account_transaction-IsStored env retention client_id o (tick w) w' r created (ground arith),
        account_transaction-fits env retention client_id o (tick w) w' r (ground arith),
      )
    ]

account_transaction_replays :
    (env : Env) (retention : ℕ) (client_id : Text) (o : Opening) (w : World) (r : Response)
    → ((n : ℕ) → w.calls ≤ n → env.fails n ≡ false)
    → env.commit ≡ committed
    → IsRetention retention
    → IsStored env (account_scope client_id o.key) (account_fingerprint env o) w.db r
    → ((account_transaction env retention client_id o w).0 ≡ done r)
      × ((account_transaction env retention client_id o w).1.db ≡ w.db)
unfolding account_transaction reserve
account_transaction_replays env retention client_id o w r reliable commits fits stored =
    let (few, some_time) = fits in
    let later : ltb env.now (env.now + retention * 1000000) ≡ true = ground arith in
    let found = stored.found in
    let same = stored.same in
    let result = stored.result in
    let status = stored.status in
    let first = reliable w.calls (omega arith) in
    let second = reliable (suc w.calls) (omega arith) in
    let equal = =t_refl (account_fingerprint env o) in (ground arith, ground arith)

pub create_account_replays :
    (env : Env) (retention : ℕ) (client_id : Text) (headers : List Text)
    (body : Option CreateAccountRequest) (w : World) (o : Opening) (r : Response)
    → ((n : ℕ) → w.calls ≤ n → env.fails n ≡ false)
    → env.commit ≡ committed
    → IsRetention retention
    → check_account env headers body ≡ ok o
    → IsStored env (account_scope client_id o.key) (account_fingerprint env o) w.db r
    → ((create_account env retention client_id headers body w).0 ≡ done r)
      × ((create_account env retention client_id headers body w).1.db ≡ w.db)
unfolding create_account
create_account_replays env retention client_id headers body w o r reliable commits fits checks
      stored =
    let first = reliable w.calls (omega arith) in
    let (answer, kept) =
      account_transaction_replays env retention client_id o (tick w) r
        (λ n h. reliable n (omega arith)) commits fits stored in
    (ground arith, ground arith)
