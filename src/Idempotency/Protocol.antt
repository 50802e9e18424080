-- ===== src/Idempotency/Protocol.antt =====
-- Which keys are taken, and what a reservation reports.
use high_performance_ledger.Prelude.{
  ℕ, ◌≤◌, ◌≡◌, ◌≢◌, ◌↔◌, refl, true, none, some, List, [], ◌∷◌, arith, inl, inr, Option-cases,
}
use high_performance_ledger.Prelude.Lists.{length, all}
use high_performance_ledger.Prelude.Int.{i64_mod}
use high_performance_ledger.Prelude.Text.{Text, =t_refl}
use high_performance_ledger.Prelude.Result.{ok}
use high_performance_ledger.Idempotency.{
  is_key_byte, check_key, from_headers, owned, Scope, find_record, reservation, reserve,
}
use high_performance_ledger.Tx.{Env, World, done, panicked}

-- A key: 1 to 255 visible ASCII characters.
abbrev pub IsKey : Text → Type 0
IsKey key = (1 ≤ length key) × (length key ≤ 255) × (all is_key_byte key ≡ true)

-- A request has a key exactly if the header is there once, and its text is a key.
pub from_headers_iff :
    (env : Env) (headers : List Text) (key : Text)
    → (from_headers env headers ≡ ok key)
      ↔ ((value : Text) × (headers ≡ value ∷ []) × (env.header_to_str value ≡ some key) × IsKey key)
unfolding from_headers check_key
from_headers_iff env [] key = (λ h. ground arith, λ (v, e, f, k). ground arith)
from_headers_iff env (value ∷ []) key = (
  λ h. elim (Option-cases (env.header_to_str value)) [
    | inl unreadable ↦ ground arith
    | inr (text, readable) ↦ (value, refl, ground arith, ground arith)
  ],
  λ (v, e, f, k). ground arith,
)
from_headers_iff env (value ∷ other ∷ values) key =
    (λ h. ground arith, λ (v, e, f, k). ground arith)

-- A reservation under a key that no record has panics exactly if the retention does not fit into an
-- `i64`.
pub reserve_panics_iff :
    (env : Env) (s : Scope) (fingerprint : Text) (retention : ℕ) (w : World)
    → find_record s w.db.idempotency_records ≡ none
    → ((reserve env s fingerprint retention w).0 ≡ panicked) ↔ (i64_mod ≤ retention)
unfolding reserve
reserve_panics_iff env s fingerprint retention w h = (λ p. ground arith, λ l. ground arith)

-- A key is reserved once: a reservation that is owned is found under the key afterwards, and on the
-- tables that it left a second reservation with the same key is not owned.
pub reserve_once :
    (env : Env) (s : Scope) (fingerprint other : Text) (retention : ℕ) (w w' v v' : World)
    → reserve env s fingerprint retention w ≡ (done owned, w')
    → v.db ≡ w'.db
    → (reserve env s other retention v ≢ (done owned, v'))
      × (find_record s w'.db.idempotency_records ≡ some (reservation env s fingerprint retention))
unfolding reserve
reserve_once env s fingerprint other retention w w' v v' h e =
    let client = =t_refl s.client_id in
    let operation = =t_refl s.operation_type in
    let key = =t_refl s.key in (λ k. ground arith, ground arith)
