-- ===== src/Tx.antt =====
-- A handler's work inside one database transaction: a computation on the state that it sees, which
-- may return an error or panic. What the service calls but does not implement is a parameter.
pub mod Laws
use high_performance_ledger.Prelude.{
  ℕ, suc, ◌≡◌, Bool, true, false, Option, none, some, List, [], ◌∷◌, if◌then◌else◌,
}
use high_performance_ledger.Prelude.Text.{Text}
use high_performance_ledger.Prelude.Result.{Result, ok, err}
use high_performance_ledger.Observability.{
  Metric, FinancialOperation, TransactionObservation, TerminalOutcome, FinancialReason,
}
use high_performance_ledger.Database.{Database, Uuid, Timestamp}

-- How PostgreSQL answers a COMMIT: it is done; it failed and nothing is stored; or the answer was
-- lost after the changes were stored.
pub data CommitAnswer : Type 0 where
  committed refused unacknowledged : CommitAnswer

-- The outside of one request. The calls are counted, and `fails n` says that the n-th one fails: a
-- statement, the pool, or the serialisation of a body. `new_v4 n` is the UUID drawn as the n-th
-- call, and `now` the time of the transaction.
pub record Env : Type 0 where
  pub fails : ℕ → Bool
  pub new_v4 : ℕ → Uuid
  pub now : Timestamp
  pub commit : CommitAnswer
  pub parse_uuid : Text → Option Uuid
  pub timestamp_text : Timestamp → Text
  pub to_rfc3339 : Timestamp → Text
  pub sha256_hex : List ℕ → Text
  pub header_to_str : Text → Option Text
  pub status_from_u16 : ℕ → Option ℕ

-- The state during a request: the tables as the transaction sees them, the calls made so far, and
-- what was counted.
pub record World : Type 0 where
  pub db : Database
  pub calls : ℕ
  pub counted : List Metric

pub data Outcome (E A : Type 0) : Type 0 where
  done : A → Outcome E A
  failed : E → Outcome E A
  panicked : Outcome E A

abbrev pub Tx : Type 0 → Type 0 → Type 0
Tx E A = World → Outcome E A × World

infixl 5 ◌>>=◌ ◌>>◌
abbrev pub ◌>>=◌ : {E A B : Type 0} → Tx E A → (A → Tx E B) → Tx E B
◌>>=◌ m f w =
    let (r, w') = m w in
    elim r [ done a ↦ f a w' | failed e ↦ (failed e, w') | panicked ↦ (panicked, w') ]

abbrev pub ◌>>◌ : {E B : Type 0} → Tx E (Unit {0}) → Tx E B → Tx E B
m >> k = m >>= λ _. k

module _ {E A : Type 0} where
  abbrev pub pure : A → Tx E A
  pure a w = (done a, w)

  abbrev pub fail : E → Tx E A
  fail e w = (failed e, w)

  abbrev pub panic : Tx E A
  panic w = (panicked, w)

  -- `?` on a computed result
  abbrev pub lift : Result E A → Tx E A
  lift (ok a) w = (done a, w)
  lift (err e) w = (failed e, w)

  abbrev pub or_fail : Option A → E → Tx E A
  or_fail none e w = (failed e, w)
  or_fail (some a) e w = (done a, w)

  -- `Option::expect`
  abbrev pub expect : Option A → Tx E A
  expect none w = (panicked, w)
  expect (some a) w = (done a, w)

abbrev pub fail_if : {E : Type 0} → Bool → E → Tx E (Unit {0})
fail_if true e w = (failed e, w)
fail_if false e w = (done tt, w)

abbrev pub tick : World → World
tick w = record w { calls = suc w.calls }

module _ {E : Type 0} (env : Env) (e : E) where
  -- A call that reads, or fails with the error `e`.
  abbrev pub query : {A : Type 0} → (Database → A) → Tx E A
  query f w = (if env.fails w.calls then failed e else done (f w.db), tick w)

  -- A call that writes and reports something of what it wrote.
  abbrev pub perform : {A : Type 0} → (Database → A × Database) → Tx E A
  perform f w =
      if env.fails w.calls
      then (failed e, tick w)
      else (let (a, d) = f w.db in (done a, record w { db = d; calls = suc w.calls }))

  -- A call that writes; `none` is a violated constraint.
  abbrev pub execute : (Database → Option Database) → Tx E (Unit {0})
  execute f w = if env.fails w.calls then (failed e, tick w) else elim (f w.db) [
    | none ↦ (failed e, tick w)
    | some d ↦ (done tt, record w { db = d; calls = suc w.calls })
  ]

-- A call that touches no table: to take a connection, to begin, to serialise a body.
abbrev pub call_out : {E : Type 0} → Env → E → Tx E (Unit {0})
call_out env e = query env e (λ db. tt)

abbrev pub draw_uuid : {E : Type 0} → Env → Tx E Uuid
draw_uuid env w = (done (env.new_v4 w.calls), tick w)

abbrev pub count_metric : {E : Type 0} → Metric → Tx E (Unit {0})
count_metric m w = (done tt, record w { counted = m ∷ w.counted })

abbrev pub rename_error : {E F A : Type 0} → (E → F) → Tx E A → Tx F A
rename_error f m w =
    let (r, w') = m w in
    (elim r [ done a ↦ done a | failed e ↦ failed (f e) | panicked ↦ panicked ], w')
