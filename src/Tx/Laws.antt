-- ===== src/Tx/Laws.antt =====
-- Inversion of a computation that succeeded.
use high_performance_ledger.Prelude.{
  ◌≡◌, ◌≢◌, refl, suc, Bool, true, false, if◌then◌else◌, Option, none, some, arith,
}
use high_performance_ledger.Prelude.Result.{Result, ok, err}
use high_performance_ledger.Database.{Database}
use high_performance_ledger.Tx.{rename_error}
use high_performance_ledger.Tx.{
  Env, World, Outcome, done, failed, panicked, Tx, ◌>>=◌, ◌>>◌, lift, or_fail, expect, query,
  execute, pure, draw_uuid, tick,
}

resume-done :
    {E A B : Type 0} (x : Outcome E A × World) (f : A → Tx E B) {w' : World} {b : B}
    → ((λ (w : World). x) >>= f) x.1 ≡ (done b, w')
    → (a : A) × (v : World) × (x ≡ (done a, v)) × (f a v ≡ (done b, w'))
resume-done (done a, v) f h = (a, v, refl, h)
resume-done (failed e, v) f h = cc
resume-done (panicked, v) f h = cc

-- The steps of a successful chain each succeeded.
pub >>=-done :
    {E A B : Type 0} (m : Tx E A) (f : A → Tx E B) (w : World) {w' : World} {b : B}
    → (m >>= f) w ≡ (done b, w')
    → (a : A) × (v : World) × (m w ≡ (done a, v)) × (f a v ≡ (done b, w'))
>>=-done m f w h = resume-done (m w) f h

-- The same, of the smaller steps.
pub lift-done :
    {E A : Type 0} (r : Result E A) (w : World) {w' : World} {a : A}
    → lift r w ≡ (done a, w')
    → (r ≡ ok a) × (w ≡ w')
lift-done (ok a) w h = (cc, cc)
lift-done (err e) w h = cc

pub or_fail-done :
    {E A : Type 0} (o : Option A) (e : E) (w : World) {w' : World} {a : A}
    → or_fail o e w ≡ (done a, w')
    → (o ≡ some a) × (w ≡ w')
or_fail-done (some a) e w h = (cc, cc)
or_fail-done none e w h = cc

pub expect-done :
    {E A : Type 0} (o : Option A) (w : World) {w' : World} {a : A}
    → expect {E = E} o w ≡ (done a, w')
    → (o ≡ some a) × (w ≡ w')
expect-done (some a) w h = (cc, cc)
expect-done none w h = cc

-- A query that succeeds reads the tables, and changes only the count of the calls.
pub query-done :
    {E A : Type 0} (env : Env) (e : E) (f : Database → A) (w : World) {w' : World} {a : A}
    → query env e f w ≡ (done a, w')
    → (a ≡ f w.db) × (w' ≡ tick w)
query-done env e f w h = ground arith

pub rename_error-done :
    {E F A : Type 0} (f : E → F) (m : Tx E A) (w : World) {w' : World} {a : A}
    → rename_error f m w ≡ (done a, w')
    → m w ≡ (done a, w')
rename_error-done f m w h = ground arith

-- A computation that does not panic in a world.
pub record IsSafe {E A : Type 0} (m : Tx E A) (w : World) : Type 0 where
  pub safe : (m w).0 ≢ panicked

resume-IsSafe :
    {E A B : Type 0} (x : Outcome E A × World) (f : A → Tx E B)
    → x.0 ≢ panicked
    → ((a : A) → x.0 ≡ done a → IsSafe (f a) x.1)
    → (((λ (w : World). x) >>= f) x.1).0 ≢ panicked
resume-IsSafe (done a, v) f h k = (k a refl).safe
resume-IsSafe (failed e, v) f h k = λ p. cc
resume-IsSafe (panicked, v) f h k = λ p. h refl

pub >>=-IsSafe :
    {E A B : Type 0} (m : Tx E A) (f : A → Tx E B) (w : World)
    → IsSafe m w
    → ((a : A) → (m w).0 ≡ done a → IsSafe (f a) (m w).1)
    → IsSafe (m >>= f) w
>>=-IsSafe m f w h k = record { safe = resume-IsSafe (m w) f h.safe k }

pub lift-IsSafe : {E A : Type 0} (r : Result E A) (w : World) → IsSafe (lift r) w
lift-IsSafe (ok a) w = record { safe = λ p. cc }
lift-IsSafe (err e) w = record { safe = λ p. cc }

pub or_fail-IsSafe : {E A : Type 0} (o : Option A) (e : E) (w : World) → IsSafe (or_fail o e) w
or_fail-IsSafe (some a) e w = record { safe = λ p. cc }
or_fail-IsSafe none e w = record { safe = λ p. cc }

pub query-IsSafe :
    {E A : Type 0} (env : Env) (e : E) (f : Database → A) (w : World) → IsSafe (query env e f) w
query-IsSafe env e f w = record { safe = λ p. ground arith }

execute_cases :
    {E : Type 0} (e : E) (b : Bool) (o : Option Database) (w : World)
    → (if b then (failed e, tick w) else elim o as (λ x. Outcome E (Unit {0}) × World) [
      | none ↦ (failed e, tick w)
      | some d ↦ (done tt, record w { db = d; calls = suc w.calls })
    ]).0
      ≢ panicked
execute_cases e true o w = λ p. cc
execute_cases e false none w = λ p. cc
execute_cases e false (some d) w = λ p. cc

pub execute-IsSafe :
    {E : Type 0} (env : Env) (e : E) (f : Database → Option Database) (w : World)
    → IsSafe (execute env e f) w
execute-IsSafe env e f w = record { safe = execute_cases e (env.fails w.calls) (f w.db) w }

pub pure-IsSafe : {E A : Type 0} (a : A) (w : World) → IsSafe {E = E} (pure a) w
pure-IsSafe a w = record { safe = λ p. cc }

pub draw_uuid-IsSafe : {E : Type 0} (env : Env) (w : World) → IsSafe {E = E} (draw_uuid env) w
draw_uuid-IsSafe env w = record { safe = λ p. cc }

-- A chain of computations that never panic never panics.
pub chain-IsSafe :
    {E A B : Type 0} (m : Tx E A) (f : A → Tx E B)
    → ((w : World) → IsSafe m w)
    → ((a : A) (w : World) → IsSafe (f a) w)
    → (w : World) → IsSafe (m >>= f) w
chain-IsSafe m f h k w = >>=-IsSafe m f w (h w) λ a e. k a (m w).1

-- The same, with what the first computation tells of its result.
module _ {E A B : Type 0} (f : A → Tx E B) (w : World) where
  pub lift_then-IsSafe :
      (r : Result E A) → ((a : A) → r ≡ ok a → IsSafe (f a) w) → IsSafe (lift r >>= f) w
  lift_then-IsSafe (ok a) h = record { safe = (h a refl).safe }
  lift_then-IsSafe (err e) h = record { safe = λ p. cc }

  pub or_fail_then-IsSafe :
      (o : Option A) (e : E)
      → ((a : A) → o ≡ some a → IsSafe (f a) w)
      → IsSafe (or_fail o e >>= f) w
  or_fail_then-IsSafe (some a) e h = record { safe = (h a refl).safe }
  or_fail_then-IsSafe none e h = record { safe = λ p. cc }

  pub query_then-IsSafe :
      (env : Env) (e : E) (g : Database → A)
      → IsSafe (f (g w.db)) (tick w)
      → IsSafe (query env e g >>= f) w
  query_then-IsSafe env e g h = record { safe = by_failure (env.fails w.calls) }
    where
      by_failure :
          (b : Bool)
          → (((λ (v : World). (if b then failed e else done (g w.db), tick w)) >>= f) w).0
            ≢ panicked
      by_failure true = λ p. cc
      by_failure false = h.safe

-- A computation that returns a value, and leaves a world.
pub record Returns {E A : Type 0} (m : Tx E A) (w : World) (a : A) (v : World) : Type 0 where
  pub returns : m w ≡ (done a, v)

resume-Returns :
    {E A B : Type 0} (x : Outcome E A × World) (f : A → Tx E B) (a : A) (v u : World) (b : B)
    → x ≡ (done a, v)
    → f a v ≡ (done b, u)
    → ((λ (w : World). x) >>= f) x.1 ≡ (done b, u)
resume-Returns (done c, y) f a v u b h k = cc
resume-Returns (failed e, y) f a v u b h k = cc
resume-Returns (panicked, y) f a v u b h k = cc

pub >>=-Returns :
    {E A B : Type 0} (m : Tx E A) (f : A → Tx E B) {w v u : World} {a : A} {b : B}
    → Returns m w a v
    → Returns (f a) v b u
    → Returns (m >>= f) w b u
>>=-Returns m f {w = w} {v = v} {u = u} {a = a} {b = b} h k = record {
  returns = resume-Returns (m w) f a v u b h.returns k.returns;
}

pub >>-Returns :
    {E B : Type 0} (m : Tx E (Unit {0})) (k : Tx E B) {w v u : World} {b : B}
    → Returns m w tt v
    → Returns k v b u
    → Returns (m >> k) w b u
>>-Returns m k h l = >>=-Returns m (λ _. k) h l

pub pure-Returns : {E A : Type 0} (a : A) (w : World) → Returns {E = E} (pure a) w a w
pure-Returns a w = record { returns = refl }

pub draw_uuid-Returns :
    {E : Type 0} (env : Env) (w : World)
    → Returns {E = E} (draw_uuid env) w (env.new_v4 w.calls) (tick w)
draw_uuid-Returns env w = record { returns = refl }

pub query-Returns :
    {E A : Type 0} (env : Env) (e : E) (f : Database → A) (w : World)
    → env.fails w.calls ≡ false
    → Returns (query env e f) w (f w.db) (tick w)
query-Returns env e f w h = record { returns = ground arith }

execute_returns :
    {E : Type 0} (e : E) (b : Bool) (o : Option Database) (w : World) (d : Database)
    → b ≡ false
    → o ≡ some d
    → (if b then (failed e, tick w) else elim o as (λ x. Outcome E (Unit {0}) × World) [
      | none ↦ (failed e, tick w)
      | some d ↦ (done tt, record w { db = d; calls = suc w.calls })
    ])
      ≡ (done tt, record w { db = d; calls = suc w.calls })
execute_returns e b o w d h k = rw (h, k)

pub execute-Returns :
    {E : Type 0} (env : Env) (e : E) (f : Database → Option Database) (w : World) (d : Database)
    → env.fails w.calls ≡ false
    → f w.db ≡ some d
    → Returns (execute env e f) w tt (record w { db = d; calls = suc w.calls })
execute-Returns env e f w d h k = record {
  returns = execute_returns e (env.fails w.calls) (f w.db) w d h k;
}

pub lift-Returns :
    {E A : Type 0} (r : Result E A) (w : World) (a : A) → r ≡ ok a → Returns (lift r) w a w
lift-Returns r w a h = record { returns = rw h }
