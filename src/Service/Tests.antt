-- ===== src/Service/Tests.antt =====
-- Uses of what is proved of the service, on the sample transfer and its reversal.
use high_performance_ledger.Prelude.{ℕ, ◌+◌, ◌≤◌, ◌≡◌, ◌≢◌, refl, false, some, [], ◌∷◌, arith, inl}
use high_performance_ledger.Prelude.Text.{codes}
use high_performance_ledger.Tx.{done, panicked}
use high_performance_ledger.Transfers.Sample.{env, db, world, request, first, response, answered}
use high_performance_ledger.Reversals.Sample.{reversed}
use high_performance_ledger.Reversals.Sample
use high_performance_ledger.Service.{
  post_transfer, post_reversal, Request, request_of, serve, Step, Reach, start, then',
}
use high_performance_ledger.Service.Change.{Change, serve-Change}
use high_performance_ledger.Service.Extends.{Extends, Reach-Extends}
use high_performance_ledger.Service.Invariant.{
  IsConsistent, nothing, Reach-IsConsistent, reversals_of, reversed_once,
}
use high_performance_ledger.Service.Retry.{sent_again, serve_once}
use high_performance_ledger.Service.Solvency.{IsExcused, Reach-IsExcused}
use high_performance_ledger.Service.Safe.{serve_never_panics}

abbrev pays : Request
pays = request_of env 86400 (codes "alice") (codes "key-1" ∷ []) (post_transfer (some request))

abbrev takes_back : Request
takes_back = request_of env 86400 (codes "bob") Sample.key (post_reversal (1007 ∷ []))

paid : Reach db first.1.db
unfolding serve
paid = then' start (Step.request pays world)

then_taken_back : Reach first.1.db reversed.1.db
unfolding serve
then_taken_back = then' start (Step.request takes_back first.1)

both : Reach db reversed.1.db
unfolding serve
both = then' paid (Step.request takes_back first.1)

db-IsConsistent : IsConsistent db
db-IsConsistent = record {
  unique = (refl, (refl, tt));
  fit = λ id a found. ground arith;
  booked = nothing;
  complete = λ s k found. ground arith;
}

serve-Change_example : Change db first.1.db
unfolding serve
serve-Change_example = serve-Change pays world

Reach-Extends_example : Extends db reversed.1.db
Reach-Extends_example = Reach-Extends both

Reach-IsConsistent_example : IsConsistent reversed.1.db
Reach-IsConsistent_example = Reach-IsConsistent both db-IsConsistent

reversed_once_example : reversals_of 1007 reversed.1.db.transfers ≤ 1
reversed_once_example = reversed_once 1007 db-IsConsistent both

abbrev other_ids : ℕ → ℕ
other_ids n = 5000 + n

serve_once_example :
    ((serve (sent_again pays (λ n. false) other_ids 99) reversed.1).0 ≡ done response)
    × ((serve (sent_again pays (λ n. false) other_ids 99) reversed.1).1.db ≡ reversed.1.db)
unfolding serve
serve_once_example =
    serve_once pays (λ n. false) other_ids 99 world first.1 reversed.1 response refl answered
      then_taken_back (λ n h. refl)

serve_never_panics_example : (serve takes_back first.1).0 ≢ panicked
serve_never_panics_example =
    serve_never_panics takes_back first.1 db-IsConsistent paid (omega arith)

db-IsExcused : IsExcused db
db-IsExcused = λ id a found. inl (ground arith)

Reach-IsExcused_example : IsExcused reversed.1.db
Reach-IsExcused_example = Reach-IsExcused both db-IsExcused
