-- ===== src/Reversals/Effect.antt =====
-- What `perform_reversal` has done when it succeeds.
use high_performance_ledger.Prelude.{◌≡◌, ◌≢◌, refl, sym, ◌∙◌, true, false, some, List, arith}
use high_performance_ledger.Prelude.Int.{ℤ, ◌+ℤ◌, ◌-ℤ◌, IsI64}
use high_performance_ledger.ApiError.{internal, not_found}
use high_performance_ledger.Database.{
  Uuid, IdempotencyRecord, Database, Transfer, reversal, active, exists,
}
use high_performance_ledger.Database.Accounts.{find_account}
use high_performance_ledger.Database.Records.{reverses, transfer_allowed}
use high_performance_ledger.Idempotency.{complete_records}
use high_performance_ledger.Tx.{Env, World, done, ◌>>=◌, lift, or_fail, query, tick}
use high_performance_ledger.Tx.Laws.{>>=-done, lift-done, or_fail-done, query-done}
use high_performance_ledger.Gate.{Response}
use high_performance_ledger.Transfers.Price.{Pair, lock_pair}
use high_performance_ledger.Transfers.Perform.Stages.{lock_pair-done}
use high_performance_ledger.Transfers.Moved.{moved, moved-Moves}
use high_performance_ledger.Reversals.{
  Undo, find_transfer, find_owner, check_original, check_accounts, restored_balances, reversal_row,
  with_balances, with_pair, with_checked, with_original, with_found, perform_reversal,
}
use high_performance_ledger.Reversals.Spec.{Reversed}
use high_performance_ledger.Reversals.Stages.{
  recorded_reversal, check_original-done, check_accounts_ok, restored_balances_ok,
  with_balances-done,
}

-- What was checked before anything was written.
record IsChecked (u : Undo) (original : Transfer) (before : Database) (a : Pair) : Type 0 where
  found : find_transfer u.original_id before ≡ some original
  forward : original.kind ≢ reversal
  owner : find_owner original.destination_account_id before ≡ some u.client_id
  once : exists (reverses u.original_id) before.transfers ≡ false
  found_source : find_account original.destination_account_id before.accounts ≡ some a.source
  found_destination : find_account original.source_account_id before.accounts ≡ some a.destination

IsChecked-owned :
    (u : Undo) (original : Transfer) (before : Database) (a : Pair)
    → IsChecked u original before a
    → a.source.owner_id ≡ u.client_id
IsChecked-owned u original before a c =
    let owner = c.owner in let found = c.found_source in ground arith

-- The tables that the statements leave are those of the specification.
written-Reversed :
    (env : Env) (u : Undo) (original : Transfer) (a : Pair) (balances : ℤ × ℤ)
    (before after : Database) (id i j : Uuid) (r : Response)
    → IsChecked u original before a
    → (a.source.status ≡ active) × (a.destination.status ≡ active)
    → (balances.0 ≡ a.source.balance_minor -ℤ original.destination_amount_minor)
      × (balances.1 ≡ a.destination.balance_minor +ℤ original.total_source_debit_minor)
      × IsI64 balances.0
      × IsI64 balances.1
    → after ≡ record (recorded_reversal env u original balances id i j before) {
      idempotency_records = complete_records u.scope 201 r.body id before.idempotency_records;
    }
    → transfer_allowed (reversal_row env u original id) before.transfers ≡ true
    → r.status ≡ 201
    → Reversed u before after r
written-Reversed env u original a balances before after id i j r c statuses
      (taken, returned, fits, fits') db allowed created =
    record {
      original = original;
      transfer = t;
      source = a.source;
      destination = a.destination;
      found = c.found;
      forward = c.forward;
      once = c.once;
      undoes = record {
        from = refl;
        to = refl;
        taken = refl;
        returned = refl;
        kind = refl;
        reverses = refl;
      };
      moves = rw same (
          moved-Moves t a.source a.destination i j records before allowed c.found_source
            c.found_destination (rw (← taken) fits) (rw (← returned) fits'));
      owned = IsChecked-owned u original before a c;
      source_active = statuses.0;
      destination_active = statuses.1;
      initiated = refl;
      created = created;
      kept = rw db;
    }
  where
    t : Transfer
    t = reversal_row env u original id

    records : List IdempotencyRecord
    records = complete_records u.scope 201 r.body id before.idempotency_records

    same : after ≡ moved t a.source a.destination i j records before
    same = rw (db, taken, returned)

with_pair-Reversed :
    (env : Env) (u : Undo) (original : Transfer) (a : Pair) (w w' : World) (r : Response)
    → IsChecked u original w.db a
    → with_pair env u original a w ≡ (done r, w')
    → Reversed u w.db w'.db r × (w'.counted ≡ w.counted)
unfolding with_pair
with_pair-Reversed env u original a w w' r c h =
    let (_, v, e, k) =
      >>=-done (lift (check_accounts original a))
        (λ _. lift (restored_balances original a) >>= with_balances env u original a) w h in
    let (valid, stay) = lift-done (check_accounts original a) w e in
    let (source_active, destination_active, _, _) = check_accounts_ok original a valid in
    let (balances, v', e', k') =
      >>=-done (lift (restored_balances original a)) (with_balances env u original a) v k in
    let (restored, stay') = lift-done (restored_balances original a) v e' in
    let (id, i, j, db, allowed, created, counted) =
      with_balances-done env u original a balances w w' r (rw (stay ∙ stay') k') in
    (
      written-Reversed env u original a balances w.db w'.db id i j r c
          (source_active, destination_active) (restored_balances_ok original a balances restored) db
          allowed created,
      counted,
    )

with_checked-Reversed :
    (env : Env) (u : Undo) (original : Transfer) (w w' : World) (r : Response)
    → find_transfer u.original_id w.db ≡ some original
    → original.kind ≢ reversal
    → find_owner original.destination_account_id w.db ≡ some u.client_id
    → exists (reverses u.original_id) w.db.transfers ≡ false
    → with_checked env u original tt w ≡ (done r, w')
    → Reversed u w.db w'.db r × (w'.counted ≡ w.counted)
unfolding with_checked
with_checked-Reversed env u original w w' r found forward owner once h =
    let (a, v, e, k) =
      >>=-done (lock_pair env original.destination_account_id original.source_account_id)
        (with_pair env u original) w h in
    let (db, counted, fs, fd) =
      lock_pair-done env original.destination_account_id original.source_account_id w v a e in
    let (reversed, same) =
      with_pair-Reversed env u original a v w' r
        (rw db (record {
          found = found;
          forward = forward;
          owner = owner;
          once = once;
          found_source = fs;
          found_destination = fd;
        }))
        k in
    (rw (← db) reversed, same ∙ counted)

with_original-Reversed :
    (env : Env) (u : Undo) (original : Transfer) (w w' : World) (r : Response)
    → find_transfer u.original_id w.db ≡ some original
    → with_original env u original w ≡ (done r, w')
    → Reversed u w.db w'.db r × (w'.counted ≡ w.counted)
unfolding with_original
with_original-Reversed env u original w w' r found h =
    let (_, v, e, k) = >>=-done (check_original env u original) (with_checked env u original) w h in
    let (forward, owner, once, db, counted) = check_original-done env u original w v e in
    let (reversed, same) =
      with_checked-Reversed env u original v w' r (rw db found) forward (rw db owner) (rw db once)
        k in
    (rw (← db) reversed, same ∙ counted)

-- A reversal that is performed did what the specification says.
pub perform_reversal-Reversed :
    (env : Env) (u : Undo) (w w' : World) (r : Response)
    → perform_reversal env u w ≡ (done r, w')
    → Reversed u w.db w'.db r × (w'.counted ≡ w.counted)
unfolding perform_reversal with_found
perform_reversal-Reversed env u w w' r h =
    let (found, v, e, k) =
      >>=-done (query env internal (find_transfer u.original_id)) (with_found env u) w h in
    let (same, ticked) = query-done env internal (find_transfer u.original_id) w e in
    let (original, v', e', k') = >>=-done (or_fail found not_found) (with_original env u) v k in
    let (is, stay) = or_fail-done found not_found v e' in
    let (reversed, counted) =
      with_original-Reversed env u original (tick w) w' r (sym same ∙ is)
        (rw (← (sym stay ∙ ticked)) k') in
    (reversed, counted)
