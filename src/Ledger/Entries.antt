-- ===== src/Ledger/Entries.antt =====
-- The entries account for every change of a balance.
use high_performance_ledger.Prelude.{◌≡◌, ◌≢◌, arith}
use native.Mathlib.Decide.{ℕ_discrete}
use high_performance_ledger.Prelude.Int.{ℤ, ◌+ℤ◌, ◌-ℤ◌, eq_of_parts, +ℤ_parts, -ℤ_parts}
use high_performance_ledger.Database.{Uuid, Account, Transfer, Database}
use high_performance_ledger.Transfers.Spec.{Moves}
use high_performance_ledger.Ledger.{entries_total, opened_with}

-- The same amount taken from, or added to, both sides of a difference.
sub-sub : (a b c : ℤ) → (a -ℤ c) -ℤ (b -ℤ c) ≡ a -ℤ b
sub-sub a b c =
    eq_of_parts _ _
      (omega (arith, -ℤ_parts (a -ℤ c) (b -ℤ c), -ℤ_parts a c, -ℤ_parts b c, -ℤ_parts a b))

add-sub-add : (a b c : ℤ) → (a +ℤ c) -ℤ (b +ℤ c) ≡ a -ℤ b
add-sub-add a b c =
    eq_of_parts _ _
      (omega (arith, -ℤ_parts (a +ℤ c) (b +ℤ c), +ℤ_parts a c, +ℤ_parts b c, -ℤ_parts a b))

-- The opening balance of every account stays what it was: a transfer changes a balance by exactly
-- what the entries that it writes add up to.
module _ (before after : Database) (t : Transfer) (source destination : Account)
    (m : Moves before after t source destination) where
  opened_with-source :
      opened_with t.source_account_id after ≡ opened_with t.source_account_id before
  unfolding entries_total
  opened_with-source =
      let distinct = m.distinct in
      rw (m.debited, m.entered, m.found_source)
        (ground (
          arith,
          sub-sub source.balance_minor (entries_total t.source_account_id before.account_entries)
              t.total_source_debit_minor,
        ))

  opened_with-destination :
      opened_with t.destination_account_id after ≡ opened_with t.destination_account_id before
  unfolding entries_total
  opened_with-destination =
      let distinct = m.distinct in
      rw (m.credited, m.entered, m.found_destination)
        (ground (
          arith,
          add-sub-add destination.balance_minor
              (entries_total t.destination_account_id before.account_entries)
              t.destination_amount_minor,
        ))

  opened_with-other :
      (id : Uuid)
      → id ≢ t.source_account_id
      → id ≢ t.destination_account_id
      → opened_with id after ≡ opened_with id before
  unfolding entries_total
  opened_with-other id s d = rw (m.others id s d, m.entered) (ground arith)

  pub opened_with-Moves : (id : Uuid) → opened_with id after ≡ opened_with id before
  opened_with-Moves id = elim (ℕ_discrete id t.source_account_id) [
    | yes s ↦ rw s opened_with-source
    | no s ↦ elim (ℕ_discrete id t.destination_account_id) [
      | yes d ↦ rw d opened_with-destination
      | no d ↦ opened_with-other id s d
    ]
  ]
