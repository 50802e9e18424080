-- ===== src/Service/Solvency.antt =====
-- src/api/reversals.rs and src/api/transfers.rs: which accounts may be overdrawn.
use high_performance_ledger.Prelude.{
  ◌≡◌, ◌⊎◌, sym, ◌∙◌, Bool, true, false, ◌&&◌, ◌==◌, some, List, ◌∷◌, arith, inl, inr, Bool-cases,
}
use native.Mathlib.Decide.{ℕ_discrete}
use high_performance_ledger.Prelude.Int.{ℤ, pos, ◌+ℤ◌, ◌-ℤ◌, ◌≤ℤ◌, +ℤ_parts, -ℤ_parts}
use high_performance_ledger.Database.{Uuid, Account, Transfer, Kind, reversal, Database, exists}
use high_performance_ledger.Database.Accounts.{find_account, with_balance}
use high_performance_ledger.Database.Records.{transfer_allowed_lem}
use high_performance_ledger.Transfers.Spec.{Moves}
use high_performance_ledger.Ledger.Invariant.{same_account}
use high_performance_ledger.Service.{serve, Step, request, Reach, start, then'}
use high_performance_ledger.Service.Change.{
  IsFunded, covered, takes_back, Change, stays, opens, moves, serve-Change,
}

abbrev pub is_reversal : Kind → Bool
is_reversal reversal = true
is_reversal _ = false

-- A reversal that took from an account.
abbrev pub took_from : Uuid → Transfer → Bool
took_from id t = is_reversal t.kind && (t.source_account_id == id)

-- Every account that is overdrawn is the source of a reversal.
abbrev pub IsExcused : Database → Type 0
IsExcused db =
    (id : Uuid) (a : Account)
    → find_account id db.accounts ≡ some a
    → (pos 0 ≤ℤ a.balance_minor) ⊎ (exists (took_from id) db.transfers ≡ true)

-- An excuse lasts.
lasts :
    (id : Uuid) (balance : ℤ) (t : Transfer) (ts : List Transfer)
    → (pos 0 ≤ℤ balance) ⊎ (exists (took_from id) ts ≡ true)
    → (pos 0 ≤ℤ balance) ⊎ (exists (took_from id) (t ∷ ts) ≡ true)
lasts id balance t ts (inl h) = inl h
lasts id balance t ts (inr h) = inr (ground arith)

-- The source of a transfer stays covered; the source of a reversal is excused by it.
funded :
    (id : Uuid) (t : Transfer) (source : Account) (ts : List Transfer)
    → id ≡ t.source_account_id
    → IsFunded t source
    → (pos 0 ≤ℤ source.balance_minor -ℤ t.total_source_debit_minor)
      ⊎ (exists (took_from id) (t ∷ ts) ≡ true)
funded id t source ts s (covered h) =
    inl (omega (arith, h, -ℤ_parts source.balance_minor t.total_source_debit_minor))
funded id t source ts s (takes_back h) = inr (ground arith)

credited :
    (id : Uuid) (balance amount : ℤ) (t : Transfer) (ts : List Transfer)
    → pos 1 ≤ℤ amount
    → (pos 0 ≤ℤ balance) ⊎ (exists (took_from id) ts ≡ true)
    → (pos 0 ≤ℤ balance +ℤ amount) ⊎ (exists (took_from id) (t ∷ ts) ≡ true)
credited id balance amount t ts positive (inl h) =
    inl (omega (arith, h, positive, +ℤ_parts balance amount))
credited id balance amount t ts positive (inr h) = inr (ground arith)

module _ (before after : Database) (t : Transfer) (source destination : Account)
    (m : Moves before after t source destination) (f : IsFunded t source)
    (h : IsExcused before) where
  excused :
      (id : Uuid) (a : Account)
      → find_account id after.accounts ≡ some a
      → (pos 0 ≤ℤ a.balance_minor) ⊎ (exists (took_from id) (t ∷ before.transfers) ≡ true)
  excused id a found = elim (ℕ_discrete id t.source_account_id) [
    | yes s ↦
        let is =
          same_account _ a
            (with_balance (source.balance_minor -ℤ t.total_source_debit_minor) source) found
            (rw s m.debited) in
        rw is (funded id t source before.transfers s f)
    | no s ↦ elim (ℕ_discrete id t.destination_account_id) [
      | yes d ↦
          let is =
            same_account _ a
              (with_balance (destination.balance_minor +ℤ t.destination_amount_minor) destination)
              found (rw d m.credited) in
          let (_, _, received, _) = transfer_allowed_lem t before.transfers m.allowed in
          rw is (
            credited id destination.balance_minor t.destination_amount_minor t before.transfers
              received (h id destination (rw d m.found_destination)))
      | no d ↦ lasts id a.balance_minor t before.transfers (h id a (sym (m.others id s d) ∙ found))
    ]
  ]

  Moves-IsExcused : IsExcused after
  Moves-IsExcused = rw m.recorded excused

Change-IsExcused :
    (before after : Database) → Change before after → IsExcused before → IsExcused after
Change-IsExcused before after (stays same) h = rw same h
Change-IsExcused before after (opens a o _) h =
    rw (o.added, o.same_transfers)
      λ id b found. elim (Bool-cases (a.id == id)) [
        | inl here ↦ (let same : a ≡ b = ground arith in inl (rw (← same) o.balance.0))
        | inr other ↦ h id b (ground arith)
      ]
Change-IsExcused before after (moves t source destination m f _) h =
    Moves-IsExcused before after t source destination m f h

Step-IsExcused : {before after : Database} → Step before after → IsExcused before → IsExcused after
Step-IsExcused (request q w) h = Change-IsExcused w.db (serve q w).1.db (serve-Change q w) h

-- If every account that is overdrawn is the source of a reversal, this stays so after any number of
-- requests with any outcomes.
pub Reach-IsExcused :
    {before after : Database} → Reach before after → IsExcused before → IsExcused after
Reach-IsExcused start h = h
Reach-IsExcused (then' r s) h = Step-IsExcused s (Reach-IsExcused r h)
