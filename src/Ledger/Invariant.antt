-- ===== src/Ledger/Invariant.antt =====
-- What every run of `create_transfer` keeps of the ledger.
use high_performance_ledger.Prelude.{ℕ, ◌≡◌, ◌⊎◌, sym, ◌∙◌, ap, Option, some, List, arith, inl, inr}
use native.Mathlib.Decide.{ℕ_discrete}
use high_performance_ledger.Prelude.Int.{pos, ◌+ℤ◌, ◌-ℤ◌, ◌≤ℤ◌, IsI64, +ℤ_parts, -ℤ_parts}
use high_performance_ledger.Prelude.Text.{Text}
use high_performance_ledger.Database.{Uuid, Account, Transfer, Database}
use high_performance_ledger.Database.Accounts.{
  find_account, with_balance, UniqueIds, set_balance-UniqueIds,
}
use high_performance_ledger.Tx.{Env, World}
use high_performance_ledger.Gate.{Response}
use high_performance_ledger.Transfers.Request.{CreateTransferRequest}
use high_performance_ledger.Transfers.Spec.{Moves, Performed}
use high_performance_ledger.Transfers.Perform.{Order}
use high_performance_ledger.Transfers.Create.{create_transfer}
use high_performance_ledger.Transfers.Create.Sound.{reserved, fingerprint_of}
use high_performance_ledger.Transfers.Create.Rollback.{create_transfer_changes}
use high_performance_ledger.Ledger.{opened_with}
use high_performance_ledger.Ledger.Entries.{opened_with-Moves}

-- No account is overdrawn, and every balance is an `i64`.
abbrev pub IsSolvent : List Account → Type 0
IsSolvent accounts =
    (id : Uuid) (a : Account)
    → find_account id accounts ≡ some a
    → (pos 0 ≤ℤ a.balance_minor) × IsI64 a.balance_minor

-- A ledger whose accounts have distinct ids and are solvent.
pub record IsLedger (db : Database) : Type 0 where
  pub unique : UniqueIds db.accounts
  pub solvent : IsSolvent db.accounts

pub same_account : (o : Option Account) (a b : Account) → o ≡ some a → o ≡ some b → a ≡ b
same_account o a b h k = cc

Moves-IsSolvent :
    (before after : Database) (t : Transfer) (source destination : Account)
    → Moves before after t source destination
    → t.total_source_debit_minor ≤ℤ source.balance_minor
    → pos 1 ≤ℤ t.destination_amount_minor
    → IsSolvent before.accounts
    → IsSolvent after.accounts
Moves-IsSolvent before after t source destination m covered received h id a found =
    elim (ℕ_discrete id t.source_account_id) [
      | yes s ↦
          let is_source =
            same_account _ a
              (with_balance (source.balance_minor -ℤ t.total_source_debit_minor) source) found
              (rw s m.debited) in
          let fits = m.debit_fits in
          rw is_source
            (omega (arith, -ℤ_parts source.balance_minor t.total_source_debit_minor), fits)
      | no s ↦ elim (ℕ_discrete id t.destination_account_id) [
        | yes d ↦
            let is_destination =
              same_account _ a
                (with_balance (destination.balance_minor +ℤ t.destination_amount_minor) destination)
                found (rw d m.credited) in
            let (positive, _) = h t.destination_account_id destination m.found_destination in
            rw is_destination (
              omega (arith, +ℤ_parts destination.balance_minor t.destination_amount_minor),
              m.credit_fits,
            )
        | no d ↦ h id a (sym (m.others id s d) ∙ found)
      ]
    ]

-- Whatever a transfer of an order does to a ledger, it is a ledger afterwards.
Performed-IsLedger :
    (env : Env) (o : Order) (before after : Database) (r : Response)
    → Performed env o before after r
    → IsLedger before
    → IsLedger after
Performed-IsLedger env o before after r p h = record {
  unique =
      rw p.moves.rewritten
        (set_balance-UniqueIds _ _ _ (set_balance-UniqueIds _ _ before.accounts h.unique));
  solvent =
      Moves-IsSolvent before after p.transfer p.source p.destination p.moves p.entitled.covered
        p.priced.received h.solvent;
}

module _ (env : Env) (retention : ℕ) (client_id : Text) (headers : List Text)
    (body : Option CreateTransferRequest) (w : World) where
  after : World
  after = (create_transfer env retention client_id headers body w).1

  -- The tables are unchanged, or an order was carried out.
  changes :
      ((o : Order) × (r : Response) × Performed env o
          (reserved env retention o.scope (fingerprint_of env o) w.db)
          after.db
          r)
      ⊎ (after.db ≡ w.db)
  unfolding after
  changes = elim (create_transfer_changes env retention client_id headers body w) [
    | inl kept ↦ inr kept
    | inr (o, r, _, x) ↦ inl (o, r, x.performed)
  ]

  -- A request for a transfer keeps the ledger well formed, whatever its outcome: the ids of the accounts
  -- are distinct, no account is overdrawn, and every balance is an `i64`.
  pub create_transfer-IsLedger :
      IsLedger w.db → IsLedger (create_transfer env retention client_id headers body w).1.db
  unfolding after
  create_transfer-IsLedger l = elim changes [
    | inl (o, r, p) ↦
        Performed-IsLedger env o _ after.db r p (record { unique = l.unique; solvent = l.solvent })
    | inr kept ↦ rw kept l
  ]

  -- Whatever the outcome of a request for a transfer, the balance of every account less what its
  -- entries add up to stays the same: the entries account for every change of a balance.
  pub create_transfer_reconciles :
      (id : Uuid)
      → opened_with id (create_transfer env retention client_id headers body w).1.db
        ≡ opened_with id w.db
  unfolding after
  create_transfer_reconciles id = elim changes [
    | inl (o, r, p) ↦ opened_with-Moves _ after.db p.transfer p.source p.destination p.moves id
    | inr kept ↦ ap (opened_with id) kept
  ]
