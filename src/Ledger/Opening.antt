-- ===== src/Ledger/Opening.antt =====
-- The opening of an account keeps the ledger.
use high_performance_ledger.Prelude.{
  ℕ, ◌≡◌, Option, none, some, List, ◌∷◌, arith, inl, inr, Option-cases, Bool-cases, ◌==◌,
}
use high_performance_ledger.Prelude.Int.{ℤ, pos, ◌≤ℤ◌, IsI64}
use high_performance_ledger.Prelude.Text.{Text}
use high_performance_ledger.Prelude.Result.{ok}
use high_performance_ledger.Money.{currency, parse_initial_balance}
use high_performance_ledger.Money.Parse.{parse_sound}
use high_performance_ledger.Money.Format.{parse_initial_balance_iff}
use high_performance_ledger.Database.{Account}
use high_performance_ledger.Tx.{Env, World}
use high_performance_ledger.Accounts.{
  CreateAccountRequest, Opening, check_account, opened_account, create_account,
}
use high_performance_ledger.Accounts.Effect.{create_account_changes}
use high_performance_ledger.Ledger.Invariant.{IsSolvent, IsLedger}

opening_balance :
    (input : Text) (scale : ℕ) (balance : ℤ)
    → parse_initial_balance input scale ≡ ok balance
    → (pos 0 ≤ℤ balance) × IsI64 balance
opening_balance input scale balance h =
    let (reads, positive) = (parse_initial_balance_iff input scale balance).0 h in
    let (_, _, _, _, _, _, _, fits) = parse_sound input scale balance reads in (positive, fits)

-- The balance of an account that is opened is not negative and in range.
pub check_account-balance :
    (env : Env) (headers : List Text) (body : Option CreateAccountRequest) (o : Opening)
    → check_account env headers body ≡ ok o
    → (pos 0 ≤ℤ o.balance_minor) × IsI64 o.balance_minor
unfolding check_account
check_account-balance env headers none o h = ground arith
check_account-balance env headers (some request) o h =
    elim (Option-cases (currency request.currency)) [
      | inl missing ↦ ground arith
      | inr (c, found) ↦
          opening_balance request.initial_balance c.scale o.balance_minor (ground arith)
    ]

IsSolvent-opened :
    (a : Account) (xs : List Account)
    → (pos 0 ≤ℤ a.balance_minor) × IsI64 a.balance_minor
    → IsSolvent xs
    → IsSolvent (a ∷ xs)
IsSolvent-opened a xs fits h id b found = elim (Bool-cases (a.id == id)) [
  | inl here ↦ (let same : a ≡ b = ground arith in rw (← same) fits)
  | inr other ↦ h id b (ground arith)
]

-- A request to open an account keeps the ledger well formed, whatever its outcome: the ids of the
-- accounts are distinct, no account is overdrawn, and every balance is an `i64`.
pub create_account-IsLedger :
    (env : Env) (retention : ℕ) (client_id : Text) (headers : List Text)
    (body : Option CreateAccountRequest) (w : World)
    → IsLedger w.db
    → IsLedger (create_account env retention client_id headers body w).1.db
create_account-IsLedger env retention client_id headers body w l =
    elim (create_account_changes env retention client_id headers body w) [
      | inl same ↦ rw same l
      | inr (o, id, checks, fresh, _, tables) ↦ rw tables (record {
        unique = (fresh, l.unique);
        solvent =
            IsSolvent-opened (opened_account client_id o id) w.db.accounts
              (check_account-balance env headers body o checks) l.solvent;
      })
    ]
