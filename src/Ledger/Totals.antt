-- ===== src/Ledger/Totals.antt =====
-- What the accounts of a currency hold together.
use high_performance_ledger.Prelude.{
  ◌≡◌, refl, sym, ◌∙◌, none, some, List, [], ◌∷◌, arith, ◌==◌, Bool-cases, inl, inr, if◌then◌else◌,
}
use high_performance_ledger.Prelude.Int.{ℤ, ◌+ℤ◌, ◌-ℤ◌, eq_of_parts, +ℤ_parts, -ℤ_parts}
use high_performance_ledger.Prelude.Text.{Text, ◌=t◌}
use high_performance_ledger.Database.{Uuid, Account, Transfer, Database}
use high_performance_ledger.Database.Accounts.{
  find_account, set_balance, UniqueIds, set_balance-UniqueIds, find-set_balance_ne,
}
use high_performance_ledger.Transfers.Spec.{Moves}
use high_performance_ledger.Ledger.{total}

-- A sum in which one balance is replaced.
replace_head : (s a b : ℤ) → s +ℤ b ≡ (s +ℤ a) +ℤ (b -ℤ a)
replace_head s a b =
    eq_of_parts _ _
      (omega (arith, +ℤ_parts s b, +ℤ_parts (s +ℤ a) (b -ℤ a), +ℤ_parts s a, -ℤ_parts b a))

swap_last : (s a b : ℤ) → (s +ℤ a) +ℤ b ≡ (s +ℤ b) +ℤ a
swap_last s a b =
    eq_of_parts _ _
      (omega (arith, +ℤ_parts (s +ℤ a) b, +ℤ_parts (s +ℤ b) a, +ℤ_parts s a, +ℤ_parts s b))

-- No account has the id.
set_balance_none :
    (i : Uuid) (b : ℤ) (xs : List Account) → find_account i xs ≡ none → set_balance i b xs ≡ xs
set_balance_none i b [] h = refl
set_balance_none i b (x ∷ xs) h = ground (arith, set_balance_none i b xs)

-- The total changes as the balance of the one account does.
total-set_balance :
    (c : Text) (i : Uuid) (b : ℤ) (xs : List Account) (a : Account)
    → UniqueIds xs
    → find_account i xs ≡ some a
    → total c (set_balance i b xs)
      ≡ (if a.currency =t c then total c xs +ℤ (b -ℤ a.balance_minor) else total c xs)
unfolding total
total-set_balance c i b [] a u h = cc
total-set_balance c i b (x ∷ xs) a u h = elim (Bool-cases (x.id == i)) [
  | inl here ↦ ground (arith, set_balance_none i b xs, replace_head (total c xs) x.balance_minor b)
  | inr later ↦ ground (
    arith,
    total-set_balance c i b xs a u.1,
    swap_last (total c xs) x.balance_minor (b -ℤ a.balance_minor),
  )
]

take_away : (s a d : ℤ) → s +ℤ ((a -ℤ d) -ℤ a) ≡ s -ℤ d
take_away s a d =
    eq_of_parts _ _
      (omega (arith, +ℤ_parts s ((a -ℤ d) -ℤ a), -ℤ_parts (a -ℤ d) a, -ℤ_parts a d, -ℤ_parts s d))

put_in : (s a d : ℤ) → s +ℤ ((a +ℤ d) -ℤ a) ≡ s +ℤ d
put_in s a d =
    eq_of_parts _ _
      (omega (arith, +ℤ_parts s ((a +ℤ d) -ℤ a), -ℤ_parts (a +ℤ d) a, +ℤ_parts a d, +ℤ_parts s d))

-- What a transfer takes out of a currency, and what it brings in.
abbrev pub leaves : Text → Account → Transfer → ℤ → ℤ
leaves c source t sum = if source.currency =t c then sum -ℤ t.total_source_debit_minor else sum

abbrev pub arrives : Text → Account → Transfer → ℤ → ℤ
arrives c destination t sum =
    if destination.currency =t c then sum +ℤ t.destination_amount_minor else sum

pub total-Moves :
    (c : Text) (before after : Database) (t : Transfer) (source destination : Account)
    → UniqueIds before.accounts
    → Moves before after t source destination
    → total c after.accounts ≡ arrives c destination t (leaves c source t (total c before.accounts))
total-Moves c before after t source destination u m =
    let debited =
      set_balance t.source_account_id (source.balance_minor -ℤ t.total_source_debit_minor)
        before.accounts in
    let fd =
      find-set_balance_ne t.source_account_id t.destination_account_id
        (source.balance_minor -ℤ t.total_source_debit_minor) before.accounts
        (λ e. m.distinct (sym e))
      ∙ m.found_destination in
    rw (
      m.rewritten,
      total-set_balance c t.destination_account_id
          (destination.balance_minor +ℤ t.destination_amount_minor) debited destination
          (set_balance-UniqueIds t.source_account_id _ before.accounts u) fd,
      total-set_balance c t.source_account_id (source.balance_minor -ℤ t.total_source_debit_minor)
          before.accounts source u m.found_source,
      take_away (total c before.accounts) source.balance_minor t.total_source_debit_minor,
      put_in (leaves c source t (total c before.accounts)) destination.balance_minor
          t.destination_amount_minor,
    )
