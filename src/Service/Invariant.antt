-- ===== src/Service/Invariant.antt =====
-- What holds of the tables after any number of requests.
use high_performance_ledger.Prelude.{
  ℕ, ◌+◌, ◌≤◌, ◌≡◌, refl, sym, ◌∙◌, true, false, none, some, List, [], ◌∷◌, ◌==◌, arith, Bool-cases,
  inl, inr, Option, if◌then◌else◌,
}
use native.Mathlib.Decide.{ℕ_discrete}
use high_performance_ledger.Prelude.Int.{IsI64, ◌+ℤ◌, ◌-ℤ◌}
use high_performance_ledger.Database.{
  Uuid, Body, Account, Transfer, AccountEntry, IdempotencyRecord, Database, exists,
}
use high_performance_ledger.Database.Accounts.{
  find_account, with_balance, UniqueIds, set_balance-UniqueIds,
}
use high_performance_ledger.Database.Records.{transfer_allowed, opt_eq, reverses}
use high_performance_ledger.Idempotency.{in_scope, with_result, reservation}
use high_performance_ledger.Gate.Safe.{AllComplete}
use high_performance_ledger.Transfers.Spec.{Moves, debit_of, credit_of}
use high_performance_ledger.Ledger.Invariant.{same_account}
use high_performance_ledger.Service.{serve, Step, request, Reach, start, then'}
use high_performance_ledger.Service.Change.{IsRecorded, Change, stays, opens, moves, serve-Change}

-- Double entry: each transfer, newest first, is one that the constraints of its table allow on top of
-- the older ones, and has its debit and its credit at the same place of the journal.
pub data IsBooked : List Transfer → List AccountEntry → Type 0 where
  nothing : IsBooked [] []
  book :
      (t : Transfer) (i j : Uuid) (ts : List Transfer) (es : List AccountEntry)
      → transfer_allowed t ts ≡ true
      → IsBooked ts es
      → IsBooked (t ∷ ts) (credit_of j t ∷ debit_of i t ∷ es)

-- Every balance is an `i64`.
abbrev pub AllFit : List Account → Type 0
AllFit accounts =
    (id : Uuid) (a : Account) → find_account id accounts ≡ some a → IsI64 a.balance_minor

pub record IsConsistent (db : Database) : Type 0 where
  pub unique : UniqueIds db.accounts
  pub fit : AllFit db.accounts
  pub booked : IsBooked db.transfers db.account_entries
  pub complete : AllComplete db.idempotency_records

Moves-AllFit :
    (before after : Database) (t : Transfer) (source destination : Account)
    → Moves before after t source destination
    → AllFit before.accounts
    → AllFit after.accounts
Moves-AllFit before after t source destination m h id a found =
    elim (ℕ_discrete id t.source_account_id) [
      | yes s ↦
          let is =
            same_account _ a
              (with_balance (source.balance_minor -ℤ t.total_source_debit_minor) source) found
              (rw s m.debited) in
          let fits = m.debit_fits in rw is fits
      | no s ↦ elim (ℕ_discrete id t.destination_account_id) [
        | yes d ↦
            let is =
              same_account _ a
                (with_balance (destination.balance_minor +ℤ t.destination_amount_minor) destination)
                found (rw d m.credited) in
            let fits = m.credit_fits in rw is fits
        | no d ↦ h id a (sym (m.others id s d) ∙ found)
      ]
    ]

AllFit-opened :
    (a : Account) (xs : List Account) → IsI64 a.balance_minor → AllFit xs → AllFit (a ∷ xs)
AllFit-opened a xs fits h id b found = elim (Bool-cases (a.id == id)) [
  | inl here ↦ (let same : a ≡ b = ground arith in rw (← same) fits)
  | inr other ↦ h id b (ground arith)
]

AllComplete-cons :
    (r : IdempotencyRecord) (x : ℕ × Body × Uuid) (xs : List IdempotencyRecord)
    → r.result ≡ some x
    → AllComplete xs
    → AllComplete (r ∷ xs)
AllComplete-cons r x xs has h s k found = elim (Bool-cases (in_scope s r)) [
  | inl here ↦ (let same : r ≡ k = ground arith in (x, rw (← same) has))
  | inr other ↦ h s k (ground arith)
]

IsRecorded-AllComplete :
    (before after : Database)
    → IsRecorded before after
    → AllComplete before.idempotency_records
    → AllComplete after.idempotency_records
IsRecorded-AllComplete before after r h = rw r.kept (
    AllComplete-cons
      (with_result r.response.status r.response.body r.id
        (reservation r.env r.scope r.fingerprint r.retention))
      (r.response.status, r.response.body, r.id) before.idempotency_records refl h)

Change-IsConsistent :
    (before after : Database) → Change before after → IsConsistent before → IsConsistent after
Change-IsConsistent before after (stays same) c = rw same c
Change-IsConsistent before after (opens a o recorded) c = record {
  unique = rw o.added (o.new_id, c.unique);
  fit = rw o.added (AllFit-opened a before.accounts o.balance.1 c.fit);
  booked = rw (o.same_transfers, o.same_entries) c.booked;
  complete = IsRecorded-AllComplete before after recorded c.complete;
}
Change-IsConsistent before after (moves t source destination m _ recorded) c = record {
  unique =
      rw m.rewritten
        (set_balance-UniqueIds _ _ _ (set_balance-UniqueIds _ _ before.accounts c.unique));
  fit = Moves-AllFit before after t source destination m c.fit;
  booked =
      rw (m.recorded, m.entered)
        (book t m.debit_id m.credit_id before.transfers before.account_entries m.allowed c.booked);
  complete = IsRecorded-AllComplete before after recorded c.complete;
}

Step-IsConsistent :
    {before after : Database} → Step before after → IsConsistent before → IsConsistent after
Step-IsConsistent (request q w) c = Change-IsConsistent w.db (serve q w).1.db (serve-Change q w) c

-- Consistent tables stay consistent, whatever requests come in and however they end: the ids of the
-- accounts are distinct and their balances fit into an `i64`; the entries are the debits and credits
-- of the transfers, one of each; and every idempotency record has its result.
pub Reach-IsConsistent :
    {before after : Database} → Reach before after → IsConsistent before → IsConsistent after
Reach-IsConsistent start c = c
Reach-IsConsistent (then' r s) c = Step-IsConsistent s (Reach-IsConsistent r c)

-- The number of transfers that reverse a given one.
unfoldable pub reversals_of : Uuid → List Transfer → ℕ
reversals_of id [] = 0
reversals_of id (t ∷ ts) = (if reverses id t then 1 else 0) + reversals_of id ts

reversals_of-none :
    (id : Uuid) (ts : List Transfer) → exists (reverses id) ts ≡ false → reversals_of id ts ≡ 0
unfolding reversals_of
reversals_of-none id [] h = refl
reversals_of-none id (t ∷ ts) h = ground (arith, reversals_of-none id ts)

reverses-some : (o : Option Uuid) (id : Uuid) → opt_eq o id ≡ true → o ≡ some id
reverses-some none id h = ground arith
reverses-some (some a) id h = ground arith

IsBooked-once :
    (id : Uuid) {ts : List Transfer} {es : List AccountEntry}
    → IsBooked ts es
    → reversals_of id ts ≤ 1
unfolding reversals_of
IsBooked-once id nothing = omega arith
IsBooked-once id (book t i j ts es allowed b) = elim (Bool-cases (reverses id t)) [
  | inr other ↦ ground (arith, IsBooked-once id b)
  | inl here ↦
      let is = reverses-some t.reverses_transfer_id id here in
      ground (arith, reversals_of-none id ts)
]

-- From consistent tables on, no transfer is ever reversed more than once, however many requests for
-- its reversal are made, under whatever keys.
pub reversed_once :
    {before after : Database} (id : Uuid)
    → IsConsistent before
    → Reach before after
    → reversals_of id after.transfers ≤ 1
reversed_once {after = after} id c r = IsBooked-once id (Reach-IsConsistent r c).booked
