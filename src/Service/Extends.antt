-- ===== src/Service/Extends.antt =====
-- What no request takes back: accounts, transfers, entries, and the results of requests.
use high_performance_ledger.Prelude.{
  ◌≤◌, ◌≡◌, refl, sym, ◌∙◌, ap, none, some, List, [], ◌∷◌, ◌++◌, append_assoc, ◌==◌, arith, inl,
  inr, Bool-cases, Option-cases,
}
use native.Mathlib.Decide.{ℕ_discrete}
use high_performance_ledger.Prelude.Int.{ℤ, ◌+ℤ◌, ◌-ℤ◌}
use high_performance_ledger.Prelude.Text.{=t_sound}
use high_performance_ledger.Database.{
  Uuid, Account, Transfer, AccountEntry, IdempotencyRecord, Database,
}
use high_performance_ledger.Database.Accounts.{find_account, with_balance}
use high_performance_ledger.Idempotency.{Scope, in_scope, find_record, with_result, reservation}
use high_performance_ledger.Transfers.Spec.{Moves, debit_of, credit_of}
use high_performance_ledger.Ledger.{opened_with}
use high_performance_ledger.Ledger.Entries.{opened_with-Moves}
use high_performance_ledger.Ledger.Invariant.{same_account}
use high_performance_ledger.Service.{serve, Step, request, Reach, start, then'}
use high_performance_ledger.Service.Change.{
  IsRecorded, Opens, Change, stays, opens, moves, serve-Change,
}

-- The same account, which may have another balance and a higher version.
pub record SameAccount (a b : Account) : Type 0 where
  pub owner : b.owner_id ≡ a.owner_id
  pub currency : b.currency ≡ a.currency
  pub scale : b.currency_scale ≡ a.currency_scale
  pub status : b.status ≡ a.status
  pub newer : a.version ≤ b.version

-- The second tables keep what the first have.
pub record Extends (before after : Database) : Type 0 where
  pub accounts :
      (id : Uuid) (a : Account)
      → find_account id before.accounts ≡ some a
      → (b : Account) × (find_account id after.accounts ≡ some b) × SameAccount a b
  pub opened :
      (id : Uuid) (balance : ℤ)
      → opened_with id before ≡ some balance
      → opened_with id after ≡ some balance
  pub transfers : (news : List Transfer) × (after.transfers ≡ news ++ before.transfers)
  pub entries :
      (news : List AccountEntry) × (after.account_entries ≡ news ++ before.account_entries)
  pub results :
      (s : Scope) (k : IdempotencyRecord)
      → find_record s before.idempotency_records ≡ some k
      → find_record s after.idempotency_records ≡ some k

SameAccount-refl : (a : Account) → SameAccount a a
SameAccount-refl a = record {
  owner = refl;
  currency = refl;
  scale = refl;
  status = refl;
  newer = omega arith;
}

SameAccount-trans : (a b c : Account) → SameAccount a b → SameAccount b c → SameAccount a c
SameAccount-trans a b c h k =
    let newer = h.newer in
    let newest = k.newer in
    record {
      owner = k.owner ∙ h.owner;
      currency = k.currency ∙ h.currency;
      scale = k.scale ∙ h.scale;
      status = k.status ∙ h.status;
      newer = omega arith;
    }

SameAccount-with_balance : (balance : ℤ) (a : Account) → SameAccount a (with_balance balance a)
SameAccount-with_balance balance a = record {
  owner = refl;
  currency = refl;
  scale = refl;
  status = refl;
  newer = omega arith;
}

++_join :
    {A : Type 0} (xs ys zs new newer : List A)
    → ys ≡ new ++ xs
    → zs ≡ newer ++ ys
    → zs ≡ (newer ++ new) ++ xs
++_join xs ys zs new newer h k = k ∙ ap (λ l. newer ++ l) h ∙ sym (append_assoc newer new xs)

Extends-refl : (db : Database) → Extends db db
Extends-refl db = record {
  accounts = λ id a found. (a, found, SameAccount-refl a);
  opened = λ id balance h. h;
  transfers = ([], refl);
  entries = ([], refl);
  results = λ s k h. h;
}

Extends-trans :
    (before between after : Database)
    → Extends before between
    → Extends between after
    → Extends before after
Extends-trans before between after h k = record {
  accounts = λ id a found.
      let (b, found', same) = h.accounts id a found in
      let (c, found'', same') = k.accounts id b found' in
      (c, found'', SameAccount-trans a b c same same');
  opened = λ id balance o. k.opened id balance (h.opened id balance o);
  transfers = (
    k.transfers.0 ++ h.transfers.0,
    ++_join _ _ _ h.transfers.0 k.transfers.0 h.transfers.1 k.transfers.1,
  );
  entries =
      (k.entries.0 ++ h.entries.0, ++_join _ _ _ h.entries.0 k.entries.0 h.entries.1 k.entries.1);
  results = λ s r found. k.results s r (h.results s r found);
}

-- Two scopes of which one has a record differ.
in_other_scope :
    (s t : Scope) (r k : IdempotencyRecord) (xs : List IdempotencyRecord)
    → r.client_id ≡ t.client_id
    → r.operation_type ≡ t.operation_type
    → r.idempotency_key ≡ t.key
    → find_record t xs ≡ none
    → find_record s xs ≡ some k
    → find_record s (r ∷ xs) ≡ some k
in_other_scope s t r k xs client operation key h found = elim (Bool-cases (in_scope s r)) [
  | inr other ↦ ground arith
  | inl here ↦
      let c = =t_sound r.client_id s.client_id in
      let o = =t_sound r.operation_type s.operation_type in
      let y = =t_sound r.idempotency_key s.key in
      let same : s ≡ t = ground arith in
      let none' : find_record s xs ≡ none = rw same h in ground arith
]

IsRecorded-results :
    (before after : Database) (s : Scope) (k : IdempotencyRecord)
    → IsRecorded before after
    → find_record s before.idempotency_records ≡ some k
    → find_record s after.idempotency_records ≡ some k
IsRecorded-results before after s k h found = rw h.kept (
    in_other_scope s h.scope
      (with_result h.response.status h.response.body h.id
        (reservation h.env h.scope h.fingerprint h.retention))
      k before.idempotency_records refl refl refl h.new_key found)

find_old :
    (id : Uuid) (a b : Account) (xs : List Account)
    → find_account a.id xs ≡ none
    → find_account id xs ≡ some b
    → find_account id (a ∷ xs) ≡ some b
find_old id a b xs h found = elim (Bool-cases (a.id == id)) [
  | inl here ↦ ground arith
  | inr other ↦ ground arith
]

module _ (before after : Database) (recorded : IsRecorded before after) where
  module _ (t : Transfer) (source destination : Account)
      (m : Moves before after t source destination) where
    Moves-accounts :
        (id : Uuid) (a : Account)
        → find_account id before.accounts ≡ some a
        → (b : Account) × (find_account id after.accounts ≡ some b) × SameAccount a b
    Moves-accounts id a found = elim (ℕ_discrete id t.source_account_id) [
      | yes s ↦
          let is : source ≡ a = same_account _ source a (rw s m.found_source) found in
          (
            with_balance (source.balance_minor -ℤ t.total_source_debit_minor) source,
            rw s m.debited,
            rw (← is) (SameAccount-with_balance _ source),
          )
      | no s ↦ elim (ℕ_discrete id t.destination_account_id) [
        | yes d ↦
            let is : destination ≡ a =
              same_account _ destination a (rw d m.found_destination) found in
            (
              with_balance (destination.balance_minor +ℤ t.destination_amount_minor) destination,
              rw d m.credited,
              rw (← is) (SameAccount-with_balance _ destination),
            )
        | no d ↦ (a, m.others id s d ∙ found, SameAccount-refl a)
      ]
    ]

    Moves-Extends : Extends before after
    Moves-Extends = record {
      accounts = Moves-accounts;
      opened = λ id balance h. opened_with-Moves before after t source destination m id ∙ h;
      transfers = (t ∷ [], m.recorded);
      entries = (credit_of m.credit_id t ∷ debit_of m.debit_id t ∷ [], m.entered);
      results = λ s k. IsRecorded-results before after s k recorded;
    }

  module _ (a : Account) (o : Opens before after a) where
    Opens-opened :
        (id : Uuid) (balance : ℤ)
        → opened_with id before ≡ some balance
        → opened_with id after ≡ some balance
    Opens-opened id balance h = elim (Option-cases (find_account id before.accounts)) [
      | inl missing ↦ ground arith
      | inr (b, found) ↦
          rw (o.added, find_old id a b before.accounts o.new_id found, o.same_entries)
            (rw found at h)
    ]

    Opens-Extends : Extends before after
    Opens-Extends = record {
      accounts = λ id b found.
          (b, rw o.added (find_old id a b before.accounts o.new_id found), SameAccount-refl b);
      opened = Opens-opened;
      transfers = ([], o.same_transfers);
      entries = ([], o.same_entries);
      results = λ s k. IsRecorded-results before after s k recorded;
    }

Change-Extends : (before after : Database) → Change before after → Extends before after
Change-Extends before after (stays same) = rw same (Extends-refl before)
Change-Extends before after (opens a o recorded) = Opens-Extends before after recorded a o
Change-Extends before after (moves t source destination m _ recorded) =
    Moves-Extends before after recorded t source destination m

Step-Extends : {before after : Database} → Step before after → Extends before after
Step-Extends (request q w) = Change-Extends w.db (serve q w).1.db (serve-Change q w)

-- Any number of requests, with any outcomes, keeps what was there: every account with its owner, its
-- currency and its status, and the balance it was opened with, which is its balance less its entries;
-- every transfer and every entry, in their order; and every idempotency record.
pub Reach-Extends : {before after : Database} → Reach before after → Extends before after
Reach-Extends start = Extends-refl _
Reach-Extends (then' r s) = Extends-trans _ _ _ (Reach-Extends r) (Step-Extends s)
