-- ===== src/Reversals/Restores.antt =====
-- A reversal gives back what its transfer took.
use high_performance_ledger.Prelude.{ℕ, ◌≡◌, ◌⊎◌, refl, Option, none, some, List, arith, inl, inr}
use native.Mathlib.Decide.{ℕ_discrete}
use high_performance_ledger.Prelude.Int.{ℤ, ◌+ℤ◌, ◌-ℤ◌, +ℤ_parts, -ℤ_parts, eq_of_parts}
use high_performance_ledger.Prelude.Text.{Text}
use high_performance_ledger.Database.{Uuid, Account, Transfer, Database}
use high_performance_ledger.Database.Accounts.{find_account}
use high_performance_ledger.Transfers.Spec.{Moves}
use high_performance_ledger.Tx.{Env, World, done}
use high_performance_ledger.Gate.{Response}
use high_performance_ledger.Transfers.Perform.{Order}
use high_performance_ledger.Transfers.Create.Sound.{IsExecuted}
use high_performance_ledger.Reversals.{Undo, find_transfer, reverse_transfer}
use high_performance_ledger.Reversals.Spec.{Undoes}
use high_performance_ledger.Reversals.Sound.{IsUndo, IsRepeated, reverse_transfer_sound}

-- The balance of an account.
abbrev pub balance_of : Uuid → Database → Option ℤ
balance_of id db = elim (find_account id db.accounts) [
  | none ↦ none
  | some a ↦ some a.balance_minor
]

add_back : (s a : ℤ) → (s -ℤ a) +ℤ a ≡ s
add_back s a = eq_of_parts _ _ (omega (arith, +ℤ_parts (s -ℤ a) a, -ℤ_parts s a))

take_back : (s a : ℤ) → (s +ℤ a) -ℤ a ≡ s
take_back s a = eq_of_parts _ _ (omega (arith, -ℤ_parts (s +ℤ a) a, +ℤ_parts s a))

same_transfer : (o : Option Transfer) (a b : Transfer) → o ≡ some a → o ≡ some b → a ≡ b
same_transfer o a b h k = cc

module _ (before between later after : Database) (original_id : Uuid) (original t : Transfer)
    (source destination source' destination' : Account)
    (m : Moves before between original source destination)
    (n : Moves later after t source' destination') (undoes : Undoes original_id original t) where
  -- The payer gets back what the transfer took of it.
  paid_back :
      balance_of original.source_account_id later ≡ balance_of original.source_account_id between
      → balance_of original.source_account_id after ≡ balance_of original.source_account_id before
  paid_back h =
      let to = undoes.to in
      let returned = undoes.returned in
      let was = m.found_source in
      let taken = m.debited in
      let found = rw to at n.found_destination in
      let given = rw (to, returned) at n.credited in
      let back = add_back source.balance_minor original.total_source_debit_minor in ground arith

  -- The payee is left with what it had.
  taken_back :
      balance_of original.destination_account_id later
        ≡ balance_of original.destination_account_id between
      → balance_of original.destination_account_id after
        ≡ balance_of original.destination_account_id before
  taken_back h =
      let from = undoes.from in
      let taken = undoes.taken in
      let was = m.found_destination in
      let given = m.credited in
      let found = rw from at n.found_source in
      let left = rw (from, taken) at n.debited in
      let back = take_back destination.balance_minor original.destination_amount_minor in
      ground arith

  -- A transfer and then its reversal leave every balance as it was, if the balances were not changed
  -- in between.
  pub Undoes_restores :
      (id : Uuid)
      → ((k : Uuid) → balance_of k later ≡ balance_of k between)
      → balance_of id after ≡ balance_of id before
  Undoes_restores id h = elim (ℕ_discrete id original.source_account_id) [
    | yes s ↦ rw s (paid_back (h original.source_account_id))
    | no s ↦ elim (ℕ_discrete id original.destination_account_id) [
      | yes d ↦ rw d (taken_back (h original.destination_account_id))
      | no d ↦
          let from = undoes.from in
          let to = undoes.to in
          let first = m.others id s d in
          let second = n.others id (rw from d) (rw to s) in let same = h id in ground arith
    ]
  ]

-- A transfer that was just carried out is found by its id.
find-moved :
    (before after : Database) (t : Transfer) (source destination : Account)
    → Moves before after t source destination
    → find_transfer t.id after ≡ some t
find-moved before after t source destination m = rw m.recorded (ground arith)

-- A reversal of a transfer that was just carried out, which is answered with a response, leaves every
-- balance as it was before the transfer, or the response is the stored one of the same request, from
-- the record under its key and fingerprint, and no table is changed.
pub reverse_transfer_restores :
    (env env' : Env) (retention retention' : ℕ) (o : Order) (before : Database)
    (answer r : Response) (client_id : Text) (headers : List Text) (transfer_id : Text)
    (w w' : World) (x : IsExecuted env retention o before w.db answer)
    → env'.parse_uuid transfer_id ≡ some x.performed.transfer.id
    → reverse_transfer env' retention' client_id headers transfer_id w ≡ (done r, w')
    → (u : Undo) × IsUndo env' client_id headers transfer_id u
      × (((id : Uuid) → balance_of id w'.db ≡ balance_of id before)
          ⊎ IsRepeated env' u w.db w'.db r)
reverse_transfer_restores env env' retention retention' o before answer r client_id headers
      transfer_id w w' x parsed h =
    let (u, read, sound) =
      reverse_transfer_sound env' retention' client_id headers transfer_id w w' r h in
    let original = read.original in
    let same_id : x.performed.transfer.id ≡ u.original_id = ground arith in
    elim sound [
      | inr repeated ↦ (u, read, inr repeated)
      | inl y ↦
          let is : x.performed.transfer ≡ y.reversed.original =
            same_transfer _ _ _
              (find-moved _ w.db x.performed.transfer x.performed.source x.performed.destination
                x.performed.moves)
              (rw same_id y.reversed.found) in
          (
            u,
            read,
            inl λ id.
                Undoes_restores _ w.db _ w'.db u.original_id x.performed.transfer
                  y.reversed.transfer x.performed.source x.performed.destination y.reversed.source
                  y.reversed.destination x.performed.moves y.reversed.moves
                  (rw is y.reversed.undoes) id (λ k. refl),
          )
    ]
