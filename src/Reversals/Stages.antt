-- ===== src/Reversals/Stages.antt =====
-- What the single steps of `perform_reversal` have done when they succeed.
use high_performance_ledger.Prelude.{
  ◌+◌, ◌≡◌, ◌≢◌, ◌∙◌, true, false, some, ◌∷◌, arith, inl, inr, Option-cases,
}
use high_performance_ledger.Prelude.Int.{ℤ, ◌+ℤ◌, ◌-ℤ◌, IsI64}
use high_performance_ledger.Prelude.Text.{=t_sound}
use high_performance_ledger.Prelude.Result.{ok}
use high_performance_ledger.Database.{Uuid, Database, Transfer, reversal, active, exists}
use high_performance_ledger.Database.Accounts.{set_balance}
use high_performance_ledger.Database.Records.{
  reverses, transfer_allowed, insert_transfer, insert_entry,
}
use high_performance_ledger.Idempotency.{complete_records, store_success}
use high_performance_ledger.Tx.{Env, World, done}
use high_performance_ledger.Tx.Laws.{>>=-done}
use high_performance_ledger.Gate.{Response}
use high_performance_ledger.Transfers.Price.{Pair}
use high_performance_ledger.Transfers.Record.{update_balance, insert_entry_row}
use high_performance_ledger.Reversals.{
  Undo, find_owner, check_original, check_accounts, restored_balances, reversal_row, reversal_debit,
  reversal_credit, record_reversal, answer_reversal, with_balances,
}

-- What the statements of `record_reversal` write.
abbrev pub recorded_reversal :
    Env → Undo → Transfer → ℤ × ℤ → Uuid → Uuid → Uuid → Database → Database
recorded_reversal env u original balances id i j db = record db {
  accounts =
      set_balance original.source_account_id balances.1
        (set_balance original.destination_account_id balances.0 db.accounts);
  transfers = reversal_row env u original id ∷ db.transfers;
  account_entries =
      reversal_credit env original j id ∷ reversal_debit env original i id ∷ db.account_entries;
}

record_reversal-done :
    (env : Env) (u : Undo) (original : Transfer) (balances : ℤ × ℤ) (w w' : World) (id : Uuid)
    → record_reversal env u original balances w ≡ (done id, w')
    → (w'.db
        ≡ recorded_reversal env u original balances id
            (env.new_v4 (w.calls + 4))
            (env.new_v4 (w.calls + 6))
            w.db)
      × (transfer_allowed (reversal_row env u original id) w.db.transfers ≡ true)
      × (w'.counted ≡ w.counted)
unfolding record_reversal insert_transfer insert_entry update_balance insert_entry_row
record_reversal-done env u original (s, d) w w' id h = ground arith

pub check_original-done :
    (env : Env) (u : Undo) (original : Transfer) (w w' : World)
    → check_original env u original w ≡ (done tt, w')
    → (original.kind ≢ reversal)
      × (find_owner original.destination_account_id w.db ≡ some u.client_id)
      × (exists (reverses u.original_id) w.db.transfers ≡ false)
      × (w'.db ≡ w.db)
      × (w'.counted ≡ w.counted)
unfolding check_original
check_original-done env u original w w' h =
    elim (Option-cases (find_owner original.destination_account_id w.db)) [
      | inl missing ↦ ground arith
      | inr (owner, found) ↦
          let same = =t_sound owner u.client_id in
          (ground arith, ground arith, ground arith, ground arith, ground arith)
    ]

pub check_accounts_ok :
    (original : Transfer) (a : Pair)
    → check_accounts original a ≡ ok tt
    → (a.source.status ≡ active)
      × (a.destination.status ≡ active)
      × (a.source.currency ≡ original.destination_currency)
      × (a.destination.currency ≡ original.source_currency)
unfolding check_accounts
check_accounts_ok original a h = ground (
  arith,
  =t_sound a.source.currency original.destination_currency,
  =t_sound a.destination.currency original.source_currency,
)

pub restored_balances_ok :
    (original : Transfer) (a : Pair) (balances : ℤ × ℤ)
    → restored_balances original a ≡ ok balances
    → (balances.0 ≡ a.source.balance_minor -ℤ original.destination_amount_minor)
      × (balances.1 ≡ a.destination.balance_minor +ℤ original.total_source_debit_minor)
      × IsI64 balances.0
      × IsI64 balances.1
unfolding restored_balances
restored_balances_ok original a balances h = ground arith

answer_reversal-done :
    (env : Env) (u : Undo) (original : Transfer) (a : Pair) (balances : ℤ × ℤ) (id : Uuid)
    (w w' : World) (r : Response)
    → answer_reversal env u original a balances id w ≡ (done r, w')
    → (w'.db ≡ record w.db {
      idempotency_records = complete_records u.scope 201 r.body id w.db.idempotency_records;
    })
      × (r.status ≡ 201)
      × (w'.counted ≡ w.counted)
unfolding answer_reversal store_success
answer_reversal-done env u original a balances id w w' r h = ground arith

-- The effect of balances that are set.
pub with_balances-done :
    (env : Env) (u : Undo) (original : Transfer) (a : Pair) (balances : ℤ × ℤ) (w w' : World)
    (r : Response)
    → with_balances env u original a balances w ≡ (done r, w')
    → (id : Uuid) × (i : Uuid) × (j : Uuid) × (w'.db
        ≡ record (recorded_reversal env u original balances id i j w.db) {
          idempotency_records = complete_records u.scope 201 r.body id w.db.idempotency_records;
        })
      × (transfer_allowed (reversal_row env u original id) w.db.transfers ≡ true)
      × (r.status ≡ 201)
      × (w'.counted ≡ w.counted)
unfolding with_balances
with_balances-done env u original a balances w w' r h =
    let (id, v, e, k) =
      >>=-done (record_reversal env u original balances) (answer_reversal env u original a balances)
        w h in
    let (db, allowed, counted) = record_reversal-done env u original balances w v id e in
    let (written, status, same) = answer_reversal-done env u original a balances id v w' r k in
    (
      id,
      env.new_v4 (w.calls + 4),
      env.new_v4 (w.calls + 6),
      rw (written, db),
      allowed,
      status,
      same ∙ counted,
    )
