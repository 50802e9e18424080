-- ===== src/Transfers/Record/Effect.antt =====
-- What the statements of `record_transfer` write.
use high_performance_ledger.Prelude.{ℕ, ◌+◌, ◌≡◌, true, ◌∷◌, arith}
use high_performance_ledger.Database.{Uuid, Database}
use high_performance_ledger.Database.Accounts.{set_balance}
use high_performance_ledger.Database.Records.{insert_transfer, insert_entry, transfer_allowed}
use high_performance_ledger.Tx.{Env, World, done}
use high_performance_ledger.Transfers.Record.{
  Plan, transfer_row, debit_entry, credit_entry, record_transfer,
}

-- The tables after a recorded transfer, and before its result is stored.
abbrev pub recorded : Env → Plan → Uuid → Uuid → Uuid → Database → Database
recorded env p id i j db = record db {
  accounts =
      set_balance p.destination_id p.destination_balance
        (set_balance p.source_id p.source_balance db.accounts);
  transfers = transfer_row env p id ∷ db.transfers;
  account_entries = credit_entry env p j id ∷ debit_entry env p i id ∷ db.account_entries;
}

-- The ids that are drawn for the transfer and its two entries.
abbrev pub drawn : Env → World → ℕ → Uuid
drawn env w n = env.new_v4 (w.calls + n)

pub record_transfer_effect :
    (env : Env) (p : Plan) (w w' : World) (id : Uuid)
    → record_transfer env p w ≡ (done id, w')
    → (w'.db ≡ recorded env p id (drawn env w 4) (drawn env w 6) w.db)
      × (transfer_allowed (transfer_row env p id) w.db.transfers ≡ true)
      × (w'.counted ≡ w.counted)
unfolding record_transfer insert_transfer insert_entry
record_transfer_effect env p w w' id h = ground arith
