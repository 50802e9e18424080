-- ===== src/Reversals/Spec.antt =====
-- What a reversal that is carried out does.
use high_performance_ledger.Prelude.{◌≡◌, ◌≢◌, false, some}
use high_performance_ledger.Database.{Uuid, Account, active, Transfer, reversal, Database, exists}
use high_performance_ledger.Database.Records.{reverses}
use high_performance_ledger.Idempotency.{complete_records}
use high_performance_ledger.Gate.{Response}
use high_performance_ledger.Transfers.Spec.{Moves}
use high_performance_ledger.Reversals.{Undo, find_transfer}

-- The transfer `t` takes back what the original brought, and gives back what it cost.
pub record Undoes (original_id : Uuid) (original t : Transfer) : Type 0 where
  pub from : t.source_account_id ≡ original.destination_account_id
  pub to : t.destination_account_id ≡ original.source_account_id
  pub taken : t.total_source_debit_minor ≡ original.destination_amount_minor
  pub returned : t.destination_amount_minor ≡ original.total_source_debit_minor
  pub kind : t.kind ≡ reversal
  pub reverses : t.reverses_transfer_id ≡ some original_id

-- What it means that a request for a reversal was carried out with the answer `r`, which the
-- idempotency record of the request keeps.
pub record Reversed (u : Undo) (before after : Database) (r : Response) : Type 0 where
  pub original : Transfer
  pub transfer : Transfer
  pub source : Account
  pub destination : Account
  pub found : find_transfer u.original_id before ≡ some original
  pub forward : original.kind ≢ reversal
  pub once : exists (reverses u.original_id) before.transfers ≡ false
  pub undoes : Undoes u.original_id original transfer
  pub moves : Moves before after transfer source destination
  pub owned : source.owner_id ≡ u.client_id
  pub source_active : source.status ≡ active
  pub destination_active : destination.status ≡ active
  pub initiated : transfer.initiated_by ≡ u.client_id
  pub created : r.status ≡ 201
  pub kept :
      after.idempotency_records
      ≡ complete_records u.scope 201 r.body transfer.id before.idempotency_records
