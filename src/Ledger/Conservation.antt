-- ===== src/Ledger/Conservation.antt =====
-- Money is conserved: what a transfer in one currency takes, it brings.
use high_performance_ledger.Prelude.{ℕ, ◌≡◌, sym, ◌∙◌, ap, Option, List, arith, inl, inr}
use high_performance_ledger.Prelude.Int.{ℤ, pos, ◌+ℤ◌, ◌-ℤ◌, +ℤ_parts, -ℤ_parts, eq_of_parts}
use high_performance_ledger.Prelude.Text.{Text, =t_refl}
use high_performance_ledger.Prelude.Result.{ok}
use high_performance_ledger.Database.{transfer, Database}
use high_performance_ledger.Database.Accounts.{UniqueIds}
use high_performance_ledger.Idempotency.{transfer_operation}
use high_performance_ledger.Tx.{Env, World, done}
use high_performance_ledger.Gate.{Response}
use high_performance_ledger.Transfers.Request.{CreateTransferRequest, operation_type, Preliminary}
use high_performance_ledger.Transfers.Spec.{Performed}
use high_performance_ledger.Transfers.Perform.{Order}
use high_performance_ledger.Transfers.Create.{create_transfer}
use high_performance_ledger.Transfers.Create.Sound.{IsOrder, create_transfer_sound}
use high_performance_ledger.Ledger.{total}
use high_performance_ledger.Ledger.Totals.{total-Moves}
use high_performance_ledger.Transfers.Spec.{kind_of}

back_again : (s a z x : ℤ) → z ≡ pos 0 → x ≡ a +ℤ z → (s -ℤ x) +ℤ a ≡ s
back_again s a z x h k = eq_of_parts _ _ (
    rw (k, h)
      (omega (arith, +ℤ_parts (s -ℤ (a +ℤ pos 0)) a, -ℤ_parts s (a +ℤ pos 0), +ℤ_parts a (pos 0))))

-- One currency makes a plain transfer.
plain :
    (p : Preliminary) (operation : Text)
    → operation_type p ≡ ok operation
    → p.source_currency ≡ p.destination_currency
    → kind_of operation ≡ transfer
unfolding operation_type
plain p operation h same =
    let again = =t_refl p.destination_currency in
    let chosen : operation ≡ transfer_operation = ground arith in rw chosen

Performed-conserves :
    (env : Env) (o : Order) (before after : Database) (r : Response) (c : Text)
    → Performed env o before after r
    → operation_type o.preliminary ≡ ok o.operation
    → o.preliminary.source_currency ≡ o.preliminary.destination_currency
    → UniqueIds before.accounts
    → total c after.accounts ≡ total c before.accounts
Performed-conserves env o before after r c p kind same u =
    let is_plain = p.kind ∙ plain o.preliminary o.operation kind same in
    let currencies : p.source.currency ≡ p.destination.currency =
      p.source_currency ∙ same ∙ sym p.destination_currency in
    let sum = total-Moves c before after p.transfer p.source p.destination u p.moves in
    let arrived = p.priced.exact is_plain in
    let back =
      back_again (total c before.accounts) p.transfer.source_amount_minor
        p.transfer.fee_amount_minor p.transfer.total_source_debit_minor (p.priced.free is_plain)
        p.priced.total in
    ground arith

-- The order that a request makes has one pair of currencies.
same_currency :
    {env : Env} {client_id : Text} {headers : List Text} {body : Option CreateTransferRequest}
    {db : Database} (o o' : Order)
    → IsOrder env client_id headers body db o
    → IsOrder env client_id headers body db o'
    → o.preliminary.source_currency ≡ o.preliminary.destination_currency
    → o'.preliminary.source_currency ≡ o'.preliminary.destination_currency
same_currency o o' h k same =
    let checks = h.checks in
    let checks' = k.checks in
    let one : o.checked ≡ o'.checked = cc in
    let reads = h.reads in
    let reads' = k.reads in let both : o.preliminary ≡ o'.preliminary = cc in rw (← both) same

-- A response to a request for a transfer between accounts of one currency leaves what the accounts
-- of every currency hold together as it was, if the ids of the accounts are distinct.
pub create_transfer_conserves :
    (env : Env) (retention : ℕ) (client_id : Text) (headers : List Text)
    (body : Option CreateTransferRequest) (w w' : World) (r : Response) (o : Order) (c : Text)
    → create_transfer env retention client_id headers body w ≡ (done r, w')
    → UniqueIds w.db.accounts
    → IsOrder env client_id headers body w.db o
    → o.preliminary.source_currency ≡ o.preliminary.destination_currency
    → total c w'.db.accounts ≡ total c w.db.accounts
create_transfer_conserves env retention client_id headers body w w' r o c h u order same =
    let (o', order', sound) = create_transfer_sound env retention client_id headers body w w' r h in
    elim sound [
      | inl x ↦
          Performed-conserves env o' _ w'.db r c x.performed order'.kind
            (same_currency o o' order order' same) u
      | inr x ↦ ap (λ db. total c db.accounts) x.unchanged
    ]
