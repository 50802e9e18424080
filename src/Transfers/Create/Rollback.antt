-- ===== src/Transfers/Create/Rollback.antt =====
-- What `create_transfer` leaves when it does not answer with a response.
use high_performance_ledger.Prelude.{
  ℕ, ◌≡◌, ◌≢◌, ◌⊎◌, true, Option, List, arith, inl, inr, Option-cases, Bool-cases, suc, refl, ap,
  ◌∙◌, some,
}
use high_performance_ledger.Prelude.Text.{Text}
use high_performance_ledger.Prelude.Result.{ok, Result-cases}
use high_performance_ledger.Tx.{Env, unacknowledged, World, done, tick}
use high_performance_ledger.Gate.{Response, transaction}
use high_performance_ledger.Transfers.Perform.{Order}
use high_performance_ledger.Transfers.Create.Sound.{IsOrder, IsExecuted, block_sound}
use high_performance_ledger.Gate.Atomic.{transaction_kept, transaction_atomic, is_done}
use high_performance_ledger.Transfers.Request.{
  CreateTransferRequest, Checked, Preliminary, check_request, read_preliminary, operation_type,
}
use high_performance_ledger.Transfers.Create.{
  order_of, transfer_block, operation_of, create_transfer,
}

-- A request that is not answered with a response, for an error or a panic at any point, leaves the
-- tables as they were, unless the answer to its COMMIT was lost.
pub create_transfer_atomic :
    (env : Env) (retention : ℕ) (client_id : Text) (headers : List Text)
    (body : Option CreateTransferRequest) (w : World)
    → env.commit ≢ unacknowledged
    → (is_done (create_transfer env retention client_id headers body w).0 ≡ true)
      ⊎ ((create_transfer env retention client_id headers body w).1.db ≡ w.db)
unfolding create_transfer
create_transfer_atomic env retention client_id headers body w h =
    elim (Result-cases (check_request env headers body)) [
      | inr (e, refused) ↦ inr (ground arith)
      | inl (c, checks) ↦ elim (Option-cases (read_preliminary c.source c.destination w.db)) [
        | inl missing ↦ inr (ground arith)
        | inr (p, reads) ↦ elim (Result-cases (operation_type p)) [
          | inr (e, unclear) ↦ inr (ground arith)
          | inl (operation, kind) ↦
              let op = operation_of operation in
              let block = transfer_block env retention client_id op c p operation in
              elim (transaction_atomic env op block (tick (tick (tick w))) h) [
                | inl answered ↦ elim (Bool-cases (env.fails w.calls)) [
                  | inl first ↦ inr (ground arith)
                  | inr first ↦ elim (Bool-cases (env.fails (suc w.calls))) [
                    | inl second ↦ inr (ground arith)
                    | inr second ↦ elim (Bool-cases (env.fails (suc (suc w.calls)))) [
                      | inl third ↦ inr (ground arith)
                      | inr third ↦ inl (ground arith)
                    ]
                  ]
                ]
                | inr kept ↦ inr (ground arith)
              ]
        ]
      ]
    ]

block_executed :
    (env : Env) (retention : ℕ) (client_id : Text) (headers : List Text)
    (body : Option CreateTransferRequest) (c : Checked) (p : Preliminary) (operation : Text)
    (w v : World) (r : Response)
    → check_request env headers body ≡ ok c
    → read_preliminary c.source c.destination w.db ≡ some p
    → operation_type p ≡ ok operation
    → transfer_block env retention client_id
        (operation_of operation)
        c
        p
        operation
        (tick (tick (tick w)))
      ≡ (done r, v)
    → (v.db ≡ w.db)
      ⊎ ((o : Order) × IsOrder env client_id headers body w.db o
          × IsExecuted env retention o w.db v.db r)
block_executed env retention client_id headers body c p operation w v r checks reads kind h =
    let (amount_minor, amount, sound) =
      block_sound env retention client_id (operation_of operation) c p operation
        (tick (tick (tick w))) v r h in
    elim sound [
      | inr x ↦ inl x.unchanged
      | inl x ↦ inr (
        order_of client_id c p operation amount_minor,
        record {
          client = refl;
          scoped = refl;
          checks = checks;
          reads = reads;
          kind = kind;
          amount = amount;
        },
        x,
      )
    ]

-- The tables are as they were, or the order was carried out in full, also if the answer to the COMMIT
-- was lost.
pub create_transfer_changes :
    (env : Env) (retention : ℕ) (client_id : Text) (headers : List Text)
    (body : Option CreateTransferRequest) (w : World)
    → ((create_transfer env retention client_id headers body w).1.db ≡ w.db)
      ⊎ ((o : Order) × (r : Response) × IsOrder env client_id headers body w.db o
          × IsExecuted env retention o w.db
              (create_transfer env retention client_id headers body w).1.db
              r)
unfolding create_transfer
create_transfer_changes env retention client_id headers body w =
    elim (Result-cases (check_request env headers body)) [
      | inr (e, refused) ↦ inl (ground arith)
      | inl (c, checks) ↦ elim (Option-cases (read_preliminary c.source c.destination w.db)) [
        | inl missing ↦ inl (ground arith)
        | inr (p, reads) ↦ elim (Result-cases (operation_type p)) [
          | inr (e, unclear) ↦ inl (ground arith)
          | inl (operation, kind) ↦ elim (Bool-cases (env.fails w.calls)) [
            | inl first ↦ inl (ground arith)
            | inr first ↦ elim (Bool-cases (env.fails (suc w.calls))) [
              | inl second ↦ inl (ground arith)
              | inr second ↦ elim (Bool-cases (env.fails (suc (suc w.calls)))) [
                | inl third ↦ inl (ground arith)
                | inr third ↦
                    let op = operation_of operation in
                    let block = transfer_block env retention client_id op c p operation in
                    let runs : create_transfer env retention client_id headers body w
                        ≡ transaction env op block (tick (tick (tick w))) =
                      ground arith in
                    elim (transaction_kept env op block (tick (tick (tick w)))) [
                      | inl kept ↦ inl (ap (λ x. x.1.db) runs ∙ kept)
                      | inr (r, v, e, stored) ↦
                          elim (block_executed env retention client_id headers body c p operation w
                            v r checks reads kind e) [
                              | inl same ↦ inl (ap (λ x. x.1.db) runs ∙ stored ∙ same)
                              | inr (o, order, x) ↦ inr (o, r, order, rw (runs, stored) x)
                            ]
                    ]
              ]
            ]
          ]
        ]
      ]
    ]
