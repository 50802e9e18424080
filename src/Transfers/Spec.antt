-- ===== src/Transfers/Spec.antt =====
-- What a transfer that is carried out does to the tables.
use high_performance_ledger.Prelude.{
  ◌≤◌, ◌<◌, ℕ, ◌≡◌, ◌≢◌, ◌⊎◌, true, Option, none, some, ◌∷◌, if◌then◌else◌,
}
use high_performance_ledger.Prelude.Int.{ℤ, pos, ◌+ℤ◌, ◌-ℤ◌, ◌≤ℤ◌, IsI64}
use high_performance_ledger.Prelude.Text.{Text, ◌=t◌}
use high_performance_ledger.Database.{
  Uuid, Account, active, Transfer, Kind, transfer, fx_transfer, reversal, AccountEntry, debit,
  credit, Database, ExchangeRateRow, FeeRuleRow, Body, transfer_created, fx_transfer_created,
  select,
}
use high_performance_ledger.Database.Accounts.{find_account, with_balance, set_balance}
use high_performance_ledger.Database.Records.{transfer_allowed}
use high_performance_ledger.Idempotency.{complete_records, fx_transfer_operation}
use high_performance_ledger.Tx.{Env}
use high_performance_ledger.Money.{format_minor_units}
use high_performance_ledger.Prelude.Result.{ok}
use high_performance_ledger.Fx.{ExactRate, parse, calculate_fee, calculate_destination}
use high_performance_ledger.Fx.Select.{
  rate_unavailable, rate_ambiguous, rate_applies, pair_fee_applies, default_fee_applies, single,
}
use high_performance_ledger.Fx.Selection.{fee_rule_of}
use high_performance_ledger.Transfers.Price.{as_u8}
use high_performance_ledger.Gate.{Response}
use high_performance_ledger.Transfers.Perform.{Order}

abbrev pub fx_only : Kind → ℤ → Option ℤ
fx_only transfer a = none
fx_only fx_transfer a = some a
fx_only reversal a = none

-- The two entries of a transfer.
abbrev pub debit_of : Uuid → Transfer → AccountEntry
debit_of id t = record {
  id = id;
  account_id = t.source_account_id;
  transfer_id = t.id;
  counterparty_account_id = t.destination_account_id;
  direction = debit;
  operation_kind = t.kind;
  amount_minor = t.total_source_debit_minor;
  currency = t.source_currency;
  principal_amount_minor = fx_only t.kind t.source_amount_minor;
  fee_amount_minor = fx_only t.kind t.fee_amount_minor;
  created_at = t.created_at;
}

abbrev pub credit_of : Uuid → Transfer → AccountEntry
credit_of id t = record {
  id = id;
  account_id = t.destination_account_id;
  transfer_id = t.id;
  counterparty_account_id = t.source_account_id;
  direction = credit;
  operation_kind = t.kind;
  amount_minor = t.destination_amount_minor;
  currency = t.destination_currency;
  principal_amount_minor = fx_only t.kind t.destination_amount_minor;
  fee_amount_minor = none;
  created_at = t.created_at;
}

-- The balances move by the amounts of the transfer `t`, within the range of `i64`; the versions of
-- the two accounts go up; no other account changes; the transfer, which the constraints of its table
-- allow, and its two entries are added.
pub record Moves (before after : Database) (t : Transfer) (source destination : Account)
    : Type 0 where
  pub allowed : transfer_allowed t before.transfers ≡ true
  pub distinct : t.source_account_id ≢ t.destination_account_id
  pub found_source : find_account t.source_account_id before.accounts ≡ some source
  pub found_destination : find_account t.destination_account_id before.accounts ≡ some destination
  pub debited :
      find_account t.source_account_id after.accounts
      ≡ some (with_balance (source.balance_minor -ℤ t.total_source_debit_minor) source)
  pub credited :
      find_account t.destination_account_id after.accounts
      ≡ some (with_balance (destination.balance_minor +ℤ t.destination_amount_minor) destination)
  pub debit_fits : IsI64 (source.balance_minor -ℤ t.total_source_debit_minor)
  pub credit_fits : IsI64 (destination.balance_minor +ℤ t.destination_amount_minor)
  pub others :
      (k : Uuid)
      → k ≢ t.source_account_id
      → k ≢ t.destination_account_id
      → find_account k after.accounts ≡ find_account k before.accounts
  pub rewritten :
      after.accounts
      ≡ set_balance t.destination_account_id
          (destination.balance_minor +ℤ t.destination_amount_minor)
          (set_balance t.source_account_id
            (source.balance_minor -ℤ t.total_source_debit_minor)
            before.accounts)
  pub recorded : after.transfers ≡ t ∷ before.transfers
  pub debit_id : Uuid
  pub credit_id : Uuid
  pub entered :
      after.account_entries ≡ credit_of credit_id t ∷ debit_of debit_id t ∷ before.account_entries

-- What entitles a client to a transfer out of an account: it is the client's, both accounts are
-- active, and the debit is covered.
pub record Entitled (client_id : Text) (t : Transfer) (source destination : Account) : Type 0 where
  pub owned : source.owner_id ≡ client_id
  pub source_active : source.status ≡ active
  pub destination_active : destination.status ≡ active
  pub covered : t.total_source_debit_minor ≤ℤ source.balance_minor
  pub initiated : t.initiated_by ≡ client_id

-- The amounts of a transfer: they are positive, the debit is the amount and the fee, and a transfer
-- in one currency is free and arrives as it is.
pub record IsPriced (t : Transfer) : Type 0 where
  pub sent : pos 1 ≤ℤ t.source_amount_minor
  pub received : pos 1 ≤ℤ t.destination_amount_minor
  pub fee : pos 0 ≤ℤ t.fee_amount_minor
  pub fee_bound : t.fee_amount_minor ≤ℤ t.source_amount_minor
  pub total : t.total_source_debit_minor ≡ t.source_amount_minor +ℤ t.fee_amount_minor
  pub forward : t.kind ≢ reversal
  pub free : t.kind ≡ transfer → t.fee_amount_minor ≡ pos 0
  pub exact : t.kind ≡ transfer → t.destination_amount_minor ≡ t.source_amount_minor

-- A conversion is priced by the one rate and the one fee rule that apply to its currencies at its
-- time, and records them.
pub record IsConversion (before : Database) (t : Transfer) (source destination : Account)
    : Type 0 where
  pub rate : ExchangeRateRow
  pub rule : FeeRuleRow
  pub exact_rate : ExactRate
  pub kind : t.kind ≡ fx_transfer
  pub rate_chosen :
      single rate_unavailable rate_ambiguous (
        select
          (rate_applies t.source_currency t.destination_currency t.created_at)
          before.exchange_rates)
      ≡ ok rate
  pub rule_chosen :
      fee_rule_of
        (select
          (pair_fee_applies t.source_currency t.destination_currency t.created_at)
          before.fx_fee_rules)
        (select (default_fee_applies t.created_at) before.fx_fee_rules)
      ≡ ok rule
  pub rate_fits :
      (rate.source_currency ≡ t.source_currency)
      × (rate.destination_currency ≡ t.destination_currency)
      × (rate.valid_from ≤ t.created_at)
      × (t.created_at < rate.valid_until)
  pub rule_fits :
      ((rule.pair ≡ some (t.source_currency, t.destination_currency)) ⊎ (rule.pair ≡ none))
      × (rule.valid_from ≤ t.created_at)
      × (t.created_at < rule.valid_until)
  pub charged :
      calculate_fee t.source_amount_minor rule.fee_bps
      ≡ ok (record {
        fee_minor = t.fee_amount_minor;
        total_source_debit_minor = t.total_source_debit_minor;
      })
  pub rate_read : parse rate.rate ≡ ok exact_rate
  pub converted :
      calculate_destination t.source_amount_minor
        (as_u8 source.currency_scale)
        (as_u8 destination.currency_scale)
        exact_rate
      ≡ ok t.destination_amount_minor
  pub fee_bps : t.fee_bps ≡ some rule.fee_bps
  pub exchange_rate : t.exchange_rate ≡ some rate.rate
  pub exchange_rate_id : t.exchange_rate_id ≡ some rate.id

-- A transfer in one currency has no rate and no fee rule.
pub record IsPlain (t : Transfer) : Type 0 where
  pub kind : t.kind ≡ transfer
  pub fee_bps : t.fee_bps ≡ none
  pub exchange_rate : t.exchange_rate ≡ none
  pub exchange_rate_id : t.exchange_rate_id ≡ none

-- What the client is told of a transfer, by its kind.
abbrev pub told : Env → Transfer → ℕ → ℕ → Kind → Body
told env t source_scale destination_scale fx_transfer =
    fx_transfer_created t.id t.source_account_id t.destination_account_id t.source_currency
      (format_minor_units t.source_amount_minor (as_u8 source_scale)) t.destination_currency
      (format_minor_units t.destination_amount_minor (as_u8 destination_scale))
      (format_minor_units t.fee_amount_minor (as_u8 source_scale))
      (format_minor_units t.total_source_debit_minor (as_u8 source_scale))
      (env.timestamp_text t.created_at)
told env t source_scale destination_scale transfer =
    transfer_created t.id t.source_account_id t.destination_account_id t.source_currency
      (format_minor_units t.source_amount_minor (as_u8 source_scale))
      (env.timestamp_text t.created_at)
told env t source_scale destination_scale reversal =
    transfer_created t.id t.source_account_id t.destination_account_id t.source_currency
      (format_minor_units t.source_amount_minor (as_u8 source_scale))
      (env.timestamp_text t.created_at)

-- The columns of the row that no balance depends on, and the answer: the currencies are those of the
-- accounts, the time is now, the price is that of the configuration, and the client is told the row.
pub record IsDetailed (env : Env) (before : Database) (t : Transfer) (source destination : Account)
    (r : Response) : Type 0 where
  pub source_currency : t.source_currency ≡ source.currency
  pub destination_currency : t.destination_currency ≡ destination.currency
  pub time : t.created_at ≡ env.now
  pub forward : t.reverses_transfer_id ≡ none
  pub configured : IsPlain t ⊎ IsConversion before t source destination
  pub body : r.body ≡ told env t source.currency_scale destination.currency_scale t.kind

-- The kind of the transfer that an operation makes.
abbrev pub kind_of : Text → Kind
kind_of operation = if operation =t fx_transfer_operation then fx_transfer else transfer

-- What it means that an order was carried out with the answer `r`, which the idempotency record of
-- the request keeps.
pub record Performed (env : Env) (o : Order) (before after : Database) (r : Response) : Type 0 where
  pub transfer : Transfer
  pub source : Account
  pub destination : Account
  pub from : transfer.source_account_id ≡ o.checked.source
  pub to : transfer.destination_account_id ≡ o.checked.destination
  pub amount : transfer.source_amount_minor ≡ o.amount_minor
  pub moves : Moves before after transfer source destination
  pub entitled : Entitled o.client_id transfer source destination
  pub priced : IsPriced transfer
  pub detailed : IsDetailed env before transfer source destination r
  pub kind : transfer.kind ≡ kind_of o.operation
  pub source_currency : source.currency ≡ o.preliminary.source_currency
  pub destination_currency : destination.currency ≡ o.preliminary.destination_currency
  pub created : r.status ≡ 201
  pub kept :
      after.idempotency_records
      ≡ complete_records o.scope 201 r.body transfer.id before.idempotency_records
