-- ===== src/Database.antt =====
-- The tables of the migrations, as the rows that the SQL statements of the service read and write.
-- An id is the number of its UUID and a time a number of microseconds; PostgreSQL orders both as
-- such. A column with a CHECK that it is not negative is a natural number, any other an integer.
-- `created_at` and `updated_at` of an account, which no statement reads, are left out.
pub mod Accounts
pub mod Records
use high_performance_ledger.Prelude.{
  ℕ, ◌+◌, Bool, true, false, ◌&&◌, ◌||◌, not, Option, none, some, List, [], ◌∷◌, ◌==◌, leb, ltb,
  if◌then◌else◌,
}
use high_performance_ledger.Prelude.Int.{ℤ, pos, leb_ℤ, ltb_ℤ}
use high_performance_ledger.Prelude.Text.{Text, codes, ◌=t◌}

abbrev pub Uuid : Type 0
Uuid = ℕ

abbrev pub Timestamp : Type 0
Timestamp = ℕ

pub data AccountStatus : Type 0 where
  active inactive : AccountStatus

-- `status::text`
abbrev pub status_text : AccountStatus → Text
status_text active = codes "active"
status_text inactive = codes "inactive"

pub record Account : Type 0 where
  pub id : Uuid
  pub owner_id : Text
  pub currency : Text
  pub currency_scale : ℕ
  pub balance_minor : ℤ
  pub status : AccountStatus
  pub version : ℕ

pub data Kind : Type 0 where
  transfer fx_transfer reversal : Kind

-- `kind::text`
abbrev pub kind_text : Kind → Text
kind_text transfer = codes "transfer"
kind_text fx_transfer = codes "fx_transfer"
kind_text reversal = codes "reversal"

pub record Transfer : Type 0 where
  pub id : Uuid
  pub source_account_id : Uuid
  pub destination_account_id : Uuid
  pub source_currency : Text
  pub destination_currency : Text
  pub source_amount_minor : ℤ
  pub destination_amount_minor : ℤ
  pub fee_amount_minor : ℤ
  pub total_source_debit_minor : ℤ
  pub fee_bps : Option ℤ
  pub exchange_rate : Option Text
  pub exchange_rate_id : Option Uuid
  pub kind : Kind
  pub reverses_transfer_id : Option Uuid
  pub initiated_by : Text
  pub created_at : Timestamp

pub data Direction : Type 0 where
  debit credit : Direction

pub record AccountEntry : Type 0 where
  pub id : Uuid
  pub account_id : Uuid
  pub transfer_id : Uuid
  pub counterparty_account_id : Uuid
  pub direction : Direction
  pub operation_kind : Kind
  pub amount_minor : ℤ
  pub currency : Text
  pub principal_amount_minor : Option ℤ
  pub fee_amount_minor : Option ℤ
  pub created_at : Timestamp

pub record ExchangeRateRow : Type 0 where
  pub id : Uuid
  pub source_currency : Text
  pub destination_currency : Text
  pub rate : Text  -- `rate::text`
  pub valid_from : Timestamp
  pub valid_until : Timestamp

-- A rule without a pair is a default; the table has both currencies of a pair or none.
pub record FeeRuleRow : Type 0 where
  pub id : Uuid
  pub pair : Option (Text × Text)
  pub fee_bps : ℤ
  pub valid_from : Timestamp
  pub valid_until : Timestamp

-- The bodies of successful responses. A JSON object is given by its members.
pub data Body : Type 0 where
  account_created : (id : Uuid) (currency balance : Text) → Body
  transfer_created : (id source destination : Uuid) (currency amount created_at : Text) → Body
  fx_transfer_created :
      (id source destination : Uuid)
      (source_currency source_amount destination_currency destination_amount fee_amount
        total_source_debit created_at : Text)
      → Body
  reversal_created :
      (id original source destination : Uuid)
      (source_currency destination_currency source_amount destination_amount original_fee_amount
        total_source_debit resulting_source_balance resulting_destination_balance created_at : Text)
      → Body

-- `http_status`, `response_body` and `resulting_resource_id` are set together, by a CHECK.
pub record IdempotencyRecord : Type 0 where
  pub client_id : Text
  pub operation_type : Text
  pub idempotency_key : Text
  pub request_fingerprint : Text
  pub result : Option (ℕ × Body × Uuid)
  pub created_at : Timestamp
  pub expires_at : Timestamp

pub record Database : Type 0 where
  pub accounts : List Account
  pub transfers : List Transfer
  pub account_entries : List AccountEntry
  pub idempotency_records : List IdempotencyRecord
  pub exchange_rates : List ExchangeRateRow
  pub fx_fee_rules : List FeeRuleRow

-- The rows that satisfy a condition, and the first of them.
module _ {A : Type 0} where
  abbrev pub select : (A → Bool) → List A → List A
  select p [] = []
  select p (x ∷ xs) = let rest = select p xs in if p x then x ∷ rest else rest

  abbrev pub find : (A → Bool) → List A → Option A
  find p [] = none
  find p (x ∷ xs) = if p x then some x else find p xs

  abbrev pub exists : (A → Bool) → List A → Bool
  exists p [] = false
  exists p (x ∷ xs) = p x || exists p xs

  -- `UPDATE … SET … WHERE`
  abbrev pub update : (A → Bool) → (A → A) → List A → List A
  update p f [] = []
  update p f (x ∷ xs) = (if p x then f x else x) ∷ update p f xs

  -- `ORDER BY`: a stable sort, by an order that is given as `before`
  abbrev pub insert_by : (A → A → Bool) → A → List A → List A
  insert_by before x [] = x ∷ []
  insert_by before x (y ∷ ys) = if before y x then y ∷ insert_by before x ys else x ∷ y ∷ ys

  abbrev pub order_by : (A → A → Bool) → List A → List A
  order_by before [] = []
  order_by before (x ∷ xs) = insert_by before x (order_by before xs)
