-- ===== src/Idempotency.antt =====
-- src/idempotency.rs: the key of a request, the fingerprint of what it asks for, and the records
-- of completed requests. SHA-256 and its hexadecimal text are a parameter.
pub mod Fingerprint
pub mod Protocol
use high_performance_ledger.Prelude.{
  ℕ, zero, suc, ◌+◌, ◌*◌, ◌-◌, ◌/◌, ◌%◌, ◌≤◌, Bool, true, false, ◌||◌, ◌&&◌, not, Option, none,
  some, List, [], ◌∷◌, ◌++◌, leb, ltb, if◌then◌else◌,
}
use high_performance_ledger.Prelude.Lists.{length, is_empty, all}
use high_performance_ledger.Prelude.Int.{ℤ, pos, negsuc, i64_mod}
use high_performance_ledger.Prelude.Text.{Text, codes, ◌=t◌}
use high_performance_ledger.Prelude.Result.{Result, ok, err, ◌>>=◌ as bind, ok_or}
use high_performance_ledger.ApiError.{AppError, validation, internal}
use high_performance_ledger.Database.{
  Uuid, Timestamp, Body, IdempotencyRecord, Database, find, update,
}
use high_performance_ledger.Tx.{
  Env, failed, Tx, World, ◌>>=◌, ◌>>◌, pure, panic, expect, or_fail, query, perform, execute,
}

abbrev pub account_creation_operation : Text
account_creation_operation = codes "account_creation"

abbrev pub transfer_operation : Text
transfer_operation = codes "transfer"

abbrev pub fx_transfer_operation : Text
fx_transfer_operation = codes "fx_transfer"

abbrev pub reversal_operation : Text
reversal_operation = codes "reversal"

abbrev pub max_key_length : ℕ
max_key_length = 255

-- `(0x21..=0x7e).contains(&byte)`
abbrev pub is_key_byte : ℕ → Bool
is_key_byte b = leb 0x21 b && leb b 0x7e

abbrev malformed_key : AppError
malformed_key =
    validation (codes "malformed_idempotency_key") (codes "The Idempotency-Key header is invalid")

-- The text of a header, once there is one, as a key.
check_key : Text → Result AppError Text
check_key value =
    if is_empty value || ltb max_key_length (length value) || not (all is_key_byte value)
    then err malformed_key
    else ok value

-- `IdempotencyKey::from_headers`, from the values that the header has
unfoldable pub from_headers : Env → List Text → Result AppError Text
unfolding check_key
from_headers env [] =
    err (
      validation (codes "missing_idempotency_key") (codes "The Idempotency-Key header is required"))
from_headers env (value ∷ []) = bind (ok_or (env.header_to_str value) malformed_key) check_key
from_headers env (value ∷ other ∷ values) = err (
    validation (codes "duplicate_idempotency_key")
      (codes "The Idempotency-Key header must appear exactly once"))

-- The last `k` bytes of a number, the highest first.
unfoldable pub be_bytes : ℕ → ℕ → List ℕ
be_bytes zero n = []
be_bytes (suc k) n = be_bytes k (n / 256) ++ (n % 256) ∷ []

-- `Uuid::as_bytes`
abbrev pub uuid_bytes : Uuid → List ℕ
uuid_bytes id = be_bytes 16 id

-- The 64 bits of an `i64` in two's complement.
abbrev pub bits_64 : ℤ → ℕ
bits_64 (pos n) = n
bits_64 (negsuc n) = 18446744073709551615 - n

-- `i64::to_be_bytes`
abbrev pub i64_bytes : ℤ → List ℕ
i64_bytes a = be_bytes 8 (bits_64 a)

-- What the hasher is fed for each kind of request.
abbrev pub account_creation_input : Text → ℤ → List ℕ
account_creation_input currency balance_minor =
    codes "account_creation:v1:" ++ (currency ++ (codes ":" ++ i64_bytes balance_minor))

abbrev pub transfer_input : Uuid → Uuid → Text → ℤ → List ℕ
transfer_input source destination currency amount_minor =
    codes "transfer:v1:"
    ++ (uuid_bytes source ++ (uuid_bytes destination ++ (currency ++ i64_bytes amount_minor)))

abbrev pub reversal_input : Uuid → List ℕ
reversal_input original = codes "reversal:v1:" ++ uuid_bytes original

unfoldable pub account_creation_fingerprint : Env → Text → ℤ → Text
account_creation_fingerprint env currency balance_minor =
    env.sha256_hex (account_creation_input currency balance_minor)

unfoldable pub transfer_fingerprint : Env → Uuid → Uuid → Text → ℤ → Text
transfer_fingerprint env source destination currency amount_minor =
    env.sha256_hex (transfer_input source destination currency amount_minor)

unfoldable pub reversal_fingerprint : Env → Uuid → Text
reversal_fingerprint env original = env.sha256_hex (reversal_input original)

pub data Reservation : Type 0 where
  owned : Reservation
  replay : (http_status : ℕ) (response_body : Body) → Reservation
  conflict : Reservation

-- Whose request of which kind under which key.
pub record Scope : Type 0 where
  pub client_id : Text
  pub operation_type : Text
  pub key : Text

abbrev pub in_scope : Scope → IdempotencyRecord → Bool
in_scope s r =
    (r.client_id =t s.client_id)
    && ((r.operation_type =t s.operation_type) && (r.idempotency_key =t s.key))

abbrev pub find_record : Scope → List IdempotencyRecord → Option IdempotencyRecord
find_record s = find (in_scope s)

-- `record.map(…)` with its two `expect`s: a stored record has its result.
abbrev pub completed_result : Option IdempotencyRecord → Option (Option (Text × ℕ × Body))
completed_result none = some none
completed_result (some r) = elim r.result [
  | none ↦ none
  | some (http_status, response_body, _) ↦
      some (some (r.request_fingerprint, http_status, response_body))
]

unfoldable pub completed_success : Env → Scope → Tx AppError (Option (Text × ℕ × Body))
completed_success env s = do
  record' ← query env internal (λ db. find_record s db.idempotency_records)
  expect (completed_result record')

abbrev pub reservation : Env → Scope → Text → ℕ → IdempotencyRecord
reservation env s fingerprint retention = record {
  client_id = s.client_id;
  operation_type = s.operation_type;
  idempotency_key = s.key;
  request_fingerprint = fingerprint;
  result = none;
  created_at = env.now;
  expires_at = env.now + retention * 1000000;
}

-- `INSERT … ON CONFLICT DO NOTHING`, with the number of rows that it inserts; none is a row that the
-- CHECK on its expiry refuses.
abbrev pub insert_reservation : IdempotencyRecord → Scope → Database → Option ℕ × Database
insert_reservation r s db =
    if ltb r.created_at r.expires_at
    then elim (find_record s db.idempotency_records) [
      | none ↦ (some 1, record db { idempotency_records = r ∷ db.idempotency_records })
      | some _ ↦ (some 0, db)
    ]
    else (none, db)

-- What an existing record means for a request: an incomplete one is unreachable, and a missing one
-- is an error of `fetch_one`.
abbrev pub judge : Text → Option IdempotencyRecord → Tx AppError Reservation
judge fingerprint none w = (failed internal, w)
judge fingerprint (some r) w =
    if r.request_fingerprint =t fingerprint
    then elim r.result [
      | none ↦ panic w
      | some (http_status, response_body, _) ↦ pure (replay http_status response_body) w
    ]
    else pure conflict w

-- `i64::try_from(retention.as_secs())`
abbrev pub retention_seconds : ℕ → Option ℕ
retention_seconds retention = if ltb retention i64_mod then some retention else none

existing_reservation : Env → Scope → Text → Tx AppError Reservation
existing_reservation env s fingerprint = do
  record' ← query env internal (λ db. find_record s db.idempotency_records)
  judge fingerprint record'

after_insert : Env → Scope → Text → ℕ → Tx AppError Reservation
after_insert env s fingerprint zero = existing_reservation env s fingerprint
after_insert env s fingerprint (suc n) = pure owned

unfoldable pub reserve : Env → Scope → Text → ℕ → Tx AppError Reservation
unfolding after_insert existing_reservation
reserve env s fingerprint retention = do
  seconds ← expect (retention_seconds retention)
  answer ← perform env internal (insert_reservation (reservation env s fingerprint seconds) s)
  inserted ← or_fail answer internal
  after_insert env s fingerprint inserted

abbrev pub with_result : ℕ → Body → Uuid → IdempotencyRecord → IdempotencyRecord
with_result http_status body id r = record r { result = some (http_status, body, id) }

abbrev pub complete_records :
    Scope → ℕ → Body → Uuid → List IdempotencyRecord → List IdempotencyRecord
complete_records s http_status body id = update (in_scope s) (with_result http_status body id)

unfoldable pub store_success : Env → Scope → ℕ → Body → Uuid → Tx AppError (Unit {0})
store_success env s http_status body id = execute env internal λ db. some (record db {
  idempotency_records = complete_records s http_status body id db.idempotency_records;
})
