-- ===== src/History/Cursor.antt =====
-- src/api/history.rs, its cursors: the place in a history as text. What `serde_json` makes of a cursor
-- is a parameter.
use high_performance_ledger.Prelude.{
  ℕ, ◌+◌, ◌-◌, ◌*◌, ◌%◌, ◌/◌, ◌==◌, ◌++◌, ◌&&◌, not, leb, ltb, Option, none, some, List, [], ◌∷◌,
  if◌then◌else◌,
}
use high_performance_ledger.Prelude.Lists.{is_empty}
use high_performance_ledger.Prelude.Text.{Text, codes, is_digit, strip_prefix}
use high_performance_ledger.Prelude.Result.{
  Result, ok, ◌>>=◌ as bind, ◌>>◌ as then', return_if, ok_or,
}
use high_performance_ledger.ApiError.{AppError, validation}
use high_performance_ledger.Database.{Uuid, Timestamp}

pub record Cursor : Type 0 where
  pub v : ℕ
  pub account_id : Uuid
  pub counterparty_account_id : Option Uuid
  pub created_at : Timestamp
  pub entry_id : Uuid

-- `serde_json::to_vec` and `serde_json::from_slice`, on cursors
pub record CursorCodec : Type 0 where
  pub to_vec : Cursor → List ℕ
  pub from_slice : List ℕ → Option Cursor

abbrev pub invalid_cursor : AppError
invalid_cursor = validation (codes "invalid_cursor") (codes "The cursor is invalid")

-- A digit of `{:x}`
abbrev pub hex_digit : ℕ → ℕ
hex_digit d = if ltb d 10 then 48 + d else 87 + d

-- `{byte:02x}` for each byte
abbrev pub hex : List ℕ → Text
hex [] = []
hex (b ∷ bytes) = hex_digit (b / 16) ∷ hex_digit (b % 16) ∷ hex bytes

unfoldable pub encode_cursor : CursorCodec → Cursor → Text
encode_cursor codec cursor = codes "v1." ++ hex (codec.to_vec cursor)

-- A hexadecimal digit of either case.
abbrev pub from_hex_digit : ℕ → Option ℕ
from_hex_digit c =
    if is_digit c
    then some (c - 48)
    else if leb 97 c && leb c 102
    then some (c - 87)
    else if leb 65 c && leb c 70
    then some (c - 55)
    else none

abbrev pub from_digits : Option ℕ → Option ℕ → Option ℕ
from_digits (some high) (some low) = some (high * 16 + low)
from_digits (some high) none = none
from_digits none low = none

abbrev pub cons_byte : Option ℕ → Option (List ℕ) → Option (List ℕ)
cons_byte (some b) (some bytes) = some (b ∷ bytes)
cons_byte (some b) none = none
cons_byte none bytes = none

-- The bytes of an even number of hexadecimal digits. A text with other characters has none, however
-- many bytes they take.
abbrev pub from_hex : Text → Option (List ℕ)
from_hex [] = some []
from_hex (c ∷ []) = none
from_hex (c ∷ d ∷ s) = cons_byte (from_digits (from_hex_digit c) (from_hex_digit d)) (from_hex s)

unfoldable pub decode_cursor : CursorCodec → Text → Result AppError Cursor
decode_cursor codec text = bind (ok_or (strip_prefix (codes "v1.") text) invalid_cursor) λ digits.
    then' (return_if (is_empty digits) invalid_cursor) (
      bind (ok_or (from_hex digits) invalid_cursor) λ bytes.
        bind (ok_or (codec.from_slice bytes) invalid_cursor)
          λ cursor. then' (return_if (not (cursor.v == 1)) invalid_cursor) (ok cursor))
