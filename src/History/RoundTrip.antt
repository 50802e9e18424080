-- ===== src/History/RoundTrip.antt =====
-- What a cursor is worth: it comes back as it was, and only for the history that it was made for.
use high_performance_ledger.Prelude.{
  ℕ, ◌+◌, ◌*◌, ◌/◌, ◌%◌, ◌≤◌, ◌<◌, ◌≡◌, ◌≢◌, refl, ap, ◌∙◌, Bool, true, false, ltb, Option, none,
  some, List, [], ◌∷◌, arith, inl, inr,
}
use high_performance_ledger.Prelude.Lists.{all, is_empty}
use high_performance_ledger.Prelude.Text.{Text, split}
use high_performance_ledger.Prelude.Result.{ok, Result-cases}
use high_performance_ledger.Database.{Uuid}
use high_performance_ledger.Tx.{Env}
use high_performance_ledger.History.Cursor.{
  Cursor, CursorCodec, hex_digit, hex, from_hex_digit, from_digits, from_hex, encode_cursor,
  decode_cursor,
}
use high_performance_ledger.History.Query.{
  Query, no_parameters, parse_query, read_parts, parse_cursor, parse_limit, parse_counterparty,
  check_cursor, same_uuid,
}

abbrev pub is_byte : ℕ → Bool
is_byte b = ltb b 256

from_hex_digit-hex_digit : (d : ℕ) → d < 16 → from_hex_digit (hex_digit d) ≡ some d
from_hex_digit-hex_digit d h = ground arith

from_digits-hex :
    (b : ℕ)
    → b < 256
    → from_digits (from_hex_digit (hex_digit (b / 16))) (from_hex_digit (hex_digit (b % 16)))
      ≡ some b
from_digits-hex b h =
    let high = from_hex_digit-hex_digit (b / 16) (omega arith) in
    let low = from_hex_digit-hex_digit (b % 16) (omega arith) in
    let parts : b / 16 * 16 + b % 16 ≡ b = omega arith in rw (high, low, parts)

from_hex-hex : (bytes : List ℕ) → all is_byte bytes ≡ true → from_hex (hex bytes) ≡ some bytes
from_hex-hex [] h = refl
from_hex-hex (b ∷ bytes) h =
    let rest = from_hex-hex bytes (ground arith) in
    let one = from_digits-hex b (ground arith) in rw (one, rest)

-- What the library promises of the bytes of a cursor: they are bytes, there is one, and they are
-- read back as the cursor.
pub record IsReadBack (codec : CursorCodec) (cursor : Cursor) : Type 0 where
  pub some_bytes : codec.to_vec cursor ≢ []
  pub bytes : all is_byte (codec.to_vec cursor) ≡ true
  pub back : codec.from_slice (codec.to_vec cursor) ≡ some cursor

hex_nonempty : (bytes : List ℕ) → bytes ≢ [] → is_empty (hex bytes) ≡ false
hex_nonempty [] h = absurd (h refl)
hex_nonempty (b ∷ bytes) h = refl

-- A cursor of version 1 is decoded from its text as it was, if its serialisation is read back.
pub decode_cursor-encode_cursor :
    (codec : CursorCodec) (cursor : Cursor)
    → IsReadBack codec cursor
    → cursor.v ≡ 1
    → decode_cursor codec (encode_cursor codec cursor) ≡ ok cursor
unfolding decode_cursor encode_cursor
decode_cursor-encode_cursor codec cursor read version =
    let back = read.back in
    let digits = from_hex-hex (codec.to_vec cursor) read.bytes in
    let present = hex_nonempty (codec.to_vec cursor) read.some_bytes in ground arith

same_uuid_sound : (a b : Option Uuid) → same_uuid a b ≡ true → a ≡ b
same_uuid_sound none none h = refl
same_uuid_sound (some a) (some b) h = ground arith
same_uuid_sound none (some b) h = ground arith
same_uuid_sound (some a) none h = ground arith

-- A cursor that goes on from a place of one history.
pub record Continues (account_id : Uuid) (counterparty : Option Uuid) (cursor : Cursor)
    : Type 0 where
  pub version : cursor.v ≡ 1
  pub account : cursor.account_id ≡ account_id
  pub counterparty_account : cursor.counterparty_account_id ≡ counterparty

decode_cursor-version :
    (codec : CursorCodec) (text : Text) (cursor : Cursor)
    → decode_cursor codec text ≡ ok cursor
    → cursor.v ≡ 1
unfolding decode_cursor
decode_cursor-version codec text cursor h = ground arith

parse_limit_range :
    (text : Option Text) (limit : ℕ) → parse_limit text ≡ ok limit → (1 ≤ limit) × (limit ≤ 100)
parse_limit_range text limit h = ground arith

parse_cursor-version :
    (codec : CursorCodec) (text : Option Text) (cursor : Cursor)
    → parse_cursor codec text ≡ ok (some cursor)
    → cursor.v ≡ 1
parse_cursor-version codec none cursor h = ground arith
parse_cursor-version codec (some text) cursor h = elim (Result-cases (decode_cursor codec text)) [
  | inl (c, decoded) ↦ ground (arith, decode_cursor-version codec text c decoded)
  | inr (e, refused) ↦ ground arith
]

check_cursor_ok :
    (account_id : Uuid) (counterparty : Option Uuid) (o : Option Cursor) (cursor : Cursor)
    → o ≡ some cursor
    → check_cursor account_id counterparty o ≡ ok tt
    → (cursor.account_id ≡ account_id) × (cursor.counterparty_account_id ≡ counterparty)
check_cursor_ok account_id counterparty none cursor is h = ground arith
check_cursor_ok account_id counterparty (some c) cursor is h =
    let same : c ≡ cursor = ground arith in
    let party = same_uuid_sound c.counterparty_account_id counterparty (ground arith) in
    rw (← same) (ground arith, party)

-- A query that is accepted asks for 1 to 100 entries, and its cursor, if it has one, is of version 1
-- and was made for the same account and the same choice of a counterparty.
pub parse_query_sound :
    (env : Env) (codec : CursorCodec) (raw : Text) (account_id : Uuid) (q : Query)
    → parse_query env codec raw account_id ≡ ok q
    → (1 ≤ q.limit)
      × (q.limit ≤ 100)
      × ((cursor : Cursor)
          → q.cursor ≡ some cursor
          → Continues account_id q.counterparty_account_id cursor)
unfolding parse_query
parse_query_sound env codec raw account_id q h =
    elim (Result-cases (read_parts (split 38 raw) no_parameters)) [
      | inr (e, refused) ↦ ground arith
      | inl (p, reads) ↦ elim (Result-cases (parse_counterparty env p.counterparty)) [
        | inr (e, refused) ↦ ground arith
        | inl (counterparty, party) ↦ elim (Result-cases (parse_limit p.limit)) [
          | inr (e, refused) ↦ ground arith
          | inl (limit, limited) ↦ elim (Result-cases (parse_cursor codec p.cursor)) [
            | inr (e, refused) ↦ ground arith
            | inl (cursor, placed) ↦
                elim (Result-cases (check_cursor account_id counterparty cursor)) [
                  | inr (e, refused) ↦ ground arith
                  | inl (u, fits) ↦
                      let (low, high) = parse_limit_range p.limit limit limited in
                      let is : q ≡ record {
                        counterparty_account_id = counterparty;
                        limit = limit;
                        cursor = cursor;
                      } =
                        ground arith in
                      rw is (
                        low,
                        high,
                        λ c same.
                            let (account, party) =
                              check_cursor_ok account_id counterparty cursor c same fits in
                            record {
                              version = parse_cursor-version codec p.cursor c (placed ∙ ap ok same);
                              account = account;
                              counterparty_account = party;
                            },
                      )
                ]
          ]
        ]
      ]
    ]
