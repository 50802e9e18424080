-- ===== src/History/Tests.antt =====
-- Runs of `get_account_history`, and uses of what is proved of it.
use high_performance_ledger.Prelude.{
  ℕ, ◌+◌, ◌*◌, ◌/◌, ◌%◌, ◌≤◌, ◌≡◌, ◌≢◌, refl, Option, none, some, List, [], ◌∷◌, arith,
}
use high_performance_ledger.Prelude.Lists.{length}
use high_performance_ledger.Prelude.Int.{pos}
use high_performance_ledger.Prelude.Text.{codes, split, split_once}
use high_performance_ledger.Prelude.Decimal.{decimal, padded}
use high_performance_ledger.Prelude.Result.{ok}
use high_performance_ledger.Money.{format_minor_units}
use high_performance_ledger.ApiError.{AppError}
use high_performance_ledger.Database.{AccountEntry, debit, Kind}
use high_performance_ledger.Tx.{World, Outcome, done, panicked}
use high_performance_ledger.Transfers.Sample.{env, db, world}
use high_performance_ledger.History.Cursor.{Cursor, CursorCodec, encode_cursor, decode_cursor}
use high_performance_ledger.History.Query.{parse_query, read_parts, check_cursor}
use high_performance_ledger.History.Page.{
  AccountHistoryResponse, cursor_at, page_of, respond, get_account_history,
}
use high_performance_ledger.History.RoundTrip.{IsReadBack, Continues, parse_query_sound}
use high_performance_ledger.History.Walk.{history, first_page, walk, walk_complete}
use high_performance_ledger.History.Answer.{
  IsAnswer, get_account_history_sound, get_account_history_never_panics, next_cursor_accepted,
}

abbrev from_bytes : List ℕ → Option Cursor
from_bytes (v ∷ a ∷ t ∷ high ∷ low ∷ []) = some (record {
  v = v;
  account_id = a;
  counterparty_account_id = none;
  created_at = t;
  entry_id = high * 256 + low;
})
from_bytes _ = none

-- A serialisation of cursors without a counterparty, in five bytes.
abbrev codec : CursorCodec
codec = record {
  to_vec = λ c. c.v ∷ c.account_id ∷ c.created_at ∷ c.entry_id / 256 ∷ c.entry_id % 256 ∷ [];
  from_slice = from_bytes;
}

abbrev entry : ℕ → ℕ → AccountEntry
entry id time = record {
  id = id;
  account_id = 65;
  transfer_id = 7;
  counterparty_account_id = 66;
  direction = debit;
  operation_kind = Kind.transfer;
  amount_minor = pos 250;
  currency = codes "PLN";
  principal_amount_minor = none;
  fee_amount_minor = none;
  created_at = time;
}

abbrev three : World
three = record world {
  db = record db { account_entries = entry 3 10 ∷ entry 1011 12 ∷ entry 5 10 ∷ [] };
}

abbrev page : Outcome AppError AccountHistoryResponse × World
page = get_account_history env codec (codes "alice") (codes "A") (codes "limit=1") three

abbrev place : Cursor
place = cursor_at 65 (first_page none 1) (entry 1011 12)

place-IsReadBack : IsReadBack codec place
place-IsReadBack = record { some_bytes = λ h. ground arith; bytes = refl; back = refl }

next_cursor_accepted_example :
    (decode_cursor codec (encode_cursor codec place) ≡ ok place)
    × (check_cursor 65 none (some place) ≡ ok tt)
next_cursor_accepted_example =
    next_cursor_accepted codec 65 (first_page none 1) (entry 1011 12) place-IsReadBack

limited : parse_query env codec (codes "limit=20") 65 ≡ ok (first_page none 20)
unfolding parse_query read_parts split split_once
limited = refl

parse_query_sound_example :
    (1 ≤ 20) × (20 ≤ 100) × ((cursor : Cursor) → none ≡ some cursor → Continues 65 none cursor)
parse_query_sound_example =
    parse_query_sound env codec (codes "limit=20") 65 (first_page none 20) limited

-- The order is by time, then by id; the page ends with a cursor.
newest_first : history 65 none three.db ≡ entry 1011 12 ∷ entry 5 10 ∷ entry 3 10 ∷ []
newest_first = refl

abbrev shown : AccountHistoryResponse
shown = record {
  items =
      record {
        entry_id = 1011;
        transfer_id = 7;
        account_id = 65;
        counterparty_account_id = 66;
        direction = codes "debit";
        operation_kind = codes "transfer";
        amount = codes "2.50";
        currency = codes "PLN";
        principal_amount = none;
        fee_amount = none;
        created_at = 12 ∷ [];
      }
      ∷ [];
  next_cursor = some (codes "v1.01410c03f3");
}

is_shown : page ≡ (done shown, page.1)
unfolding get_account_history parse_query read_parts split split_once respond page_of encode_cursor
    format_minor_units decimal padded
is_shown = refl

get_account_history_sound_example :
    IsAnswer env codec (codes "alice") (codes "A") (codes "limit=1") three.db shown
    × (page.1.db ≡ three.db)
get_account_history_sound_example =
    get_account_history_sound env codec (codes "alice") (codes "A") (codes "limit=1") three page.1
      shown is_shown

get_account_history_never_panics_example : page.0 ≢ panicked
get_account_history_never_panics_example =
    get_account_history_never_panics env codec (codes "alice") (codes "A") (codes "limit=1") three

walk_complete_example :
    walk (length (history 65 none three.db)) 65 (first_page none 2) three.db
    ≡ history 65 none three.db
walk_complete_example = walk_complete 65 none 2 three.db (omega arith) (refl, (refl, (refl, tt)))
