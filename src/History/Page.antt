-- ===== src/History/Page.antt =====
-- src/api/history.rs, `get_account_history`: a page of the entries of an account, newest first.
use high_performance_ledger.Prelude.{
  ℕ, suc, ◌==◌, Bool, true, ◌&&◌, ◌||◌, not, ltb, Option, none, some, List, [], ◌∷◌, if◌then◌else◌,
}
use high_performance_ledger.Prelude.Lists.{length, take}
use high_performance_ledger.Prelude.{map}
use high_performance_ledger.Prelude.Int.{ℤ}
use high_performance_ledger.Prelude.Text.{Text, codes}
use high_performance_ledger.Prelude.Result.{return_if}
use high_performance_ledger.ApiError.{AppError, internal, not_found}
use high_performance_ledger.Money.{format_minor_units}
use high_performance_ledger.Database.{
  Uuid, Timestamp, AccountEntry, Direction, debit, credit, kind_text, Database, find, select,
  order_by,
}
use high_performance_ledger.Tx.{Env, Tx, ◌>>=◌, ◌>>◌, pure, lift, or_fail, expect, query}
use high_performance_ledger.Accounts.{is_own}
use high_performance_ledger.Transfers.Request.{malformed_account_id}
use high_performance_ledger.History.Cursor.{Cursor, CursorCodec, encode_cursor}
use high_performance_ledger.History.Query.{Query, parse_query}

pub record AccountEntryResponse : Type 0 where
  pub entry_id : Uuid
  pub transfer_id : Uuid
  pub account_id : Uuid
  pub counterparty_account_id : Uuid
  pub direction : Text
  pub operation_kind : Text
  pub amount : Text
  pub currency : Text
  pub principal_amount : Option Text
  pub fee_amount : Option Text
  pub created_at : Text

pub record AccountHistoryResponse : Type 0 where
  pub items : List AccountEntryResponse
  pub next_cursor : Option Text

-- `direction::text`
abbrev pub direction_text : Direction → Text
direction_text debit = codes "debit"
direction_text credit = codes "credit"

-- `account_id = $1`, and `counterparty_account_id = $2` where there is one
abbrev pub is_listed : Uuid → Option Uuid → AccountEntry → Bool
is_listed account_id none e = e.account_id == account_id
is_listed account_id (some counterparty) e =
    (e.account_id == account_id) && (e.counterparty_account_id == counterparty)

-- `(created_at, id) < ($3, $4)`, a comparison of rows
abbrev pub is_older : Timestamp → Uuid → AccountEntry → Bool
is_older created_at id e =
    ltb e.created_at created_at || ((e.created_at == created_at) && ltb e.id id)

-- `$3 IS NULL OR …`
abbrev pub is_after : Option Cursor → AccountEntry → Bool
is_after none e = true
is_after (some cursor) e = is_older cursor.created_at cursor.entry_id e

-- `ORDER BY created_at DESC, id DESC`
abbrev pub newer : AccountEntry → AccountEntry → Bool
newer a b = is_older a.created_at a.id b

-- The rows of the statement: one more than the page has, if there are as many.
abbrev pub entry_rows : Uuid → Query → Database → List AccountEntry
entry_rows account_id q db = take (suc q.limit) (
    order_by newer (
      select (λ e. is_listed account_id q.counterparty_account_id e && is_after q.cursor e)
        db.account_entries))

abbrev pub last : List AccountEntry → Option AccountEntry
last [] = none
last (e ∷ []) = some e
last (e ∷ d ∷ es) = last (d ∷ es)

-- Where the next page starts.
abbrev pub cursor_at : Uuid → Query → AccountEntry → Cursor
cursor_at account_id q e = record {
  v = 1;
  account_id = account_id;
  counterparty_account_id = q.counterparty_account_id;
  created_at = e.created_at;
  entry_id = e.id;
}

-- The entries of the page, and the one that a next page comes after; there has to be one if there are
-- more rows than the page takes.
unfoldable pub page_of : ℕ → List AccountEntry → List AccountEntry × Option (Option AccountEntry)
page_of limit rows =
    (take limit rows, if ltb limit (length rows) then some (last (take limit rows)) else none)

abbrev pub next_cursor :
    CursorCodec → Uuid → Query → Option (Option AccountEntry) → Tx AppError (Option Text)
next_cursor codec account_id q none = pure none
next_cursor codec account_id q (some last_entry) = do
  e ← expect last_entry
  pure (some (encode_cursor codec (cursor_at account_id q e)))

abbrev pub formatted : ℕ → Option ℤ → Option Text
formatted scale none = none
formatted scale (some amount) = some (format_minor_units amount scale)

abbrev pub entry_response : Env → Uuid → ℕ → AccountEntry → AccountEntryResponse
entry_response env account_id scale e = record {
  entry_id = e.id;
  transfer_id = e.transfer_id;
  account_id = account_id;
  counterparty_account_id = e.counterparty_account_id;
  direction = direction_text e.direction;
  operation_kind = kind_text e.operation_kind;
  amount = format_minor_units e.amount_minor scale;
  currency = e.currency;
  principal_amount = formatted scale e.principal_amount_minor;
  fee_amount = formatted scale e.fee_amount_minor;
  created_at = env.to_rfc3339 e.created_at;
}

-- `SELECT currency_scale FROM accounts WHERE id = $1 AND owner_id = $2`
abbrev pub own_scale : Uuid → Text → Database → Option ℕ
own_scale account_id client_id db = elim (find (is_own account_id client_id) db.accounts) [
  | none ↦ none
  | some a ↦ some a.currency_scale
]

-- The page as a response. `u8::try_from(scale)` fails above 255.
unfoldable pub respond :
    Env → CursorCodec → Uuid → Query → ℕ → List AccountEntry → Tx AppError AccountHistoryResponse
respond env codec account_id q scale rows = do
  next ← next_cursor codec account_id q (page_of q.limit rows).1
  lift (return_if (not (ltb scale 256)) internal)
  pure (record {
    items = map (entry_response env account_id scale) (page_of q.limit rows).0;
    next_cursor = next;
  })

unfoldable pub get_account_history :
    Env → CursorCodec → Text → Text → Text → Tx AppError AccountHistoryResponse
get_account_history env codec client_id account_id raw_query = do
  id ← or_fail (env.parse_uuid account_id) malformed_account_id
  q ← lift (parse_query env codec raw_query id)
  found ← query env internal (own_scale id client_id)
  scale ← or_fail found not_found
  rows ← query env internal (entry_rows id q)
  respond env codec id q scale rows
