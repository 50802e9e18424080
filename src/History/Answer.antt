-- ===== src/History/Answer.antt =====
-- What `get_account_history` answers, and to whom.
use high_performance_ledger.Prelude.{
  ℕ, zero, suc, ◌≤◌, ◌≡◌, ◌≢◌, refl, ap, ◌∙◌, true, Option, none, some, List, [], ◌∷◌, map, arith,
  inl, inr, Option-cases,
}
use high_performance_ledger.Prelude.Lists.{length, take}
use high_performance_ledger.Prelude.Text.{Text, =t_sound}
use high_performance_ledger.Prelude.Result.{ok, Result-cases}
use high_performance_ledger.Database.{Uuid, Account, AccountEntry, Database, find}
use high_performance_ledger.Tx.{Env, World, done, panicked, tick}
use high_performance_ledger.Tx.Laws.{IsSafe}
use high_performance_ledger.Accounts.{is_own}
use high_performance_ledger.History.Cursor.{CursorCodec, encode_cursor, decode_cursor}
use high_performance_ledger.History.Query.{Query, parse_query, check_cursor, same_uuid}
use high_performance_ledger.History.Listing.{IsIn, find-IsIn, IsAmong}
use high_performance_ledger.History.Shown.{IsAskedFor, page_lem}
use high_performance_ledger.History.Page.{
  AccountHistoryResponse, entry_rows, entry_response, last, cursor_at, page_of, respond,
  get_account_history,
}
use high_performance_ledger.History.RoundTrip.{
  IsReadBack, decode_cursor-encode_cursor, parse_query_sound,
}

length-take_le : (n : ℕ) (es : List AccountEntry) → length (take n es) ≤ n
length-take_le zero es = omega arith
length-take_le (suc n) [] = omega arith
length-take_le (suc n) (e ∷ es) = omega (arith, length-take_le n es)

-- What a response shows of the account that a request names, which is the client's: an entry that is
-- shown is asked for; one that is asked for is shown, or the page is full with entries that come first.
pub record IsAnswer (env : Env) (codec : CursorCodec) (client_id account_id raw_query : Text)
    (db : Database) (r : AccountHistoryResponse) : Type 0 where
  pub id : Uuid
  pub q : Query
  pub account : Account
  pub page : List AccountEntry
  pub parsed : env.parse_uuid account_id ≡ some id
  pub asked : parse_query env codec raw_query id ≡ ok q
  pub kept : IsIn account db.accounts
  pub named : account.id ≡ id
  pub owned : account.owner_id ≡ client_id
  pub items : r.items ≡ map (entry_response env id account.currency_scale) page
  pub few : length page ≤ q.limit
  pub bound : q.limit ≤ 100
  pub sound : (e : AccountEntry) → IsIn e page → IsIn e db.account_entries × IsAskedFor id q e
  pub complete :
      (e : AccountEntry) → IsIn e db.account_entries → IsAskedFor id q e → IsAmong q.limit page e

own_lem :
    (id : Uuid) (client_id : Text) (xs : List Account) (a : Account)
    → find (is_own id client_id) xs ≡ some a
    → IsIn a xs × (a.id ≡ id) × (a.owner_id ≡ client_id)
own_lem id client_id xs a h =
    let (there, holds) = find-IsIn (is_own id client_id) xs a h in
    (there, ground arith, ground (arith, =t_sound a.owner_id client_id))

page_of-length : (limit : ℕ) (rows : List AccountEntry) → length (page_of limit rows).0 ≤ limit
unfolding page_of
page_of-length limit rows = length-take_le limit rows

respond-done :
    (env : Env) (codec : CursorCodec) (id : Uuid) (q : Query) (scale : ℕ) (rows : List AccountEntry)
    (w w' : World) (r : AccountHistoryResponse)
    → respond env codec id q scale rows w ≡ (done r, w')
    → (r.items ≡ map (entry_response env id scale) (page_of q.limit rows).0) × (w' ≡ w)
unfolding respond
respond-done env codec id q scale rows w w' r h = ground arith

-- A history is shown only to the owner of the account: the account is in the table, and is the
-- client's. Every entry that is shown is an entry of the account, with the counterparty if the
-- query names one, and behind the place of the cursor if it has one. An entry of this kind is
-- shown, or as many are as the limit allows, and they all come before it, by time and then by id.
-- At most 100 are shown, and no table is changed.
pub get_account_history_sound :
    (env : Env) (codec : CursorCodec) (client_id account_id raw_query : Text) (w w' : World)
    (r : AccountHistoryResponse)
    → get_account_history env codec client_id account_id raw_query w ≡ (done r, w')
    → IsAnswer env codec client_id account_id raw_query w.db r × (w'.db ≡ w.db)
unfolding get_account_history
get_account_history_sound env codec client_id account_id raw_query w w' r h =
    elim (Option-cases (env.parse_uuid account_id)) [
      | inl malformed ↦ ground arith
      | inr (id, parsed) ↦ elim (Result-cases (parse_query env codec raw_query id)) [
        | inr (e, refused) ↦ ground arith
        | inl (q, asked) ↦ elim (Option-cases (find (is_own id client_id) w.db.accounts)) [
          | inl foreign ↦ ground arith
          | inr (a, own) ↦
              let (items, same) =
                respond-done env codec id q a.currency_scale (entry_rows id q w.db) (tick (tick w))
                  w' r (ground arith) in
              let (_, bound, _) = parse_query_sound env codec raw_query id q asked in
              let (kept, named, owned) = own_lem id client_id w.db.accounts a own in
              (
                record {
                  id = id;
                  q = q;
                  account = a;
                  page = (page_of q.limit (entry_rows id q w.db)).0;
                  parsed = parsed;
                  asked = asked;
                  kept = kept;
                  named = named;
                  owned = owned;
                  items = items;
                  few = page_of-length q.limit (entry_rows id q w.db);
                  bound = bound;
                  sound = λ e. (page_lem id q w.db e).0;
                  complete = λ e. (page_lem id q w.db e).1;
                },
                ap (λ v. v.db) same,
              )
        ]
      ]
    ]

at_least_one : (n : ℕ) → 1 ≤ n → (m : ℕ) × (n ≡ suc m)
at_least_one zero h = absurd (omega (arith, h))
at_least_one (suc m) h = (m, refl)

last-cons : (e : AccountEntry) (es : List AccountEntry) → last (e ∷ es) ≢ none
last-cons e [] = λ h. ground arith
last-cons e (d ∷ es) = last-cons d es

-- A page with a successor has a last entry.
page_of_safe : (n : ℕ) (rows : List AccountEntry) → (page_of (suc n) rows).1 ≢ some none
unfolding page_of
page_of_safe n [] = λ h. ground arith
page_of_safe n (e ∷ rows) = λ h. ground (arith, last-cons e (take n rows))

respond-IsSafe :
    (env : Env) (codec : CursorCodec) (id : Uuid) (q : Query) (scale n : ℕ)
    (rows : List AccountEntry) (w : World)
    → q.limit ≡ suc n
    → IsSafe (respond env codec id q scale rows) w
unfolding respond
respond-IsSafe env codec id q scale n rows w h =
    let present = page_of_safe n rows in
    elim (Option-cases (page_of q.limit rows).1) [
      | inl final ↦ record { safe = λ p. ground arith }
      | inr (o, more) ↦ elim (Option-cases o) [
        | inl missing ↦ absurd (present (rw h at (more ∙ ap some missing)))
        | inr (e, is) ↦ record { safe = λ p. ground arith }
      ]
    ]

-- No request for a history panics, whatever it asks for and whatever calls fail: a page with a
-- successor is not empty.
pub get_account_history_never_panics :
    (env : Env) (codec : CursorCodec) (client_id account_id raw_query : Text) (w : World)
    → (get_account_history env codec client_id account_id raw_query w).0 ≢ panicked
unfolding get_account_history
get_account_history_never_panics env codec client_id account_id raw_query w =
    elim (Option-cases (env.parse_uuid account_id)) [
      | inl malformed ↦ λ p. ground arith
      | inr (id, parsed) ↦ elim (Result-cases (parse_query env codec raw_query id)) [
        | inr (e, refused) ↦ λ p. ground arith
        | inl (q, asked) ↦ elim (Option-cases (find (is_own id client_id) w.db.accounts)) [
          | inl foreign ↦ λ p. ground arith
          | inr (a, own) ↦
              let (low, _, _) = parse_query_sound env codec raw_query id q asked in
              let (n, limit) = at_least_one q.limit low in
              let safe =
                (respond-IsSafe env codec id q a.currency_scale n (entry_rows id q w.db)
                  (tick (tick w)) limit).safe in
              λ p. ground arith
        ]
      ]
    ]

same_uuid_refl : (a : Option Uuid) → same_uuid a a ≡ true
same_uuid_refl none = refl
same_uuid_refl (some a) = ground arith

-- The cursor that a page ends with is accepted for the next one: its text is decoded as the place of
-- the last entry, which is in the history that was asked for, if its serialisation is read back.
pub next_cursor_accepted :
    (codec : CursorCodec) (account_id : Uuid) (q : Query) (e : AccountEntry)
    → IsReadBack codec (cursor_at account_id q e)
    → (decode_cursor codec (encode_cursor codec (cursor_at account_id q e))
        ≡ ok (cursor_at account_id q e))
      × (check_cursor account_id q.counterparty_account_id (some (cursor_at account_id q e))
          ≡ ok tt)
next_cursor_accepted codec account_id q e read =
    let same = same_uuid_refl q.counterparty_account_id in
    (decode_cursor-encode_cursor codec (cursor_at account_id q e) read refl, ground arith)
