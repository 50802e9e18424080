-- ===== src/Accounts/Tests.antt =====
-- Runs of the account handlers, and uses of what is proved of them.
use high_performance_ledger.Prelude.{◌≡◌, ◌⊎◌, refl, true, none, some, List, [], ◌∷◌, arith}
use high_performance_ledger.Prelude.Int.{◌+ℤ◌}
use high_performance_ledger.Prelude.Text.{Text, codes, trim, split_once}
use high_performance_ledger.Prelude.Decimal.{decimal, padded}
use high_performance_ledger.Prelude.Result.{ok}
use high_performance_ledger.Money.{
  currency, parse_minor_units, parse_initial_balance, format_minor_units,
}
use high_performance_ledger.ApiError.{not_found}
use high_performance_ledger.Database.{Uuid, account_created}
use high_performance_ledger.Database.Accounts.{find_account}
use high_performance_ledger.Idempotency.{
  from_headers, reserve, store_success, account_creation_fingerprint,
}
use high_performance_ledger.Tx.{done, failed}
use high_performance_ledger.Gate.Atomic.{is_done}
use high_performance_ledger.Transfers.Sample.{env, alice, db, world}
use high_performance_ledger.Accounts.{
  CreateAccountRequest, Opening, check_account, open_account, account_transaction, create_account,
  get_balance,
}
use high_performance_ledger.Accounts.Effect.{opened_tables, create_account_sound, get_balance_lem}

abbrev key : List Text
key = codes "key-2" ∷ []

abbrev request : CreateAccountRequest
request = record { currency = codes " eur "; initial_balance = codes "10.25" }

created :
    (create_account env 60 (codes "alice") key (some request) world).0
    ≡ done (record { status = 201; body = account_created 1002 (codes "EUR") (codes "10.25") })
unfolding create_account check_account from_headers currency parse_initial_balance parse_minor_units
    account_transaction reserve open_account store_success format_minor_units
    account_creation_fingerprint trim split_once decimal padded ◌+ℤ◌
created = refl

create_account_sound_example :
    ((create_account env 60 (codes "alice") key (some request) world).1.db ≡ db)
    ⊎ ((o : Opening) × (id : Uuid) × (check_account env key (some request) ≡ ok o)
        × (find_account id db.accounts ≡ none)
        × (is_done (create_account env 60 (codes "alice") key (some request) world).0 ≡ true)
        × ((create_account env 60 (codes "alice") key (some request) world).1.db
            ≡ opened_tables env 60 (codes "alice") o id db))
create_account_sound_example =
    create_account_sound env 60 (codes "alice") key (some request) world (λ e. ground arith)

get_balance_lem_example :
    ((get_balance env (codes "bob") (codes "A") world).0 ≡ failed not_found)
    × ((get_balance env (codes "bob") (codes "A") world).1.db ≡ db)
get_balance_lem_example =
    get_balance_lem env (codes "bob") (codes "A") 65 alice world refl refl (refl, (refl, tt)) refl
