-- ===== src/Database/Accounts.antt =====
-- The statements on `accounts`, and what they leave unchanged.
use high_performance_ledger.Prelude.{
  ℕ, ◌+◌, ◌≡◌, ◌≢◌, refl, Bool, ◌||◌, Option, none, some, List, [], ◌∷◌, arith, ◌==◌, ltb, suc, ◌≤◌,
}
use high_performance_ledger.Prelude.Lists.{length}
use high_performance_ledger.Prelude.Int.{ℤ}
use high_performance_ledger.Database.{Uuid, Account, find, select, update, insert_by, order_by}

abbrev pub has_id : Uuid → Account → Bool
has_id id a = a.id == id

-- `SELECT … FROM accounts WHERE id = $1`
abbrev pub find_account : Uuid → List Account → Option Account
find_account id = find (has_id id)

-- `SELECT … FROM accounts WHERE id = ANY($1) ORDER BY id FOR UPDATE`, of two ids
abbrev pub has_either_id : Uuid → Uuid → Account → Bool
has_either_id i j a = has_id i a || has_id j a

abbrev pub id_before : Account → Account → Bool
id_before a b = ltb a.id b.id

abbrev pub lock_accounts : Uuid → Uuid → List Account → List Account
lock_accounts i j accounts = order_by id_before (select (has_either_id i j) accounts)

abbrev pub with_balance : ℤ → Account → Account
with_balance balance a = record a { balance_minor = balance; version = a.version + 1 }

-- `UPDATE accounts SET balance_minor = $1, version = version + 1, … WHERE id = $2`
abbrev pub set_balance : Uuid → ℤ → List Account → List Account
set_balance id balance = update (has_id id) (with_balance balance)

pub find-set_balance_self :
    (i : Uuid) (b : ℤ) (xs : List Account) (a : Account)
    → find_account i xs ≡ some a
    → find_account i (set_balance i b xs) ≡ some (with_balance b a)
find-set_balance_self i b [] a h = cc
find-set_balance_self i b (x ∷ xs) a h = ground (arith, find-set_balance_self i b xs a)

pub find-set_balance_ne :
    (i j : Uuid) (b : ℤ) (xs : List Account)
    → j ≢ i
    → find_account j (set_balance i b xs) ≡ find_account j xs
find-set_balance_ne i j b [] h = refl
find-set_balance_ne i j b (x ∷ xs) h = ground (arith, find-set_balance_ne i j b xs h)

find-insert_by :
    (i : Uuid) (x : Account) (xs : List Account)
    → find_account i (insert_by id_before x xs) ≡ find_account i (x ∷ xs)
find-insert_by i x [] = refl
find-insert_by i x (y ∷ ys) = ground (arith, find-insert_by i x ys)

pub find-lock_left :
    (i j : Uuid) (xs : List Account) → find_account i (lock_accounts i j xs) ≡ find_account i xs
find-lock_left i j [] = refl
find-lock_left i j (x ∷ xs) =
    ground (arith, find-lock_left i j xs, find-insert_by i x (lock_accounts i j xs))

pub find-lock_right :
    (i j : Uuid) (xs : List Account) → find_account j (lock_accounts i j xs) ≡ find_account j xs
find-lock_right i j [] = refl
find-lock_right i j (x ∷ xs) =
    ground (arith, find-lock_right i j xs, find-insert_by j x (lock_accounts i j xs))

-- The primary key of `accounts`.
abbrev pub UniqueIds : List Account → Type 0
UniqueIds [] = Unit
UniqueIds (x ∷ xs) = (find_account x.id xs ≡ none) × UniqueIds xs

abbrev pub present : Option Account → ℕ
present none = 0
present (some _) = 1

length-insert_by :
    (x : Account) (xs : List Account) → length (insert_by id_before x xs) ≡ suc (length xs)
length-insert_by x [] = refl
length-insert_by x (y ∷ ys) = ground (arith, length-insert_by x ys)

pub length-lock :
    (i j : Uuid) (xs : List Account)
    → i ≢ j
    → UniqueIds xs
    → length (lock_accounts i j xs) ≡ present (find_account i xs) + present (find_account j xs)
length-lock i j [] h u = refl
length-lock i j (x ∷ xs) h u =
    ground (arith, length-lock i j xs h u.1, length-insert_by x (lock_accounts i j xs))

pub length-lock_same :
    (i : Uuid) (xs : List Account)
    → UniqueIds xs
    → length (lock_accounts i i xs) ≡ present (find_account i xs)
length-lock_same i [] u = refl
length-lock_same i (x ∷ xs) u =
    ground (arith, length-lock_same i xs u.1, length-insert_by x (lock_accounts i i xs))

pub find-set_balance_none :
    (i j : Uuid) (b : ℤ) (xs : List Account)
    → find_account j xs ≡ none
    → find_account j (set_balance i b xs) ≡ none
find-set_balance_none i j b [] h = refl
find-set_balance_none i j b (x ∷ xs) h = ground (arith, find-set_balance_none i j b xs)

-- An update of a balance keeps the primary key.
pub set_balance-UniqueIds :
    (i : Uuid) (b : ℤ) (xs : List Account) → UniqueIds xs → UniqueIds (set_balance i b xs)
set_balance-UniqueIds i b [] u = tt
set_balance-UniqueIds i b (x ∷ xs) u =
    ground (arith, set_balance-UniqueIds i b xs u.1, find-set_balance_none i x.id b xs u.0)

abbrev pub IsAscending : List Account → Type 0
IsAscending [] = Unit
IsAscending (x ∷ []) = Unit
IsAscending (x ∷ y ∷ ys) = (x.id ≤ y.id) × IsAscending (y ∷ ys)
