-- ===== src/Config/Sound.antt =====
-- What settings the service starts with, and what its errors disclose.
use high_performance_ledger.Prelude.{
  ℕ, ◌≤◌, ◌<◌, ◌≡◌, true, false, some, [], ◌∷◌, arith, inl, inr, Option-cases,
}
use high_performance_ledger.Prelude.Text.{Text, codes}
use high_performance_ledger.Prelude.Decimal.{decimal}
use high_performance_ledger.Prelude.Result.{ok}
use high_performance_ledger.Config.{
  Outside, AuthConfig, Config, Values, get, is_blank, nonblank, required, optional, parse_unsigned,
  u32_bound, u64_bound, parse_u32, parse_seconds, new_auth, read_auth, check_pool, from_values,
}

-- A number of seconds that is positive and fits into a `u64`.
abbrev pub IsSeconds : ℕ → Type 0
IsSeconds n = (1 ≤ n) × (n < u64_bound)

parse_unsigned_bound :
    (bound : ℕ) (text : Text) (n : ℕ) → parse_unsigned bound text ≡ some n → n < bound
parse_unsigned_bound bound [] n h = ground arith
parse_unsigned_bound bound (c ∷ s) n h = ground arith

parse_seconds_ok :
    (values : Values) (name : Text) (default n : ℕ)
    → parse_seconds values name default ≡ ok n
    → IsSeconds n
unfolding parse_seconds
parse_seconds_ok values name default n h =
    elim (Option-cases (parse_unsigned u64_bound (optional values name (decimal default)))) [
      | inl unreadable ↦ ground arith
      | inr (m, reads) ↦
          let fits =
            parse_unsigned_bound u64_bound (optional values name (decimal default)) m reads in
          ground arith
    ]

parse_u32_ok :
    (values : Values) (name : Text) (default n : ℕ)
    → parse_u32 values name default ≡ ok n
    → n < u32_bound
unfolding parse_u32
parse_u32_ok values name default n h =
    elim (Option-cases (parse_unsigned u32_bound (optional values name (decimal default)))) [
      | inl unreadable ↦ ground arith
      | inr (m, reads) ↦
          let fits =
            parse_unsigned_bound u32_bound (optional values name (decimal default)) m reads in
          ground arith
    ]

required_ok :
    (values : Values) (name text : Text) → required values name ≡ ok text → is_blank text ≡ false
unfolding required
required_ok values name text h = elim (Option-cases (get values name)) [
  | inl missing ↦ ground arith
  | inr (t, found) ↦ ground arith
]

-- Settings that the service can work with.
pub record IsUsable (outside : Outside) (c : Config) : Type 0 where
  pub database : is_blank c.database_url ≡ false
  pub pool : c.pool.min_connections ≤ c.pool.max_connections
  pub pool_bound : c.pool.max_connections < u32_bound
  pub acquire : IsSeconds c.pool.acquire_timeout
  pub connect : IsSeconds c.pool.connect_timeout
  pub issuer : is_blank c.auth.issuer ≡ false
  pub audience : is_blank c.auth.audience ≡ false
  pub key : outside.is_rsa_pem c.auth.public_key_pem ≡ true
  pub retention : IsSeconds c.idempotency_retention

read_auth_ok :
    (outside : Outside) (values : Values) (a : AuthConfig)
    → read_auth outside values ≡ ok a
    → (is_blank a.issuer ≡ false)
      × (is_blank a.audience ≡ false)
      × (outside.is_rsa_pem a.public_key_pem ≡ true)
unfolding read_auth new_auth nonblank
read_auth_ok outside values a h = ground arith

-- What the settings are read from, one after the other.
record IsRead (outside : Outside) (values : Values) (c : Config) : Type 0 where
  url : required values (codes "DATABASE_URL") ≡ ok c.database_url
  most : parse_u32 values (codes "DB_MAX_CONNECTIONS") 10 ≡ ok c.pool.max_connections
  range : check_pool c.pool.max_connections c.pool.min_connections ≡ ok tt
  auth : read_auth outside values ≡ ok c.auth
  acquire : parse_seconds values (codes "DB_ACQUIRE_TIMEOUT_SECS") 5 ≡ ok c.pool.acquire_timeout
  connect : parse_seconds values (codes "DB_CONNECT_TIMEOUT_SECS") 5 ≡ ok c.pool.connect_timeout
  retention :
      parse_seconds values (codes "IDEMPOTENCY_RETENTION_SECS") 86400 ≡ ok c.idempotency_retention

from_values-IsRead :
    (outside : Outside) (values : Values) (c : Config)
    → from_values outside values ≡ ok c
    → IsRead outside values c
unfolding from_values
from_values-IsRead outside values c h = record {
  url = ground arith;
  most = ground arith;
  range = ground arith;
  auth = ground arith;
  acquire = ground arith;
  connect = ground arith;
  retention = ground arith;
}

-- Settings that are accepted are usable: the database, the issuer and the audience of tokens are not
-- blank, the public key is an RSA key, the pool may have as many connections as it has at least, and
-- every duration is positive and fits into a `u64`.
pub from_values_sound :
    (outside : Outside) (values : Values) (c : Config)
    → from_values outside values ≡ ok c
    → IsUsable outside c
from_values_sound outside values c h =
    let r = from_values-IsRead outside values c h in
    let range = r.range in
    let (issuer, audience, key) = read_auth_ok outside values c.auth r.auth in
    record {
      database = required_ok values (codes "DATABASE_URL") c.database_url r.url;
      pool = ground arith;
      pool_bound =
          parse_u32_ok values (codes "DB_MAX_CONNECTIONS") 10 c.pool.max_connections r.most;
      acquire =
          parse_seconds_ok values (codes "DB_ACQUIRE_TIMEOUT_SECS") 5 c.pool.acquire_timeout
            r.acquire;
      connect =
          parse_seconds_ok values (codes "DB_CONNECT_TIMEOUT_SECS") 5 c.pool.connect_timeout
            r.connect;
      issuer = issuer;
      audience = audience;
      key = key;
      retention =
          parse_seconds_ok values (codes "IDEMPOTENCY_RETENTION_SECS") 86400 c.idempotency_retention
            r.retention;
    }
