-- ===== src/Config.antt =====
-- src/config.rs: the settings of the service, read from the variables of its environment. An error is
-- its message. The parser of socket addresses and the test of RSA keys are parameters, and a socket
-- address is a number that names it.
pub mod Sound
mod Tests
use high_performance_ledger.Prelude.{
  ℕ, ◌==◌, ◌^◌, Bool, true, false, ◌||◌, not, ltb, Option, none, some, List, [], ◌∷◌, ◌++◌,
  if◌then◌else◌,
}
use high_performance_ledger.Prelude.Lists.{is_empty}
use high_performance_ledger.Prelude.Text.{Text, codes, ◌=t◌, trim, all_digits}
use high_performance_ledger.Prelude.Decimal.{value, decimal}
use high_performance_ledger.Prelude.Result.{
  Result, ok, err, ◌>>=◌ as bind, ◌>>◌ as then', return_if, ok_or,
}

pub record Outside : Type 0 where
  pub parse_address : Text → Option ℕ
  pub is_rsa_pem : Text → Bool

-- A duration is a number of seconds.
pub record PoolConfig : Type 0 where
  pub max_connections : ℕ
  pub min_connections : ℕ
  pub acquire_timeout : ℕ
  pub connect_timeout : ℕ

pub record AuthConfig : Type 0 where
  pub issuer : Text
  pub audience : Text
  pub public_key_pem : Text

pub record Config : Type 0 where
  pub database_url : Text
  pub bind_address : ℕ
  pub pool : PoolConfig
  pub log_filter : Text
  pub auth : AuthConfig
  pub idempotency_retention : ℕ

-- The variables, of which a later one with the same name counts.
abbrev pub Values : Type 0
Values = List (Text × Text)

abbrev pub get : Values → Text → Option Text
get [] name = none
get ((key, text) ∷ values) name = elim (get values name) [
  | some later ↦ some later
  | none ↦ if key =t name then some text else none
]

abbrev pub is_blank : Text → Bool
is_blank text = is_empty (trim text)

abbrev pub must_be_set : Text → Text
must_be_set name = name ++ codes " must be set"

unfoldable pub nonblank : Text → Text → Result Text Text
nonblank text name = then' (return_if (is_blank text) (must_be_set name)) (ok text)

abbrev pub filled : Option Text → Option Text
filled none = none
filled (some text) = if is_blank text then none else some text

unfoldable pub required : Values → Text → Result Text Text
required values name = ok_or (filled (get values name)) (must_be_set name)

unfoldable pub optional : Values → Text → Text → Text
optional values name default = elim (get values name) [ none ↦ default | some text ↦ text ]

-- `str::parse` of an unsigned number below a bound: a plus sign is allowed
abbrev pub parse_digits : ℕ → Text → Option ℕ
parse_digits bound digits =
    if is_empty digits || not (all_digits digits) || not (ltb (value digits) bound)
    then none
    else some (value digits)

abbrev pub parse_unsigned : ℕ → Text → Option ℕ
parse_unsigned bound [] = none
parse_unsigned bound (c ∷ s) = if c == 43 then parse_digits bound s else parse_digits bound (c ∷ s)

abbrev pub u32_bound : ℕ
u32_bound = 4294967296

abbrev pub u64_bound : ℕ
u64_bound = 18446744073709551616

unfoldable pub parse_u32 : Values → Text → ℕ → Result Text ℕ
parse_u32 values name default =
    ok_or (parse_unsigned u32_bound (optional values name (decimal default)))
      (name ++ codes " must be a non-negative integer")

unfoldable pub parse_seconds : Values → Text → ℕ → Result Text ℕ
parse_seconds values name default =
    bind
      (ok_or (parse_unsigned u64_bound (optional values name (decimal default)))
        (name ++ codes " must be a positive number of seconds"))
      λ seconds.
        then' (return_if (seconds == 0) (name ++ codes " must be greater than zero")) (ok seconds)

-- `AuthConfig::new`
unfoldable pub new_auth : Outside → Text → Text → Text → Result Text AuthConfig
new_auth outside issuer audience public_key_pem =
    bind (nonblank issuer (codes "JWT_ISSUER")) λ issuer'.
      bind (nonblank audience (codes "JWT_AUDIENCE")) λ audience'.
        then'
          (return_if (not (outside.is_rsa_pem public_key_pem))
            (codes "JWT_PUBLIC_KEY_PEM must contain a valid RSA public key"))
          (ok (record { issuer = issuer'; audience = audience'; public_key_pem = public_key_pem }))

unfoldable pub read_auth : Outside → Values → Result Text AuthConfig
read_auth outside values = bind (required values (codes "JWT_ISSUER")) λ issuer.
    bind (required values (codes "JWT_AUDIENCE")) λ audience.
      bind (required values (codes "JWT_PUBLIC_KEY_PEM"))
        λ public_key_pem. new_auth outside issuer audience public_key_pem

abbrev pub check_pool : ℕ → ℕ → Result Text (Unit {0})
check_pool max_connections min_connections =
    return_if (ltb max_connections min_connections)
      (codes "DB_MIN_CONNECTIONS must not exceed DB_MAX_CONNECTIONS")

unfoldable pub from_values : Outside → Values → Result Text Config
from_values outside values = bind (required values (codes "DATABASE_URL")) λ database_url.
    bind
      (ok_or (outside.parse_address (optional values (codes "BIND_ADDRESS") (codes "0.0.0.0:3000")))
        (codes "BIND_ADDRESS must be a valid socket address"))
      λ bind_address. bind (parse_u32 values (codes "DB_MAX_CONNECTIONS") 10) λ max_connections.
        bind (parse_u32 values (codes "DB_MIN_CONNECTIONS") 0) λ min_connections.
          then' (check_pool max_connections min_connections) (
            bind (read_auth outside values) λ auth.
              bind (parse_seconds values (codes "DB_ACQUIRE_TIMEOUT_SECS") 5) λ acquire_timeout.
                bind (parse_seconds values (codes "DB_CONNECT_TIMEOUT_SECS") 5) λ connect_timeout.
                  bind (parse_seconds values (codes "IDEMPOTENCY_RETENTION_SECS") 86400)
                    λ idempotency_retention. ok (record {
                      database_url = database_url;
                      bind_address = bind_address;
                      pool = record {
                        max_connections = max_connections;
                        min_connections = min_connections;
                        acquire_timeout = acquire_timeout;
                        connect_timeout = connect_timeout;
                      };
                      log_filter = optional values (codes "RUST_LOG") (codes "info");
                      auth = auth;
                      idempotency_retention = idempotency_retention;
                    }))
