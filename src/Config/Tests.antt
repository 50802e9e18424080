-- ===== src/Config/Tests.antt =====
-- A run of `from_values`, and a use of what is proved of it.
use high_performance_ledger.Prelude.{◌≡◌, refl, true, some, [], ◌∷◌}
use high_performance_ledger.Prelude.Text.{codes, trim}
use high_performance_ledger.Prelude.Decimal.{decimal}
use high_performance_ledger.Prelude.Result.{ok}
use high_performance_ledger.Config.{
  Outside, Config, Values, nonblank, required, optional, parse_u32, parse_seconds, new_auth,
  read_auth, from_values,
}
use high_performance_ledger.Config.Sound.{IsUsable, from_values_sound}

abbrev outside : Outside
outside = record { parse_address = λ t. some 3000; is_rsa_pem = λ t. true }

abbrev values : Values
values =
    (codes "DATABASE_URL", codes "postgres://localhost/ledger")
    ∷ (codes "JWT_ISSUER", codes "https://issuer.example")
    ∷ (codes "JWT_AUDIENCE", codes "ledger")
    ∷ (codes "JWT_PUBLIC_KEY_PEM", codes "key")
    ∷ (codes "DB_MIN_CONNECTIONS", codes "2")
    ∷ (codes "IDEMPOTENCY_RETENTION_SECS", codes "9223372036854775808")
    ∷ []

-- A retention of 2^63 seconds is accepted.
abbrev config : Config
config = record {
  database_url = codes "postgres://localhost/ledger";
  bind_address = 3000;
  pool = record {
    max_connections = 10;
    min_connections = 2;
    acquire_timeout = 5;
    connect_timeout = 5;
  };
  log_filter = codes "info";
  auth = record {
    issuer = codes "https://issuer.example";
    audience = codes "ledger";
    public_key_pem = codes "key";
  };
  idempotency_retention = 9223372036854775808;
}

is_read : from_values outside values ≡ ok config
unfolding from_values required optional parse_u32 parse_seconds nonblank new_auth read_auth trim
    decimal
is_read = refl

from_values_sound_example : IsUsable outside config
from_values_sound_example = from_values_sound outside values config is_read
