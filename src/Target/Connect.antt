-- ===== src/Target/Connect.antt =====
-- `Target::connect` of target.rs with the configuration that it reads, and the getters of `Target`.
use connector_supabase.Common.{ℕ, Option, none, some, String, Result, ok, err}
use connector_supabase.Common.Text.{trim}
use connector_supabase.Target.{TargetError, unavailable}

-- Configured trusted target boundary.
pub record TargetConfig : Type 0 where
  pub host : String
  pub port : ℕ
  pub user : String
  pub database : String
  pub password_file : String
  pub api_url : String
  pub database_url_ref : String
  pub anon_key_ref : String

-- What is set of a `tokio_postgres::Config`.
pub record PgConfig : Type 0 where
  pub host : String
  pub port : ℕ
  pub user : String
  pub password : String
  pub dbname : String
  pub application_name : String

abbrev pub pg_config : TargetConfig → String → PgConfig
pg_config config password = record {
  host = config.host;
  port = config.port;
  user = config.user;
  password = trim password;
  dbname = config.database;
  application_name = "henosis-connector-supabase";
}

-- `config.connect(NoTls)`: the failure, where there is one.
abbrev pub dialled : Option String → Result Unit TargetError
dialled none = ok tt
dialled (some error) = err (unavailable error)

abbrev pub with_password :
    (PgConfig → Option String) → TargetConfig → Result String String → Result Unit TargetError
with_password dial config (err error) = err (unavailable error)
with_password dial config (ok password) = dialled (dial (pg_config config password))

-- The password is read anew at every connection.
unfoldable pub connect :
    (String → Result String String)
    → (PgConfig → Option String)
    → TargetConfig
    → Result Unit TargetError
connect read_to_string dial config = with_password dial config (read_to_string config.password_file)
