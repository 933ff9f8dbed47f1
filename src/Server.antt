-- ===== src/Server.antt =====
-- The service process (services/server/src/main.rs): the configuration from the environment, and the
-- start of the controller up to the listening socket.
pub mod Started
mod Tests
use connector_supabase.Common.{
  ℕ, Option, none, some, String, List, [], ◌∷◌, Result, ok, err, ◌>>=◌, ◌>>◌, map_err, ok_or, ltb,
  not, shown, format, if◌then◌else◌,
}
use connector_supabase.Common.Decimal.{parse_u64}
use connector_supabase.Common.Text.{is_empty}
use connector_supabase.External.{External}
use connector_supabase.Journal.Connect
use connector_supabase.Journal.Connect.{JournalConfig, OperationJournal, ConnectFault, S2Client}
use connector_supabase.Journal.Stream.{evidence_uri}
use connector_supabase.Reconciler.{ReconcileError, state, World, Outside}
use connector_supabase.Reconciler.Resume.{resume}
use connector_supabase.Target.Connect.{TargetConfig}

-- `env::var`: a variable that is not set, or is not Unicode, has no value.
abbrev pub Variables : Type 0
Variables = String → Option String

abbrev pub unwrap_or : Option String → String → String
unwrap_or none default = default
unwrap_or (some value) default = value

pub data StartError : Type 0 where
  logging : String → StartError
  invalid_port : String → StartError
  missing : String → StartError
  journal : ConnectFault → StartError
  uri : String → StartError
  reconcile : ReconcileError → StartError
  io : String → StartError

-- Where core is called, and the headers of each call.
pub record CoreConfig : Type 0 where
  pub uri : String
  pub headers : List (String × String)

-- What the process is given by its platform: the error of a step, where there is one, and what the
-- parts that it assembles answer.
pub record Platform : Type 0 where
  pub init_logging : Option String
  pub s2 : S2Client
  pub parse_uri : String → Option String
  pub create_dir_all : String → Option String
  pub assemble : TargetConfig → OperationJournal → CoreConfig → Outside
  pub bind : String → Option String
  pub cargo_pkg_version : String

-- The parts that `main` builds before it resumes.
pub record Settings : Type 0 where
  pub target : TargetConfig
  pub journal : OperationJournal
  pub core : CoreConfig
  pub state_dir : String

abbrev pub refused : (String → StartError) → Option String → Result Unit StartError
refused error none = ok tt
refused error (some text) = err (error text)

-- `parse::<u16>`.
unfoldable pub parse_u16 : String → Option ℕ
parse_u16 text = elim (parse_u64 text) [
  | none ↦ none
  | some n ↦ if ltb n 65536 then some n else none
]

-- `CoreReporter::new`: the headers that each call has.
abbrev pub bearer : Option String → List (String × String)
bearer none = []
bearer (some token) = ("authorization", format ("Bearer " ∷ token ∷ [])) ∷ []

-- `.filter(|value| !value.is_empty())`
abbrev pub not_empty : Option String → Option String
not_empty none = none
not_empty (some value) = if not (is_empty value) then some value else none

module _ (vars : Variables) where
  abbrev pub string_env : String → String → String
  string_env name default = unwrap_or (vars name) default

  abbrev pub path_env : String → String → String
  path_env name default = string_env name default

  abbrev pub required : String → Result String StartError
  required name = ok_or (vars name) (missing name)

  abbrev pub target_config : ℕ → TargetConfig
  target_config port = record {
    host = string_env "HENOSIS_SUPABASE_HOST" "supabase-db";
    port = port;
    user = string_env "HENOSIS_SUPABASE_USER" "postgres";
    database = string_env "HENOSIS_SUPABASE_DATABASE" "postgres";
    password_file =
        path_env "HENOSIS_SUPABASE_PASSWORD_FILE" "/run/secrets/supabase-postgres-password";
    api_url = string_env "HENOSIS_SUPABASE_API_URL" "http://127.0.0.1:4484";
    database_url_ref =
        string_env "HENOSIS_SUPABASE_DATABASE_URL_REF" "docker-secret://supabase-connection-url";
    anon_key_ref = string_env "HENOSIS_SUPABASE_ANON_KEY_REF" "docker-secret://supabase-anon-key";
  }

  unfoldable pub read_port : Result ℕ StartError
  read_port =
      ok_or (parse_u16 (string_env "HENOSIS_SUPABASE_PORT" "5432"))
        (invalid_port (string_env "HENOSIS_SUPABASE_PORT" "5432"))

  unfoldable pub journal_config : Result JournalConfig StartError
  journal_config = do
    access_token ← required "S2_ACCESS_TOKEN"
    account_endpoint ← required "S2_ACCOUNT_ENDPOINT"
    basin_endpoint ← required "S2_BASIN_ENDPOINT"
    basin ← required "S2_BASIN"
    ok (record {
      access_token = access_token;
      account_endpoint = account_endpoint;
      basin_endpoint = basin_endpoint;
      basin = basin;
      stream = string_env "HENOSIS_SUPABASE_JOURNAL_STREAM" "connector-supabase-local-v1";
    })

  abbrev pub core_uri : String
  core_uri = string_env "HENOSIS_CORE_URL" "http://core:8080"

  abbrev pub core_config : CoreConfig
  core_config = record { uri = core_uri; headers = bearer (not_empty (vars "HENOSIS_CORE_TOKEN")) }

  abbrev pub state_dir : String
  state_dir = path_env "HENOSIS_STATE_DIR" "/var/lib/henosis-connector-supabase/state"

  module _ (platform : Platform) where
    -- `Reconciler::new`.
    abbrev pub prepare : String → Result Unit StartError
    prepare dir =
        refused (λ error. reconcile (state (shown error ∷ [])))
          (platform.create_dir_all (format (dir ∷ "/graphs" ∷ [])))

    -- The steps of `main` before the controller resumes.
    unfoldable pub configure : Result Settings StartError
    configure = do
      refused logging platform.init_logging
      port ← read_port
      config ← journal_config
      opened ← map_err journal (Connect.connect platform.s2 config)
      refused uri (platform.parse_uri core_uri)
      prepare state_dir
      ok (record {
        target = target_config port;
        journal = opened;
        core = core_config;
        state_dir = state_dir;
      })

    -- The controller around its parts: what it reads of them itself is their configuration.
    abbrev pub controller : Settings → Outside
    controller settings =
        record (platform.assemble settings.target settings.journal settings.core) {
          evidence_uri = evidence_uri settings.journal.basin_name settings.journal.stream_name;
          connector_build = platform.cargo_pkg_version;
          api_url = settings.target.api_url;
          database_url_ref = settings.target.database_url_ref;
          anon_key_ref = settings.target.anon_key_ref;
        }

    -- The socket is bound when the controller has resumed.
    abbrev pub listen :
        Settings → Result ℕ ReconcileError × World → Result Settings StartError × World
    listen settings (ok count, world) = (
      refused io (platform.bind (string_env "HENOSIS_BIND" "0.0.0.0:8082")) >>= λ _. ok settings,
      world,
    )
    listen settings (err error, world) = (err (reconcile error), world)

    abbrev pub resume_configured :
        External → Result Settings StartError → World → Result Settings StartError × World
    resume_configured env (err error) world = (err error, world)
    resume_configured env (ok settings) world =
        listen settings (resume env (controller settings) world)

    -- `main` up to the server, which then runs until it is interrupted.
    unfoldable pub start : External → World → Result Settings StartError × World
    start env = resume_configured env configure
