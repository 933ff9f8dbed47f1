-- ===== src/Server/Tests.antt =====
-- The start of the process at concrete environments.
use connector_supabase.Common.{none, some, [], ◌∷◌, ◌≡◌, refl, ok, err, str_eq, any, if◌then◌else◌}
use connector_supabase.Common.Decimal.{parse_u64, parse_digits}
use connector_supabase.Common.Sets.{insert}
use connector_supabase.Common.Text
use connector_supabase.Common.Words
use connector_supabase.Context.Boundary.{from_bytes, validate_boundary}
use connector_supabase.Context.Ids.{validate_logical_id, validate_schema}
use connector_supabase.Fixtures.Messages.{env, desired}
use connector_supabase.Fixtures.Restart.{outside, restarted, every-IsFiled}
use connector_supabase.Journal.Connect.{S2Client, connect}
use connector_supabase.Reconciler.{graph_file, other_file}
use connector_supabase.Reconciler.Monad.{proceed}
use connector_supabase.Reconciler.Resume.{
  fetch_slice, read_listed, resume_level, resume_entries, resume,
}
use connector_supabase.Reconciler.Store.{load, schedule}
use connector_supabase.Server.{
  Variables, Platform, Settings, missing, invalid_port, target_config, core_config, state_dir,
  journal_config, parse_u16, read_port, configure, start,
}
use connector_supabase.Server.Started.{required_names, IsStarted, start-IsStarted}
use connector_supabase.Slice.Digest
use connector_supabase.Slice.Digest.{desired_digest}
use connector_supabase.Slice.Parse.{
  exact_bytes, check_dependencies, parse_component, add_component, add_components, add_outputs,
  from_view, from_recovered,
}

-- The required variables alone are set.
abbrev vars : Variables
vars name = if any (str_eq name) required_names then some "basin" else none

abbrev s2 : S2Client
s2 = record {
  account_endpoint = λ text. none;
  basin_endpoint = λ text. none;
  endpoints = λ account basin. none;
  client = λ token. none;
  basin_name = λ text. none;
  stream_name = λ text. none;
}

abbrev platform : Platform
platform = record {
  init_logging = none;
  s2 = s2;
  parse_uri = λ text. none;
  create_dir_all = λ path. none;
  assemble = λ target opened core. outside;
  bind = λ address. none;
  cargo_pkg_version = "0.1.0";
}

abbrev settings : Settings
settings = record {
  target = target_config vars 5432;
  journal = record { basin_name = "basin"; stream_name = "connector-supabase-local-v1" };
  core = core_config vars;
  state_dir = state_dir vars;
}

started : (start vars platform env restarted).0 ≡ ok settings
unfolding start configure read_port parse_u16 parse_u64 parse_digits journal_config connect resume
    resume_entries read_listed load proceed resume_level fetch_slice from_recovered from_view
    exact_bytes add_components parse_component check_dependencies add_component add_outputs
    from_bytes validate_boundary validate_logical_id validate_schema insert Text.as_bytes schedule
    desired_digest Digest.desired_bytes Digest.component_bytes Digest.output_bytes Words.to_be_bytes
started = refl

start-IsStarted_example :
    IsStarted vars platform env settings
      (ok (graph_file desired.graph_id) ∷ ok other_file ∷ [])
      (start vars platform env restarted).1
start-IsStarted_example =
    start-IsStarted vars platform env restarted settings
      (ok (graph_file desired.graph_id) ∷ ok other_file ∷ []) every-IsFiled refl started

-- Nothing is set.
unset : (start (λ name. none) platform env restarted).0 ≡ err (missing "S2_ACCESS_TOKEN")
unfolding start configure read_port parse_u16 parse_u64 parse_digits journal_config
unset = refl

-- A port that needs more than 16 bits.
abbrev far : Variables
far name = if str_eq name "HENOSIS_SUPABASE_PORT" then some "65536" else vars name

refused_port : (start far platform env restarted).0 ≡ err (invalid_port "65536")
unfolding start configure read_port parse_u16 parse_u64 parse_digits
refused_port = refl
