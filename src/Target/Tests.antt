-- ===== src/Target/Tests.antt =====
-- Quoted texts and statements at concrete inputs.
use Prim.Native.String.{◌++◌ as append}
use connector_supabase.Common.{
  All, ◌||◌, true, str_eq, false, none, length, ok, some, [], ◌∷◌, ◌≡◌, refl,
}
use connector_supabase.Context.Boundary.{validate_boundary}
use connector_supabase.Context.Ids.{validate_logical_id, validate_schema}
use connector_supabase.Plan.Build.{exposed_schemas, policies}
use connector_supabase.Plan.Settled.{IsBounded, configure_api-settles}
use connector_supabase.Target.Connect.{TargetConfig, connect}
use connector_supabase.Target.Quoting.{read_opened, read_opened-quote}
use connector_supabase.Fixtures.{env, desired, bound_journal, plan_context}
use connector_supabase.Plan.{
  configure_api, ExecutablePlan, PlannedOperation, reconciled_object, create, non_destructive,
  ensure_metadata,
}
use connector_supabase.Plan.Build.{draft_of, plan_of}
use connector_supabase.Json.{null}
use connector_supabase.Target.Observed.{IsObservation, observe_with-IsObservation}
use connector_supabase.Target.Exposed.{IsName, parse_exposed-join}
use connector_supabase.Target.Satisfied.{operation_satisfied}
use connector_supabase.Target.Fresh.{Promise, apply-Promise}
use connector_supabase.Target.Transaction.{Database, apply}
use connector_supabase.Common.Maps
use connector_supabase.Common.Sets
use connector_supabase.Common.Text
use connector_supabase.Target.{ObservedTarget}
use connector_supabase.Target.Observe.{
  Client, access_query, schema_query, observe_with, observe_components, observe_component,
  parse_exposed,
}
use connector_supabase.Target.Sql.{statements, send, execute, quote_identifier, quote_literal, join}

quoted : quote_identifier "a\"; drop schema b; --" ≡ "\"a\"\"; drop schema b; --\""
unfolding quote_identifier
quoted = refl

joined : join ("catalog" ∷ "public" ∷ []) ≡ "catalog,public"
unfolding join
joined = refl

read_opened-quote_example :
    (read_opened b'"' (append (quote_identifier "a\"; drop schema b; --") "; revoke")
      ≡ some ("a\"; drop schema b; --", "; revoke"))
    × (read_opened 39 (append (quote_literal "a\"; drop schema b; --") "; revoke")
        ≡ some ("a\"; drop schema b; --", "; revoke"))
read_opened-quote_example = read_opened-quote "a\"; drop schema b; --" "; revoke" refl refl

abbrev operation : PlannedOperation
operation = record {
  id = "operation";
  address = "database.henosis_connector.migration_receipts";
  component_scopes = [];
  execution_class = reconciled_object;
  action = create;
  before = null;
  after = null;
  destructive_level = non_destructive;
  dependencies = [];
  preconditions = [];
  operation = ensure_metadata;
}

-- A target with one schema, which is not readable, and no ledger.
abbrev client : Client
client = record {
  query_texts = λ query. ok ("postgres", ("5", "170006"));
  query_truth = λ query parameters. ok (str_eq query schema_query);
  query_text = λ query. ok " catalog, public";
  query_rows = λ query. ok [];
}

abbrev seen : ObservedTarget
seen = record {
  identity = record { database = "postgres"; database_oid = "5"; server_version = "170006" };
  metadata_exists = false;
  schemas = "catalog" ∷ [];
  migrations = [];
  exposed_schemas = "catalog" ∷ "public" ∷ [];
  anon_read = ("catalog", false) ∷ [];
}

observed_once : observe_with client desired ≡ ok seen
unfolding observe_with observe_components observe_component parse_exposed Sets.insert Sets.collect
    Maps.insert Text.trim Text.split
observed_once = refl

abbrev plan : ExecutablePlan
plan = plan_of env desired seen plan_context (draft_of env desired bound_journal seen)

abbrev config : TargetConfig
config = record {
  host = "supabase-db";
  port = 5432;
  user = "postgres";
  database = "postgres";
  password_file = "/run/secrets/supabase-postgres-password";
  api_url = "http://127.0.0.1:4484";
  database_url_ref = "docker-secret://supabase-connection-url";
  anon_key_ref = "docker-secret://supabase-anon-key";
}

abbrev database : Database
database = record {
  config = config;
  read_to_string = λ sent path. ok "secret\n";
  dial = λ sent settings. none;
  start = none;
  lock = none;
  client = λ sent. client;
  run = λ sent statement. none;
  rollback = none;
  commit = λ sent. none;
}

one_statement : length (apply env database desired plan operation).sent ≡ 1
unfolding apply observe_with observe_components observe_component parse_exposed Sets.insert
    Sets.collect Maps.insert Text.trim Text.split execute send statements
    connector_supabase.Target.Digest.observed_digest connector_supabase.Common.Text.as_bytes connect
one_statement = refl

apply-Promise_example :
    Promise env database desired plan operation (apply env database desired plan operation)
apply-Promise_example = apply-Promise env database desired plan operation

observe_with-IsObservation_example : IsObservation client desired seen
observe_with-IsObservation_example = observe_with-IsObservation client desired seen observed_once

names : All IsName ("public" ∷ "catalog" ∷ [])
unfolding Text.trim
names = ((refl, (refl, refl)), ((refl, (refl, refl)), tt))

parse_exposed-join_example :
    parse_exposed (join ("public" ∷ "catalog" ∷ [])) ≡ Sets.collect ("public" ∷ "catalog" ∷ [])
parse_exposed-join_example = parse_exposed-join ("public" ∷ "catalog" ∷ []) names

-- The setting that the plan proposes at the first observation, and the grant.
abbrev written : Client
written = record client {
  query_truth = λ query parameters. ok (str_eq query schema_query || str_eq query access_query);
  query_text = λ query. ok (join (exposed_schemas desired bound_journal seen));
}

abbrev settled : ObservedTarget
settled = record seen { anon_read = ("catalog", true) ∷ [] }

observed_written : observe_with written desired ≡ ok settled
unfolding observe_with observe_components observe_component parse_exposed Sets.insert Sets.collect
    Maps.insert Text.trim Text.split join exposed_schemas
observed_written = refl

bounded : All IsBounded desired.components
unfolding validate_boundary validate_logical_id Text.as_bytes validate_schema
bounded = (refl, tt)

configure_api-settles_example :
    operation_satisfied
      (configure_api (exposed_schemas desired bound_journal seen) (policies desired))
      settled
    ≡ true
configure_api-settles_example =
    configure_api-settles desired bound_journal client written seen settled bounded observed_once
      observed_written refl (refl, tt)
