-- ===== src/Plan/Build.antt =====
-- `build_plan` of plan.rs: the API configuration and the whole plan.
use connector_supabase.Common.{
  Bool, ◌||◌, not, String, List, [], ◌∷◌, ◌++◌, map, any, all, filter, Result, ok, err, lit, str_eq,
  format, if◌then◌else◌,
}
use connector_supabase.Common.Decimal.{to_string}
use connector_supabase.Common.Maps
use connector_supabase.Common.Maps.{Map}
use connector_supabase.Common.Sets.{StringSet, insert, collect, set_eq}
use connector_supabase.Common.Text.{trim_end_matches}
use connector_supabase.External.{External}
use connector_supabase.Journal.{Binding, JournalSnapshot}
use connector_supabase.Json.{bool, text, texts, object, Fields, field, close}
use connector_supabase.Plan.{
  api_version, policy_version, connector_name, ApiPolicy, configure_api, PlannedOperation,
  PlannedOutput, PlanDiagnostic, ExecutablePlan, PlanContext, reconciled_object, update,
  non_destructive,
}
use connector_supabase.Plan.Digest.{refresh_id}
use connector_supabase.Plan.Draft.{
  Draft, empty, operation_id, add_bindings, add_metadata, add_components,
}
use connector_supabase.Slice.{ComponentPin, DesiredSlice}
use connector_supabase.Slice.Digest.{desired_digest}
use connector_supabase.Target.{ObservedTarget}
use connector_supabase.Target.Digest.{observed_digest}
use connector_supabase.Target.Satisfied.{policy_holds}

-- Whether a schema is one that the journal has bound.
abbrev pub is_bound_schema : JournalSnapshot → String → Bool
is_bound_schema journal schema =
    any (λ (binding : Binding). str_eq binding.schema schema) (Maps.values journal.bindings)

-- The exposed schemas that the connector does not own, and `public`.
unfoldable pub unmanaged : JournalSnapshot → ObservedTarget → StringSet
unfolding insert collect
unmanaged journal observed =
    insert "public"
      (collect (filter (λ schema. not (is_bound_schema journal schema)) observed.exposed_schemas))

abbrev pub policy_of : ComponentPin → ApiPolicy
policy_of component = record {
  schema = component.context.target.schema;
  expose = component.context.api.expose;
  anon_access = component.context.api.anon_access;
}

-- The insertions that the closure makes while the policies are collected.
unfoldable pub expose_all : StringSet → List ComponentPin → StringSet
unfolding insert
expose_all exposed [] = exposed
expose_all exposed (component ∷ components) =
    expose_all
      (if component.context.api.expose
        then insert component.context.target.schema exposed
        else exposed)
      components

unfoldable pub exposed_schemas : DesiredSlice → JournalSnapshot → ObservedTarget → StringSet
unfolding unmanaged expose_all
exposed_schemas desired journal observed =
    expose_all (unmanaged journal observed) desired.components

abbrev pub policies : DesiredSlice → List ApiPolicy
policies desired = map policy_of desired.components

abbrev pub owned_schemas : DesiredSlice → StringSet
owned_schemas desired =
    collect (map (λ (component : ComponentPin). component.context.target.schema) desired.components)

-- A `BTreeMap<String, bool>` as a JSON object.
abbrev pub bool_fields : Map Bool → Fields
bool_fields [] = close
bool_fields ((k, b) ∷ m) = field k (bool b) (bool_fields m)

module _ (env : External) where
  abbrev pub api_operation :
      DesiredSlice → ObservedTarget → String → Map String → StringSet → PlannedOperation
  api_operation desired observed digest last_by_resource exposed =
      let operation = configure_api exposed (policies desired) in
      record {
        id = operation_id env digest operation;
        address = "postgrest.exposed-schemas";
        component_scopes =
            map (λ (component : ComponentPin). env.hex_encode component.spec_hash)
              desired.components;
        execution_class = reconciled_object;
        action = update;
        before = object (
            field "exposedSchemas" (texts observed.exposed_schemas)
              (field "anonRead" (object (bool_fields observed.anon_read)) close));
        after = object (
            field "exposedSchemas" (texts exposed)
              (field "anonReadSchemas" (texts (owned_schemas desired)) close));
        destructive_level = non_destructive;
        dependencies = Maps.values last_by_resource;
        preconditions = (lit "PostgREST configuration matches observed digest" ∷ []) ∷ [];
        operation = operation;
      }

  abbrev pub push_api : DesiredSlice → ObservedTarget → String → StringSet → Draft → Draft
  push_api desired observed digest exposed draft = record draft {
    operations =
        draft.operations
        ++ api_operation desired observed digest draft.last_by_resource exposed ∷ [];
  }

  unfoldable pub add_api : DesiredSlice → JournalSnapshot → ObservedTarget → String → Draft → Draft
  unfolding exposed_schemas
  add_api desired journal observed digest draft =
      let exposed = exposed_schemas desired journal observed in
      if not (set_eq exposed observed.exposed_schemas)
        || not (all (policy_holds observed) (policies desired))
      then push_api desired observed digest exposed draft
      else draft

  -- `format!("blake3:{}", hex::encode(desired.desired_digest()))`.
  abbrev pub desired_digest_text : DesiredSlice → String
  desired_digest_text desired =
      format ("blake3:" ∷ env.hex_encode (desired_digest env desired) ∷ [])

  -- The operations, diagnostics and notices of the whole proposal.
  unfoldable pub draft_of : DesiredSlice → JournalSnapshot → ObservedTarget → Draft
  unfolding add_bindings add_metadata add_components add_api
  draft_of desired journal observed =
      let digest = desired_digest_text desired in
      add_api desired journal observed digest (
        add_components env desired digest observed
          (add_metadata env desired digest observed
            (add_bindings env desired digest journal empty desired.components))
          desired.components)

  abbrev pub output_of : PlanContext → ComponentPin → PlannedOutput
  output_of context component =
      let base = trim_end_matches b'/' context.api_url in
      record {
        component_spec_hash = env.hex_encode component.spec_hash;
        values = object (
            field "project" (text component.context.target.project) (
              field "database" (text component.context.target.database) (
                field "schema" (text component.context.target.schema) (
                  field "apiUrl" (text base) (
                    field "restUrl" (text (format (base ∷ "/rest/v1" ∷ []))) (
                      field "databaseUrlRef" (text context.database_url_ref)
                        (field "anonKeyRef" (text context.anon_key_ref) close)))))));
      }

  abbrev pub plan_of : DesiredSlice → ObservedTarget → PlanContext → Draft → ExecutablePlan
  plan_of desired observed context draft = record {
    plan_id = "";
    api_version = api_version;
    connector = connector_name;
    connector_build = context.connector_build;
    policy_version = policy_version;
    graph_id = env.hex_encode desired.graph_id;
    generation = to_string desired.generation;
    slice_sequence = to_string desired.sequence;
    target = "local/henosis-local/postgres";
    desired_digest = desired_digest_text desired;
    observed_digest = observed_digest env observed;
    journal_tail = to_string context.journal_tail_after_plan;
    operations = draft.operations;
    planned_outputs = map (output_of context) desired.components;
    notices = draft.notices;
  }

  abbrev pub finish :
      DesiredSlice
      → ObservedTarget
      → PlanContext
      → Draft
      → List PlanDiagnostic
      → Result ExecutablePlan (List PlanDiagnostic)
  finish desired observed context draft [] =
      ok (refresh_id env (plan_of desired observed context draft))
  finish desired observed context draft (diagnostic ∷ diagnostics) = err (diagnostic ∷ diagnostics)

  unfoldable pub build_plan :
      DesiredSlice
      → JournalSnapshot
      → ObservedTarget
      → PlanContext
      → Result ExecutablePlan (List PlanDiagnostic)
  unfolding refresh_id
  build_plan desired journal observed context =
      let draft = draft_of desired journal observed in
      finish desired observed context draft draft.diagnostics
