-- ===== src/Plan/Draft.antt =====
-- The first three loops of `build_plan` in plan.rs, over the variables that they change: bindings,
-- the receipt ledger, and the schemas with their migrations.
use connector_supabase.Common.{
  ℕ, ◌+◌, Bool, true, false, Option, none, some, String, List, [], ◌∷◌, ◌++◌, map, filter, lit,
  debug, str_eq, format, if◌then◌else◌,
}
use connector_supabase.Common.Decimal.{to_string}
use connector_supabase.Common.Maps
use connector_supabase.Common.Maps.{Map}
use connector_supabase.Common.Sets.{contains}
use connector_supabase.Common.Text.{as_bytes}
use connector_supabase.Context.{ComponentContext, Migration}
use connector_supabase.External.{External}
use connector_supabase.Journal.{Binding, JournalSnapshot}
use connector_supabase.Json.{null, text, object, field, close}
use connector_supabase.Plan.{
  Operation, establish_binding, ensure_metadata, ensure_schema, apply_migration, configure_api,
  PlannedOperation, PlanDiagnostic, reconciled_object, ordered_transition, create, bind, transition,
  non_destructive,
}
use connector_supabase.Plan.Inputs.{materialize_inputs}
use connector_supabase.Slice.{ComponentPin, DesiredSlice}
use connector_supabase.Target.{ObservedTarget, migration_checksum}

-- The mutable variables of `build_plan`.
pub record Draft : Type 0 where
  pub operations : List PlannedOperation
  pub last_by_resource : Map String
  pub diagnostics : List PlanDiagnostic
  pub notices : List PlanDiagnostic

abbrev pub empty : Draft
empty = record { operations = []; last_by_resource = []; diagnostics = []; notices = [] }

-- `last_by_resource.get(…).cloned().into_iter().collect()`.
abbrev pub listed : Option String → List String
listed none = []
listed (some id) = id ∷ []

-- `operations.push(…)`, then `last_by_resource.insert(resource_id, id)`.
abbrev pub push : Draft → String → PlannedOperation → Draft
push draft resource_id planned = record draft {
  operations = draft.operations ++ planned ∷ [];
  last_by_resource = Maps.insert resource_id planned.id draft.last_by_resource;
}

-- `matches!(operation.operation, Operation::EstablishBinding { .. })`.
abbrev pub is_establish_binding : PlannedOperation → Bool
is_establish_binding planned = elim planned.operation [
  | establish_binding binding ↦ true
  | ensure_metadata ↦ false
  | ensure_schema resource_id schema ↦ false
  | apply_migration resource_id schema migration inputs ↦ false
  | configure_api exposed_schemas policies ↦ false
]

-- `migrations.iter().position(|candidate| candidate.id == id).unwrap_or_default()`.
abbrev pub position : String → ℕ → List Migration → ℕ
position id index [] = 0
position id index (candidate ∷ migrations) =
    if str_eq candidate.id id then index else position id (index + 1) migrations

abbrev pub binding_of : String → ComponentContext → Binding
binding_of graph_id context = record {
  graph_id = graph_id;
  resource_id = context.resource_id;
  project = context.target.project;
  database = context.target.database;
  schema = context.target.schema;
}

abbrev pub mutated_diagnostic : ComponentPin → Migration → String → PlanDiagnostic
mutated_diagnostic component migration checksum = record {
  component_spec_hash = component.spec_hash;
  code = "supabase.plan.migration-mutated";
  message =
      lit "migration "
      ∷ debug migration.id
      ∷ lit " was applied with checksum "
      ∷ debug checksum
      ∷ lit ", but desired declares "
      ∷ debug migration.checksum
      ∷ [];
  pointer = format (
      "/migrations/"
      ∷ to_string (position migration.id 0 component.context.migrations)
      ∷ "/checksum"
      ∷ []);
  help = "Never edit an applied migration ID; append a new corrective migration.";
  informational = false;
}

-- The insertions of one id at the resource of each component.
abbrev pub set_last : String → Map String → List ComponentPin → Map String
set_last id last_by_resource [] = last_by_resource
set_last id last_by_resource (component ∷ components) =
    set_last id (Maps.insert component.context.resource_id id last_by_resource) components

module _ (env : External) where
  unfoldable pub operation_id : String → Operation → String
  operation_id desired_digest operation = format (
      "sha256:"
      ∷ env.hex_encode (
          env.sha256 (
            as_bytes "henosis.dev/supabase-operation/v1"
            ++ ((0 ∷ []) ++ (as_bytes desired_digest ++ env.operation_bytes operation))))
      ∷ [])

module _ (env : External) (desired : DesiredSlice) (desired_digest : String) where
  abbrev pub binding_operation : ComponentPin → PlannedOperation
  binding_operation component =
      let binding = binding_of (env.hex_encode desired.graph_id) component.context in
      let operation = establish_binding binding in
      record {
        id = operation_id env desired_digest operation;
        address = format ("binding." ∷ component.context.resource_id ∷ []);
        component_scopes = env.hex_encode component.spec_hash ∷ [];
        execution_class = reconciled_object;
        action = bind;
        before = null;
        after = env.binding_value binding;
        destructive_level = non_destructive;
        dependencies = [];
        preconditions = (lit "resourceId is unbound" ∷ []) ∷ [];
        operation = operation;
      }

  -- The first loop: a binding for each resource that has none.
  unfoldable pub add_bindings : JournalSnapshot → Draft → List ComponentPin → Draft
  add_bindings journal draft [] = draft
  add_bindings journal draft (component ∷ components) =
      add_bindings journal
        (if Maps.contains_key component.context.resource_id journal.bindings
          then draft
          else push draft component.context.resource_id (binding_operation component))
        components

  abbrev pub metadata_operation : Draft → PlannedOperation
  metadata_operation draft = record {
    id = operation_id env desired_digest ensure_metadata;
    address = "database.henosis_connector.migration_receipts";
    component_scopes =
        map (λ (component : ComponentPin). env.hex_encode component.spec_hash) desired.components;
    execution_class = reconciled_object;
    action = create;
    before = null;
    after = object (
        field "schema" (text "henosis_connector")
          (field "table" (text "migration_receipts") close));
    destructive_level = non_destructive;
    dependencies =
        map (λ (planned : PlannedOperation). planned.id)
          (filter is_establish_binding draft.operations);
    preconditions = (lit "receipt ledger does not exist" ∷ []) ∷ [];
    operation = ensure_metadata;
  }

  abbrev pub push_metadata : Draft → Draft
  push_metadata draft = record draft {
    operations = draft.operations ++ metadata_operation draft ∷ [];
    last_by_resource =
        set_last (operation_id env desired_digest ensure_metadata) draft.last_by_resource
          desired.components;
  }

  -- The receipt ledger, when it is not there.
  unfoldable pub add_metadata : ObservedTarget → Draft → Draft
  add_metadata observed draft = if observed.metadata_exists then draft else push_metadata draft

  abbrev pub schema_operation : Draft → ComponentPin → PlannedOperation
  schema_operation draft component =
      let schema = component.context.target.schema in
      let operation = ensure_schema component.context.resource_id schema in
      record {
        id = operation_id env desired_digest operation;
        address = format ("schema." ∷ schema ∷ []);
        component_scopes = env.hex_encode component.spec_hash ∷ [];
        execution_class = reconciled_object;
        action = create;
        before = null;
        after = object (field "schema" (text schema) close);
        destructive_level = non_destructive;
        dependencies = listed (Maps.get component.context.resource_id draft.last_by_resource);
        preconditions = (lit "schema does not exist" ∷ []) ∷ [];
        operation = operation;
      }

  unfoldable pub add_schema : ObservedTarget → ComponentPin → Draft → Draft
  add_schema observed component draft =
      if contains component.context.target.schema observed.schemas
      then draft
      else push draft component.context.resource_id (schema_operation draft component)

  abbrev pub migration_operation : Draft → ComponentPin → Migration → Map String → PlannedOperation
  migration_operation draft component migration inputs =
      let schema = component.context.target.schema in
      let operation = apply_migration component.context.resource_id schema migration inputs in
      record {
        id = operation_id env desired_digest operation;
        address = format ("schema." ∷ schema ∷ ".migration." ∷ migration.id ∷ []);
        component_scopes = env.hex_encode component.spec_hash ∷ [];
        execution_class = ordered_transition;
        action = transition;
        before = null;
        after = object (
            field "migrationId" (text migration.id)
              (field "checksum" (text migration.checksum) close));
        destructive_level = non_destructive;
        dependencies = listed (Maps.get component.context.resource_id draft.last_by_resource);
        preconditions =
            (lit "migration receipt " ∷ debug migration.id ∷ lit " is absent" ∷ []) ∷ [];
        operation = operation;
      }

  -- The `match` on the receipt of a migration, with its materialized inputs.
  abbrev pub match_receipt : ComponentPin → Migration → Map String → Draft → Option String → Draft
  match_receipt component migration inputs draft (some checksum) =
      if str_eq checksum migration.checksum then draft else record draft {
        diagnostics = draft.diagnostics ++ mutated_diagnostic component migration checksum ∷ [];
      }
  match_receipt component migration inputs draft none =
      push draft component.context.resource_id
        (migration_operation draft component migration inputs)

  unfoldable pub add_migration : ObservedTarget → ComponentPin → Draft → Migration → Draft
  unfolding materialize_inputs migration_checksum
  add_migration observed component draft migration =
      let m =
        materialize_inputs env desired component.spec_hash migration draft.diagnostics
          draft.notices in
      match_receipt component migration m.settings
        (record draft { diagnostics = m.diagnostics; notices = m.notices })
        (migration_checksum observed component.context.resource_id migration.id)

  unfoldable pub add_migrations : ObservedTarget → ComponentPin → Draft → List Migration → Draft
  unfolding add_migration
  add_migrations observed component draft [] = draft
  add_migrations observed component draft (migration ∷ migrations) =
      add_migrations observed component (add_migration observed component draft migration)
        migrations

  -- The second loop: the schema and the migrations of each component.
  unfoldable pub add_components : ObservedTarget → Draft → List ComponentPin → Draft
  unfolding add_schema add_migrations
  add_components observed draft [] = draft
  add_components observed draft (component ∷ components) =
      add_components observed
        (add_migrations observed component (add_schema observed component draft)
          component.context.migrations)
        components
