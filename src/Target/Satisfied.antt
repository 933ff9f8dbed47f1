-- ===== src/Target/Satisfied.antt =====
-- `Target::operation_satisfied` of target.rs: an operation's postcondition at an observation.
use connector_supabase.Common.{Bool, false, ◌&&◌, Option, none, some, String, all, str_eq, bool_eq}
use connector_supabase.Common.Maps
use connector_supabase.Common.Sets.{contains, collect, set_eq}
use connector_supabase.Context.{Migration, is_read}
use connector_supabase.Plan.{
  ApiPolicy, Operation, establish_binding, ensure_metadata, ensure_schema, apply_migration,
  configure_api,
}
use connector_supabase.Target.{ObservedTarget, migration_checksum}

-- Whether a schema's observed anonymous access is the one that the policy wants.
abbrev pub granted : Bool → Option Bool → Bool
granted wanted none = false
granted wanted (some actual) = bool_eq actual wanted

abbrev pub policy_holds : ObservedTarget → ApiPolicy → Bool
policy_holds observed policy =
    granted (policy.expose && is_read policy.anon_access)
      (Maps.get policy.schema observed.anon_read)

-- Whether a receipt with this checksum was found.
abbrev pub has_checksum : Migration → Option String → Bool
has_checksum migration none = false
has_checksum migration (some checksum) = str_eq checksum migration.checksum

unfoldable pub operation_satisfied : Operation → ObservedTarget → Bool
operation_satisfied (establish_binding binding) observed = false
operation_satisfied ensure_metadata observed = observed.metadata_exists
operation_satisfied (ensure_schema resource_id schema) observed = contains schema observed.schemas
operation_satisfied (apply_migration resource_id schema migration inputs) observed =
    has_checksum migration (migration_checksum observed resource_id migration.id)
operation_satisfied (configure_api exposed_schemas policies) observed =
    set_eq observed.exposed_schemas (collect exposed_schemas)
    && all (policy_holds observed) policies
