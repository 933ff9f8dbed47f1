-- ===== src/Plan/Tests.antt =====
-- Runs of the planner, and its theorems at concrete inputs.
use connector_supabase.Common.{
  Option, none, some, [], ◌∷◌, ◌≡◌, ◌↔◌, ◌⊎◌, ◌||◌, ◌&&◌, not, refl, true, Bytes, ok, All, map,
  bytes_eq, if◌then◌else◌, str_eq,
}
use connector_supabase.Common.Sets.{contains}
use connector_supabase.Common.Text
use connector_supabase.Target.Digest
use connector_supabase.Common.Digests.{Collision}
use connector_supabase.Common.Decimal.{parse_digits, parse_u64}
use connector_supabase.Fixtures.{
  env, desired, journal, observed, converged, bound_journal, plan_context, read-write,
}
use connector_supabase.Plan.{PlannedOperation, PlanPayload, ExecutablePlan}
use connector_supabase.Plan.Acceptance.{AllAcceptable, build_plan-ok_iff}
use connector_supabase.Plan.Build.{draft_of, plan_of, build_plan, exposed_schemas, is_bound_schema}
use connector_supabase.Plan.Converged.{IsConverged, build_plan-empty_iff}
use connector_supabase.Plan.Digest.{payload, verify_digest, refresh_id}
use connector_supabase.Plan.Exposure.{exposed_by, contains-exposed_schemas}
use connector_supabase.Plan.Identity.{build_plan-verify_digest, verify_digest-eq}
use connector_supabase.Journal.{Binding}
use connector_supabase.Common.Maps
use connector_supabase.Plan.Outputs.{outputs_of, build_plan-contract_outputs}
use connector_supabase.Plan.Digest.{contract_outputs}
use connector_supabase.Plan.Ownership.{IsPlannable, validate_desired-eq-nil}
use connector_supabase.Plan.Validate.{validate_desired}
use connector_supabase.Plan.Order.{DependsOnEarlier, build_plan-DependsOnEarlier}
use connector_supabase.Plan.Pending.{IsPending, build_plan-IsPending}
use connector_supabase.Plan.Transitions.{transitions, pending, build_plan-transitions}

abbrev plan : ExecutablePlan
plan =
    refresh_id env
      (plan_of env desired observed plan_context (draft_of env desired journal observed))

plan_is_built : build_plan env desired journal observed plan_context ≡ ok plan
unfolding build_plan draft_of
plan_is_built = refl

addresses : map (λ (o : PlannedOperation). o.address) plan.operations ≡ (
    "binding.catalog" ∷ "database.henosis_connector.migration_receipts" ∷ "schema.catalog"
    ∷ "schema.catalog.migration.202607130001_create_items" ∷ "postgrest.exposed-schemas" ∷ [])
unfolding refresh_id draft_of
addresses = refl

-- The second plan is empty.
abbrev final : ExecutablePlan
final =
    refresh_id env
      (plan_of env desired converged plan_context (draft_of env desired bound_journal converged))

final_is_built : build_plan env desired bound_journal converged plan_context ≡ ok final
unfolding build_plan draft_of
final_is_built = refl

final_operations : final.operations ≡ []
unfolding refresh_id draft_of
final_operations = refl

build_plan-IsPending_example : All (IsPending observed) plan.operations
build_plan-IsPending_example =
    build_plan-IsPending env desired journal observed plan_context plan_is_built

build_plan-empty_iff_example : (final.operations ≡ []) ↔ IsConverged desired bound_journal converged
build_plan-empty_iff_example =
    build_plan-empty_iff env desired bound_journal converged plan_context final_is_built

is_converged : IsConverged desired bound_journal converged
is_converged =
    (build_plan-empty_iff env desired bound_journal converged plan_context final_is_built).0
      final_operations

build_plan-DependsOnEarlier_example : DependsOnEarlier [] plan.operations
build_plan-DependsOnEarlier_example =
    build_plan-DependsOnEarlier env desired journal observed plan_context plan_is_built

build_plan-ok_iff_example :
    ((p : ExecutablePlan) × (build_plan env desired journal observed plan_context ≡ ok p))
    ↔ AllAcceptable env desired observed desired.components
build_plan-ok_iff_example = build_plan-ok_iff env desired journal observed plan_context

build_plan-transitions_example :
    transitions plan.operations ≡ pending env desired observed desired.components
build_plan-transitions_example =
    build_plan-transitions env desired journal observed plan_context plan_is_built

build_plan-verify_digest_example : verify_digest env plan ≡ true
build_plan-verify_digest_example =
    build_plan-verify_digest env desired journal observed plan_context plan_is_built

contains-exposed_schemas_example : contains "catalog" (exposed_schemas desired journal observed) ≡ (
    exposed_by "catalog" desired.components
    || (str_eq "catalog" "public"
        || contains "catalog" observed.exposed_schemas && not (is_bound_schema journal "catalog")))
contains-exposed_schemas_example = contains-exposed_schemas desired journal observed "catalog"

overflowing : parse_u64 "+18446744073709551616" ≡ none
unfolding parse_u64 parse_digits
overflowing = refl

-- Another plan, which has the identity of the first since the digest is the length.
abbrev other : ExecutablePlan
other = record plan { observed_digest = "another-digest-x" }

abbrev parse : Bytes → Option PlanPayload
parse bytes =
    if bytes_eq bytes (env.payload_bytes (payload plan))
    then some (payload plan)
    else some (payload other)

verify_digest-eq_example : (plan ≡ other) ⊎ Collision env.sha256
unfolding refresh_id draft_of build_plan payload verify_digest Text.as_bytes Digest.observed_digest
verify_digest-eq_example = verify_digest-eq env read-write parse plan other refl refl refl refl refl

validate_desired-eq-nil_example : (validate_desired env desired bound_journal ≡ []) ↔ (
    All
      (λ (b : Binding). b.graph_id ≡ env.hex_encode desired.graph_id)
      (Maps.values bound_journal.bindings)
    × All (IsPlannable env (env.hex_encode desired.graph_id) bound_journal) desired.components)
validate_desired-eq-nil_example = validate_desired-eq-nil env desired bound_journal

build_plan-contract_outputs_example :
    contract_outputs env final
    ≡ some (map (outputs_of env read-write plan_context) desired.components)
build_plan-contract_outputs_example =
    build_plan-contract_outputs env read-write desired bound_journal converged plan_context
      final_is_built
