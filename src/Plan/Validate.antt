-- ===== src/Plan/Validate.antt =====
-- `validate_desired` of plan.rs: the content and ownership checks before any observation.
use connector_supabase.Common.{
  Bool, false, ◌||◌, not, Option, none, some, String, List, [], ◌∷◌, ◌++◌, Bytes, map, find, lit,
  shown, debug, str_eq, if◌then◌else◌,
}
use connector_supabase.Common.Maps
use connector_supabase.Context.{ComponentContext, PlanIssue}
use connector_supabase.Context.Issues.{plan_issues}
use connector_supabase.External.{External}
use connector_supabase.Journal.{Binding, JournalSnapshot}
use connector_supabase.Plan.{PlanDiagnostic}
use connector_supabase.Slice.{ComponentPin, DesiredSlice}

-- `[0; 32]`.
abbrev pub zero_hash : Bytes
zero_hash =
    0 ∷ 0 ∷ 0 ∷ 0 ∷ 0 ∷ 0 ∷ 0 ∷ 0 ∷ 0 ∷ 0 ∷ 0 ∷ 0 ∷ 0 ∷ 0 ∷ 0 ∷ 0 ∷ 0 ∷ 0 ∷ 0 ∷ 0 ∷ 0 ∷ 0 ∷ 0 ∷ 0
    ∷ 0 ∷ 0 ∷ 0 ∷ 0 ∷ 0 ∷ 0 ∷ 0 ∷ 0 ∷ []

abbrev pub first_hash : List ComponentPin → Bytes
first_hash [] = zero_hash
first_hash (component ∷ components) = component.spec_hash

abbrev pub owned_diagnostic : DesiredSlice → Binding → PlanDiagnostic
owned_diagnostic desired binding = record {
  component_spec_hash = first_hash desired.components;
  code = "supabase.plan.target-owned";
  message =
      lit "local Supabase target is already owned by graph "
      ∷ shown binding.graph_id
      ∷ lit " through resource "
      ∷ debug binding.resource_id
      ∷ [];
  pointer = "/target";
  help =
      "Retire/release the owning graph before assigning the exclusive v1 local target to another graph.";
  informational = false;
}

abbrev pub issue_diagnostic : Bytes → PlanIssue → PlanDiagnostic
issue_diagnostic spec_hash issue = record {
  component_spec_hash = spec_hash;
  code = issue.code;
  message = issue.message;
  pointer = issue.pointer;
  help = issue.help;
  informational = false;
}

abbrev pub conflict_diagnostic : Bytes → Binding → PlanDiagnostic
conflict_diagnostic spec_hash binding = record {
  component_spec_hash = spec_hash;
  code = "supabase.plan.binding-conflict";
  message =
      lit "resourceId "
      ∷ debug binding.resource_id
      ∷ lit " is already bound to "
      ∷ shown binding.project
      ∷ lit "/"
      ∷ shown binding.database
      ∷ lit "/"
      ∷ shown binding.schema
      ∷ lit " for graph "
      ∷ shown binding.graph_id
      ∷ [];
  pointer = "/resourceId";
  help =
      "Keep resourceId and target schema stable across revisions; ownership moves require an explicit future handover operation.";
  informational = false;
}

-- Whether a binding of a component's resource is for another graph or target.
abbrev pub conflicts : String → ComponentContext → Binding → Bool
conflicts graph context binding =
    not (str_eq binding.graph_id graph)
    || (not (str_eq binding.project context.target.project)
        || (not (str_eq binding.database context.target.database)
            || not (str_eq binding.schema context.target.schema)))

unfoldable pub owned_diagnostics : String → DesiredSlice → JournalSnapshot → List PlanDiagnostic
owned_diagnostics graph desired journal =
    elim (find (λ (binding : Binding). not (str_eq binding.graph_id graph))
      (Maps.values journal.bindings)) [
        | none ↦ []
        | some binding ↦ owned_diagnostic desired binding ∷ []
      ]

abbrev pub conflict_of : String → ComponentPin → Option Binding → List PlanDiagnostic
conflict_of graph component none = []
conflict_of graph component (some binding) =
    if conflicts graph component.context binding
    then conflict_diagnostic component.spec_hash binding ∷ []
    else []

unfoldable pub conflict_diagnostics : String → JournalSnapshot → ComponentPin → List PlanDiagnostic
conflict_diagnostics graph journal component =
    conflict_of graph component (Maps.get component.context.resource_id journal.bindings)

module _ (env : External) where
  unfoldable pub component_diagnostics :
      String → JournalSnapshot → ComponentPin → List PlanDiagnostic
  component_diagnostics graph journal component =
      map (issue_diagnostic component.spec_hash) (plan_issues env component.context)
      ++ conflict_diagnostics graph journal component

  unfoldable pub all_diagnostics :
      String → JournalSnapshot → List ComponentPin → List PlanDiagnostic
  all_diagnostics graph journal [] = []
  all_diagnostics graph journal (component ∷ components) =
      component_diagnostics graph journal component ++ all_diagnostics graph journal components

  unfoldable pub validate_desired : DesiredSlice → JournalSnapshot → List PlanDiagnostic
  validate_desired desired journal =
      let graph = env.hex_encode desired.graph_id in
      owned_diagnostics graph desired journal ++ all_diagnostics graph journal desired.components
