-- ===== src/Plan/Outputs.antt =====
-- What a plan of plan.rs publishes.
use connector_supabase.Common.{
  some, List, [], ◌∷◌, ◌≡◌, refl, sym, ◌∙◌, ap, map, Bytes, ok, ok-injective,
}
use connector_supabase.External.{External}
use connector_supabase.Journal.{JournalSnapshot}
use connector_supabase.Plan.{ExecutablePlan, PlanContext, PlanDiagnostic}
use connector_supabase.Plan.Build.{draft_of, output_of, finish, build_plan}
use connector_supabase.Plan.Digest.{
  ComponentOutputs, contract_outputs_of, contract_outputs, refresh_id,
}
use connector_supabase.Plan.Draft.{Draft}
use connector_supabase.Slice.{ComponentPin, DesiredSlice}
use connector_supabase.Target.{ObservedTarget}

module _ (env : External) (hex : (x : Bytes) → env.hex_decode (env.hex_encode x) ≡ some x) where
  -- The outputs of one component, under its own hash.
  abbrev pub outputs_of : PlanContext → ComponentPin → ComponentOutputs
  outputs_of context component = record {
    component_spec_hash = component.spec_hash;
    values_json = env.value_bytes (output_of env context component).values;
  }

  contract_outputs_of-map :
      (context : PlanContext) (components : List ComponentPin)
      → contract_outputs_of env (map (output_of env context) components)
        ≡ some (map (outputs_of context) components)
  unfolding contract_outputs_of
  contract_outputs_of-map context [] = refl
  contract_outputs_of-map context (component ∷ components) =
      rw (hex component.spec_hash, contract_outputs_of-map context components) refl

  finish-contract_outputs :
      (desired : DesiredSlice) (observed : ObservedTarget) (context : PlanContext) (draft : Draft)
      (diagnostics : List PlanDiagnostic) {plan : ExecutablePlan}
      → finish env desired observed context draft diagnostics ≡ ok plan
      → contract_outputs env plan ≡ some (map (outputs_of context) desired.components)
  unfolding contract_outputs refresh_id
  finish-contract_outputs desired observed context draft [] h =
      ap (contract_outputs env) (sym (ok-injective h))
      ∙ contract_outputs_of-map context desired.components
  finish-contract_outputs desired observed context draft (d ∷ ds) h = cc

  -- Where hexadecimal digits can be read back, `contract_outputs` of a plan that `build_plan` returns
  -- does not panic, and has the outputs of exactly the components of the slice, each under its own
  -- spec hash and in their order.
  pub build_plan-contract_outputs :
      (desired : DesiredSlice) (journal : JournalSnapshot) (observed : ObservedTarget)
      (context : PlanContext) {plan : ExecutablePlan}
      → build_plan env desired journal observed context ≡ ok plan
      → contract_outputs env plan ≡ some (map (outputs_of context) desired.components)
  unfolding build_plan
  build_plan-contract_outputs desired journal observed context h =
      finish-contract_outputs desired observed context (draft_of env desired journal observed) _ h
