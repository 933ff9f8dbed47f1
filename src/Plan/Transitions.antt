-- ===== src/Plan/Transitions.antt =====
-- The SQL transitions of a plan: those migrations of the slice that have no receipt, in order.
use connector_supabase.Common.{
  ℕ, ◌+◌, Option, none, some, String, List, [], ◌∷◌, ◌++◌, ◌≡◌, refl, sym, ◌∙◌, ap, Bytes, ok,
  if_keeps, str_eq, not, ◌||◌, all,
}
use mathlib.Core.List.{append_assoc, append-nil}
use connector_supabase.Common.Maps
use connector_supabase.Common.Maps.{Map}
use connector_supabase.Common.Sets.{contains, set_eq}
use connector_supabase.Context.{InputSlot, Migration}
use connector_supabase.External.{External}
use connector_supabase.Journal.{JournalSnapshot}
use connector_supabase.Json.{Json}
use connector_supabase.Plan.{
  Operation, establish_binding, ensure_metadata, ensure_schema, apply_migration, configure_api,
  PlannedOperation, PlanDiagnostic, ExecutablePlan, PlanContext,
}
use connector_supabase.Plan.Build.{
  api_operation, push_api, exposed_schemas, policies, add_api, draft_of, build_plan,
  desired_digest_text,
}
use connector_supabase.Plan.Draft.{
  Draft, empty, mutated_diagnostic, match_receipt, add_bindings, add_metadata, add_schema,
  add_migration, add_migrations, add_components,
}
use connector_supabase.Plan.Induction.{build_plan-operations}
use connector_supabase.Plan.Inputs.{
  Materialized, setting, published, materialize, materialize_from, materialize_inputs,
}
use connector_supabase.Slice.{ComponentPin, DesiredSlice}
use connector_supabase.Target.{ObservedTarget, migration_checksum}
use connector_supabase.Target.Satisfied.{policy_holds}

-- A transition: the resource, the schema, the migration and the settings that it runs with.
abbrev pub Transition : Type 0
Transition = String × String × Migration × Map String

abbrev transition_of : Operation → List Transition
transition_of (apply_migration resource_id schema migration inputs) =
    (resource_id, schema, migration, inputs) ∷ []
transition_of (establish_binding binding) = []
transition_of ensure_metadata = []
transition_of (ensure_schema resource_id schema) = []
transition_of (configure_api exposed_schemas policies) = []

-- The transitions among some operations, in their order.
abbrev pub transitions : List PlannedOperation → List Transition
transitions [] = []
transitions (planned ∷ operations) = transition_of planned.operation ++ transitions operations

transitions-append :
    (xs ys : List PlannedOperation) → transitions (xs ++ ys) ≡ transitions xs ++ transitions ys
transitions-append [] ys = refl
transitions-append (x ∷ xs) ys =
    ap (λ l. transition_of x.operation ++ l) (transitions-append xs ys)
    ∙ sym (append_assoc (transition_of x.operation) (transitions xs) (transitions ys))

-- An operation that is no transition adds none.
transitions-snoc :
    (xs : List PlannedOperation) (planned : PlannedOperation)
    → transition_of planned.operation ≡ []
    → transitions (xs ++ planned ∷ []) ≡ transitions xs
transitions-snoc xs planned e =
    transitions-append xs (planned ∷ []) ∙ rw e (append-nil (transitions xs))

module _ (env : External) (desired : DesiredSlice) where
  -- The settings that a migration's inputs materialize to.
  abbrev pub settings_of : Bytes → Migration → Map String
  settings_of hash migration = (materialize_inputs env desired hash migration [] []).settings

  settings-materialize :
      (hash : Bytes) (migration : Migration) (index : ℕ) (input : InputSlot)
      (value default : Option Json) (m n : Materialized)
      → m.settings ≡ n.settings
      → (materialize env hash migration index input value default m).settings
        ≡ (materialize env hash migration index input value default n).settings
  settings-materialize hash migration index input (some value) default m n e =
      ap (λ s. Maps.insert input.name (setting env value) s) e
  settings-materialize hash migration index input none (some default) m n e =
      ap (λ s. Maps.insert input.name (setting env default) s) e
  settings-materialize hash migration index input none none m n e = e

  -- The settings do not depend on what was pushed to the diagnostics before.
  settings-materialize_from :
      (hash : Bytes) (migration : Migration) (inputs : List InputSlot) (index : ℕ)
      (m n : Materialized)
      → m.settings ≡ n.settings
      → (materialize_from env desired hash migration index inputs m).settings
        ≡ (materialize_from env desired hash migration index inputs n).settings
  unfolding materialize_from
  settings-materialize_from hash migration [] index m n e = e
  settings-materialize_from hash migration (input ∷ inputs) index m n e =
      settings-materialize_from hash migration inputs (index + 1) _ _ (
        settings-materialize hash migration index input (published env desired input) input.default
          m n e)

  settings-materialize_inputs :
      (hash : Bytes) (migration : Migration) (diagnostics notices : List PlanDiagnostic)
      → (materialize_inputs env desired hash migration diagnostics notices).settings
        ≡ settings_of hash migration
  unfolding materialize_inputs
  settings-materialize_inputs hash migration diagnostics notices =
      settings-materialize_from hash migration migration.inputs 0 _ _ refl

  module _ (observed : ObservedTarget) where
    abbrev pending_migration : ComponentPin → Migration → Option String → List Transition
    pending_migration component migration none =
        (
          component.context.resource_id,
          component.context.target.schema,
          migration,
          settings_of component.spec_hash migration,
        )
        ∷ []
    pending_migration component migration (some checksum) = []

    -- The migrations of a component that have no receipt, in their order.
    abbrev pub pending_of : ComponentPin → List Migration → List Transition
    pending_of component [] = []
    pending_of component (migration ∷ migrations) =
        pending_migration component migration
          (migration_checksum observed component.context.resource_id migration.id)
        ++ pending_of component migrations

    abbrev pub pending : List ComponentPin → List Transition
    pending [] = []
    pending (component ∷ components) =
        pending_of component component.context.migrations ++ pending components

  module _ (digest : String) (observed : ObservedTarget) where
    transitions-match_receipt :
        (component : ComponentPin) (migration : Migration) (inputs : Map String) (draft : Draft)
        (receipt : Option String)
        → inputs ≡ settings_of component.spec_hash migration
        → transitions
            (match_receipt env desired digest component migration inputs draft receipt).operations
          ≡ transitions draft.operations ++ pending_migration observed component migration receipt
    transitions-match_receipt component migration inputs draft none e =
        rw e (transitions-append draft.operations _)
    transitions-match_receipt component migration inputs draft (some checksum) e =
        if_keeps (λ d. transitions d.operations ≡ transitions draft.operations ++ [])
          (str_eq checksum migration.checksum) draft
          (record draft {
            diagnostics = draft.diagnostics ++ mutated_diagnostic component migration checksum ∷ [];
          })
          (λ _. sym (append-nil _)) (λ _. sym (append-nil _))

    transitions-add_migrations :
        (component : ComponentPin) (migrations : List Migration) (draft : Draft)
        → transitions
            (add_migrations env desired digest observed component draft migrations).operations
          ≡ transitions draft.operations ++ pending_of observed component migrations
    unfolding add_migrations add_migration
    transitions-add_migrations component [] draft = sym (append-nil _)
    transitions-add_migrations component (migration ∷ migrations) draft =
        let m =
          materialize_inputs env desired component.spec_hash migration draft.diagnostics
            draft.notices in
        transitions-add_migrations component migrations
          (add_migration env desired digest observed component draft migration)
        ∙ ap (λ l. l ++ pending_of observed component migrations)
            (transitions-match_receipt component migration m.settings
              (record draft { diagnostics = m.diagnostics; notices = m.notices })
              (migration_checksum observed component.context.resource_id migration.id)
              (settings-materialize_inputs component.spec_hash migration draft.diagnostics
                draft.notices))
        ∙ append_assoc (transitions draft.operations) _ _

    transitions-add_components :
        (components : List ComponentPin) (draft : Draft)
        → transitions (add_components env desired digest observed draft components).operations
          ≡ transitions draft.operations ++ pending observed components
    unfolding add_components add_schema
    transitions-add_components [] draft = sym (append-nil _)
    transitions-add_components (component ∷ components) draft =
        let first = add_schema env desired digest observed component draft in
        let schema =
          if_keeps (λ d. transitions d.operations ≡ transitions draft.operations)
            (contains component.context.target.schema observed.schemas) draft _ (λ _. refl)
            (λ _. transitions-snoc draft.operations _ refl) in
        transitions-add_components components
          (add_migrations env desired digest observed component first component.context.migrations)
        ∙ ap (λ l. l ++ pending observed components)
            (transitions-add_migrations component component.context.migrations first
              ∙ ap (λ l. l ++ pending_of observed component component.context.migrations) schema)
        ∙ append_assoc (transitions draft.operations) _ _

    transitions-add_bindings :
        (journal : JournalSnapshot) (components : List ComponentPin) (draft : Draft)
        → transitions (add_bindings env desired digest journal draft components).operations
          ≡ transitions draft.operations
    unfolding add_bindings
    transitions-add_bindings journal [] draft = refl
    transitions-add_bindings journal (component ∷ components) draft =
        transitions-add_bindings journal components _
        ∙ if_keeps (λ d. transitions d.operations ≡ transitions draft.operations)
            (Maps.contains_key component.context.resource_id journal.bindings) draft _ (λ _. refl)
            (λ _. transitions-snoc draft.operations _ refl)

    transitions-add_metadata :
        (draft : Draft)
        → transitions (add_metadata env desired digest observed draft).operations
          ≡ transitions draft.operations
    unfolding add_metadata
    transitions-add_metadata draft =
        if_keeps (λ d. transitions d.operations ≡ transitions draft.operations)
          observed.metadata_exists draft _ (λ _. refl)
          (λ _. transitions-snoc draft.operations _ refl)

    transitions-add_api :
        (journal : JournalSnapshot) (draft : Draft)
        → transitions (add_api env desired journal observed digest draft).operations
          ≡ transitions draft.operations
    unfolding add_api
    transitions-add_api journal draft =
        let exposed = exposed_schemas desired journal observed in
        if_keeps (λ d. transitions d.operations ≡ transitions draft.operations)
          (not (set_eq exposed observed.exposed_schemas)
            || not (all (policy_holds observed) (policies desired)))
          (push_api env desired observed digest exposed draft) draft
          (λ _.
            transitions-snoc draft.operations
              (api_operation env desired observed digest draft.last_by_resource exposed) refl)
          (λ _. refl)

module _ (env : External) (desired : DesiredSlice) (journal : JournalSnapshot)
    (observed : ObservedTarget) where
  transitions-draft_of :
      transitions (draft_of env desired journal observed).operations
      ≡ pending env desired observed desired.components
  unfolding draft_of
  transitions-draft_of =
      let digest = desired_digest_text env desired in
      let first = add_bindings env desired digest journal empty desired.components in
      let second = add_metadata env desired digest observed first in
      transitions-add_api env desired digest observed journal
        (add_components env desired digest observed second desired.components)
      ∙ transitions-add_components env desired digest observed desired.components second
      ∙ ap (λ l. l ++ pending env desired observed desired.components)
          (transitions-add_metadata env desired digest observed first
            ∙ transitions-add_bindings env desired digest observed journal desired.components empty)

  -- The transitions of a plan that `build_plan` returns are exactly the migrations that have no
  -- receipt: each once, component after component, in the order in which the component lists them,
  -- with the component's resource and schema and with the settings of their inputs.
  pub build_plan-transitions :
      (context : PlanContext) {plan : ExecutablePlan}
      → build_plan env desired journal observed context ≡ ok plan
      → transitions plan.operations ≡ pending env desired observed desired.components
  build_plan-transitions context h =
      ap transitions (build_plan-operations env desired journal observed context h)
      ∙ transitions-draft_of
