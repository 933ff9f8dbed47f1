-- ===== src/Plan/Induction.antt =====
-- Induction over the draft of a plan: a property that every push of `build_plan` keeps holds of the
-- whole proposal.
use connector_supabase.Common.{
  true, false, ◌||◌, not, Option, none, some, String, List, [], ◌∷◌, ◌≡◌, refl, ok, all, if_keeps,
  str_eq,
}
use connector_supabase.Common.Maps
use connector_supabase.Common.Maps.{Map}
use connector_supabase.Common.Sets.{contains, set_eq}
use connector_supabase.Context.{Migration}
use connector_supabase.External.{External}
use connector_supabase.Journal.{JournalSnapshot}
use connector_supabase.Plan.{PlanDiagnostic, ExecutablePlan, PlanContext}
use connector_supabase.Plan.Build.{
  push_api, add_api, exposed_schemas, policies, draft_of, finish, build_plan, desired_digest_text,
}
use connector_supabase.Plan.Digest.{refresh_id}
use connector_supabase.Plan.Draft.{
  Draft, push, empty, binding_operation, schema_operation, migration_operation, push_metadata,
  add_bindings, add_metadata, add_schema, match_receipt, add_migration, add_migrations,
  add_components,
}
use connector_supabase.Slice.{ComponentPin, DesiredSlice}
use connector_supabase.Target.{ObservedTarget, migration_checksum}
use connector_supabase.Target.Satisfied.{policy_holds}

module _ (env : External) (desired : DesiredSlice) (digest : String) (journal : JournalSnapshot)
    (observed : ObservedTarget) where
  -- The pushes, each under the test that guards it.
  pub record Keeps (P : Draft → Type 0) : Type 0 where
    pub on_binding :
        (component : ComponentPin) (draft : Draft)
        → Maps.contains_key component.context.resource_id journal.bindings ≡ false
        → P draft
        → P (
            push draft component.context.resource_id
              (binding_operation env desired digest component))
    pub on_metadata :
        (draft : Draft)
        → observed.metadata_exists ≡ false
        → P draft
        → P (push_metadata env desired digest draft)
    pub on_schema :
        (component : ComponentPin) (draft : Draft)
        → contains component.context.target.schema observed.schemas ≡ false
        → P draft
        → P (
            push draft component.context.resource_id
              (schema_operation env desired digest draft component))
    pub on_diagnostics :
        (draft : Draft) (diagnostics notices : List PlanDiagnostic)
        → P draft
        → P (record draft { diagnostics = diagnostics; notices = notices })
    pub on_migration :
        (component : ComponentPin) (migration : Migration) (inputs : Map String) (draft : Draft)
        → migration_checksum observed component.context.resource_id migration.id ≡ none
        → P draft
        → P (
            push draft component.context.resource_id
              (migration_operation env desired digest draft component migration inputs))
    pub on_api :
        (draft : Draft)
        → (not (set_eq (exposed_schemas desired journal observed) observed.exposed_schemas)
            || not (all (policy_holds observed) (policies desired)))
          ≡ true
        → P draft
        → P (push_api env desired observed digest (exposed_schemas desired journal observed) draft)

  module _ {P : Draft → Type 0} (k : Keeps P) where
    add_bindings-Keeps :
        (components : List ComponentPin) (draft : Draft)
        → P draft
        → P (add_bindings env desired digest journal draft components)
    unfolding add_bindings
    add_bindings-Keeps [] draft h = h
    add_bindings-Keeps (component ∷ components) draft h = add_bindings-Keeps components _ (
        if_keeps P (Maps.contains_key component.context.resource_id journal.bindings) draft _
          (λ _. h) (λ e. k.on_binding component draft e h))

    add_metadata-Keeps :
        (draft : Draft) → P draft → P (add_metadata env desired digest observed draft)
    unfolding add_metadata
    add_metadata-Keeps draft h =
        if_keeps P observed.metadata_exists draft _ (λ _. h) (λ e. k.on_metadata draft e h)

    add_schema-Keeps :
        (component : ComponentPin) (draft : Draft)
        → P draft
        → P (add_schema env desired digest observed component draft)
    unfolding add_schema
    add_schema-Keeps component draft h =
        if_keeps P (contains component.context.target.schema observed.schemas) draft _ (λ _. h)
          (λ e. k.on_schema component draft e h)

    match_receipt-Keeps :
        (component : ComponentPin) (migration : Migration) (inputs : Map String) (draft : Draft)
        (receipt : Option String)
        → migration_checksum observed component.context.resource_id migration.id ≡ receipt
        → P draft
        → P (match_receipt env desired digest component migration inputs draft receipt)
    match_receipt-Keeps component migration inputs draft none e h =
        k.on_migration component migration inputs draft e h
    match_receipt-Keeps component migration inputs draft (some checksum) e h =
        if_keeps P (str_eq checksum migration.checksum) draft _ (λ _. h)
          (λ _. k.on_diagnostics draft _ draft.notices h)

    add_migrations-Keeps :
        (component : ComponentPin) (migrations : List Migration) (draft : Draft)
        → P draft
        → P (add_migrations env desired digest observed component draft migrations)
    unfolding add_migrations add_migration
    add_migrations-Keeps component [] draft h = h
    add_migrations-Keeps component (migration ∷ migrations) draft h =
        add_migrations-Keeps component migrations _
          (match_receipt-Keeps component migration _ _ _ refl (k.on_diagnostics draft _ _ h))

    add_components-Keeps :
        (components : List ComponentPin) (draft : Draft)
        → P draft
        → P (add_components env desired digest observed draft components)
    unfolding add_components
    add_components-Keeps [] draft h = h
    add_components-Keeps (component ∷ components) draft h = add_components-Keeps components _ (
        add_migrations-Keeps component component.context.migrations _
          (add_schema-Keeps component draft h))

    add_api-Keeps :
        (draft : Draft) → P draft → P (add_api env desired journal observed digest draft)
    unfolding add_api
    add_api-Keeps draft h = if_keeps P _ _ draft (λ e. k.on_api draft e h) (λ _. h)

module _ (env : External) (desired : DesiredSlice) (journal : JournalSnapshot)
    (observed : ObservedTarget) where
  pub draft_of-Keeps :
      {P : Draft → Type 0}
      → Keeps env desired (desired_digest_text env desired) journal observed P
      → P empty
      → P (draft_of env desired journal observed)
  unfolding draft_of
  draft_of-Keeps k h =
      let digest = desired_digest_text env desired in
      add_api-Keeps env desired digest journal observed k _ (
        add_components-Keeps env desired digest journal observed k desired.components _ (
          add_metadata-Keeps env desired digest journal observed k _
            (add_bindings-Keeps env desired digest journal observed k desired.components empty h)))

  finish-operations :
      (context : PlanContext) (draft : Draft) (diagnostics : List PlanDiagnostic)
      {plan : ExecutablePlan}
      → finish env desired observed context draft diagnostics ≡ ok plan
      → plan.operations ≡ draft.operations
  unfolding refresh_id
  finish-operations context draft [] h = cc h
  finish-operations context draft (d ∷ ds) h = cc

  -- The operations of a plan are those of the draft.
  pub build_plan-operations :
      (context : PlanContext) {plan : ExecutablePlan}
      → build_plan env desired journal observed context ≡ ok plan
      → plan.operations ≡ (draft_of env desired journal observed).operations
  unfolding build_plan
  build_plan-operations context h =
      finish-operations context (draft_of env desired journal observed)
        (draft_of env desired journal observed).diagnostics h
