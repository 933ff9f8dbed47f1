-- ===== src/Plan/Acceptance.antt =====
-- When `build_plan` returns a plan, and when it refuses.
use connector_supabase.Common.{
  ℕ, ◌+◌, Bool, true, false, Option, none, some, String, List, [], ◌∷◌, ◌++◌, ◌≡◌, ◌↔◌, refl, Bytes,
  ok, All, if◌then◌else◌, if_keeps, str_eq, ◌≢◌, sym, ◌∙◌,
}
use connector_supabase.Common.Maps.{Map}
use connector_supabase.Context.{InputSlot, Migration}
use connector_supabase.External.{External}
use connector_supabase.Journal.{JournalSnapshot}
use connector_supabase.Json.{Json}
use connector_supabase.Plan.{PlanDiagnostic, ExecutablePlan, PlanContext}
use connector_supabase.Plan.Build.{draft_of, add_api, finish, build_plan, desired_digest_text}
use connector_supabase.Plan.Draft.{
  Draft, empty, add_bindings, add_metadata, add_schema, match_receipt, add_migration,
  add_migrations, add_components,
}
use connector_supabase.Plan.Inputs.{
  Materialized, published, materialize, materialize_from, materialize_inputs,
}
use connector_supabase.Slice.{ComponentPin, DesiredSlice}
use connector_supabase.Target.{ObservedTarget, migration_checksum}

-- An input has a value: its producer published one, or it declares a default.
abbrev pub has_value : Option Json → Option Json → Bool
has_value (some value) default = true
has_value none (some default) = true
has_value none none = false

-- A receipt of a migration, if there is one, has the declared checksum.
abbrev pub agrees : Migration → Option String → Bool
agrees migration none = true
agrees migration (some checksum) = str_eq checksum migration.checksum

snoc≢nil {ℓ} : {A : Type ℓ} (xs : List A) (x : A) → (xs ++ x ∷ []) ≢ []
snoc≢nil [] x h = cc
snoc≢nil (y ∷ xs) x h = cc

-- A diagnostic is pushed exactly when the test fails.
if_diagnostics :
    (b : Bool) (draft : Draft) (diagnostic : PlanDiagnostic)
    → ((if b
          then draft
          else record draft { diagnostics = draft.diagnostics ++ diagnostic ∷ [] }).diagnostics
        ≡ [])
      ↔ ((draft.diagnostics ≡ []) × (b ≡ true))
if_diagnostics true draft diagnostic = (λ e. (e, refl), λ p. p.0)
if_diagnostics false draft diagnostic =
    (λ e. absurd (snoc≢nil draft.diagnostics diagnostic e), λ p. cc (p.1))

module _ (env : External) (desired : DesiredSlice) where
  abbrev pub IsBound : InputSlot → Type 0
  IsBound input = has_value (published env desired input) input.default ≡ true

  materialize_lem :
      (hash : Bytes) (migration : Migration) (index : ℕ) (input : InputSlot)
      (value default : Option Json) (m : Materialized)
      → ((materialize env hash migration index input value default m).diagnostics ≡ [])
        ↔ ((m.diagnostics ≡ []) × (has_value value default ≡ true))
  materialize_lem hash migration index input (some value) default m = (λ e. (e, refl), λ p. p.0)
  materialize_lem hash migration index input none (some default) m = (λ e. (e, refl), λ p. p.0)
  materialize_lem hash migration index input none none m =
      (λ e. absurd (snoc≢nil m.diagnostics _ e), λ p. cc (p.1))

  materialize_from_lem :
      (hash : Bytes) (migration : Migration) (inputs : List InputSlot) (index : ℕ)
      (m : Materialized)
      → ((materialize_from env desired hash migration index inputs m).diagnostics ≡ [])
        ↔ ((m.diagnostics ≡ []) × All IsBound inputs)
  unfolding materialize_from
  materialize_from_lem hash migration [] index m = (λ e. (e, tt), λ p. p.0)
  materialize_from_lem hash migration (input ∷ inputs) index m =
      let value = published env desired input in
      let rest =
        materialize_from_lem hash migration inputs (index + 1)
          (materialize env hash migration index input value input.default m) in
      let here = materialize_lem hash migration index input value input.default m in
      (
        λ e. (((here.0 (rest.0 e).0).0), ((here.0 (rest.0 e).0).1, (rest.0 e).1)),
        λ p. rest.1 (here.1 (p.0, p.1.0), p.1.1),
      )

  module _ (observed : ObservedTarget) where
    -- The inputs of the migration have values, and it was not applied with another checksum.
    abbrev pub IsAcceptable : ComponentPin → Migration → Type 0
    IsAcceptable component migration =
        All IsBound migration.inputs
        × (agrees migration (migration_checksum observed component.context.resource_id migration.id)
            ≡ true)

    abbrev pub AllAcceptable : List ComponentPin → Type 0
    AllAcceptable = All (λ component. All (IsAcceptable component) component.context.migrations)

  module _ (digest : String) (observed : ObservedTarget) where
    match_receipt_lem :
        (component : ComponentPin) (migration : Migration) (inputs : Map String) (draft : Draft)
        (receipt : Option String)
        → ((match_receipt env desired digest component migration inputs draft receipt).diagnostics
            ≡ [])
          ↔ ((draft.diagnostics ≡ []) × (agrees migration receipt ≡ true))
    match_receipt_lem component migration inputs draft none = (λ e. (e, refl), λ p. p.0)
    match_receipt_lem component migration inputs draft (some checksum) =
        if_diagnostics (str_eq checksum migration.checksum) draft _

    add_migrations_lem :
        (component : ComponentPin) (migrations : List Migration) (draft : Draft)
        → ((add_migrations env desired digest observed component draft migrations).diagnostics ≡ [])
          ↔ ((draft.diagnostics ≡ []) × All (IsAcceptable observed component) migrations)
    unfolding add_migrations add_migration materialize_inputs
    add_migrations_lem component [] draft = (λ e. (e, tt), λ p. p.0)
    add_migrations_lem component (migration ∷ migrations) draft =
        let m =
          materialize_inputs env desired component.spec_hash migration draft.diagnostics
            draft.notices in
        let inputs =
          materialize_from_lem component.spec_hash migration migration.inputs 0
            (record { settings = []; diagnostics = draft.diagnostics; notices = draft.notices }) in
        let receipt =
          match_receipt_lem component migration m.settings
            (record draft { diagnostics = m.diagnostics; notices = m.notices })
            (migration_checksum observed component.context.resource_id migration.id) in
        let rest =
          add_migrations_lem component migrations
            (add_migration env desired digest observed component draft migration) in
        (
          λ e.
              let r = rest.0 e in
              let here = receipt.0 r.0 in
              let bound = inputs.0 here.0 in (bound.0, ((bound.1, here.1), r.1)),
          λ p. rest.1 (receipt.1 (inputs.1 (p.0, p.1.0.0), p.1.0.1), p.1.1),
        )

    add_schema_lem :
        (component : ComponentPin) (draft : Draft)
        → (add_schema env desired digest observed component draft).diagnostics ≡ draft.diagnostics
    unfolding add_schema
    add_schema_lem component draft =
        if_keeps (λ d. d.diagnostics ≡ draft.diagnostics) _ draft _ (λ _. refl) (λ _. refl)

    add_components_lem :
        (components : List ComponentPin) (draft : Draft)
        → ((add_components env desired digest observed draft components).diagnostics ≡ [])
          ↔ ((draft.diagnostics ≡ []) × AllAcceptable observed components)
    unfolding add_components
    add_components_lem [] draft = (λ e. (e, tt), λ p. p.0)
    add_components_lem (component ∷ components) draft =
        let first = add_schema env desired digest observed component draft in
        let same = add_schema_lem component draft in
        let here = add_migrations_lem component component.context.migrations first in
        let rest = add_components_lem components (
          add_migrations env desired digest observed component first
            component.context.migrations) in
        (
          λ e. let r = rest.0 e in let h = here.0 r.0 in (sym same ∙ h.0, (h.1, r.1)),
          λ p. rest.1 (here.1 (same ∙ p.0, p.1.0), p.1.1),
        )

    add_bindings_lem :
        (journal : JournalSnapshot) (components : List ComponentPin) (draft : Draft)
        → (add_bindings env desired digest journal draft components).diagnostics ≡ draft.diagnostics
    unfolding add_bindings
    add_bindings_lem journal [] draft = refl
    add_bindings_lem journal (component ∷ components) draft =
        add_bindings_lem journal components _
        ∙ if_keeps (λ d. d.diagnostics ≡ draft.diagnostics) _ draft _ (λ _. refl) (λ _. refl)

    add_metadata_lem :
        (draft : Draft)
        → (add_metadata env desired digest observed draft).diagnostics ≡ draft.diagnostics
    unfolding add_metadata
    add_metadata_lem draft =
        if_keeps (λ d. d.diagnostics ≡ draft.diagnostics) _ draft _ (λ _. refl) (λ _. refl)

    add_api_lem :
        (journal : JournalSnapshot) (draft : Draft)
        → (add_api env desired journal observed digest draft).diagnostics ≡ draft.diagnostics
    unfolding add_api
    add_api_lem journal draft =
        if_keeps (λ d. d.diagnostics ≡ draft.diagnostics) _ _ draft (λ _. refl) (λ _. refl)

module _ (env : External) (desired : DesiredSlice) (journal : JournalSnapshot)
    (observed : ObservedTarget) where
  pub draft_of-AllAcceptable :
      ((draft_of env desired journal observed).diagnostics ≡ [])
      ↔ AllAcceptable env desired observed desired.components
  unfolding draft_of
  draft_of-AllAcceptable =
      let digest = desired_digest_text env desired in
      let bound = add_bindings env desired digest journal empty desired.components in
      let ledger = add_metadata env desired digest observed bound in
      let start =
        add_metadata_lem env desired digest observed bound
        ∙ add_bindings_lem env desired digest observed journal desired.components empty in
      let work = add_components_lem env desired digest observed desired.components ledger in
      let api =
        add_api_lem env desired digest observed journal
          (add_components env desired digest observed ledger desired.components) in
      (λ e. (work.0 (sym api ∙ e)).1, λ p. api ∙ work.1 (start, p))

  finish_lem :
      (context : PlanContext) (draft : Draft) (diagnostics : List PlanDiagnostic)
      → ((plan : ExecutablePlan) × (finish env desired observed context draft diagnostics
            ≡ ok plan))
        ↔ (diagnostics ≡ [])
  finish_lem context draft [] = (λ p. refl, λ e. (_, refl))
  finish_lem context draft (d ∷ ds) = (λ p. cc (p.1), λ e. cc)

  -- `build_plan` returns a plan exactly when every input of every migration has a value (published
  -- by its producer, or a default), and no migration has a receipt with another checksum than the
  -- declared one. This holds of the migrations that are applied already, too.
  pub build_plan-ok_iff :
      (context : PlanContext)
      → ((plan : ExecutablePlan) × (build_plan env desired journal observed context ≡ ok plan))
        ↔ AllAcceptable env desired observed desired.components
  unfolding build_plan
  build_plan-ok_iff context =
      let draft = draft_of env desired journal observed in
      let finished = finish_lem context draft draft.diagnostics in
      (λ p. draft_of-AllAcceptable.0 (finished.0 p), λ a. finished.1 (draft_of-AllAcceptable.1 a))
