-- ===== src/Plan/Converged.antt =====
-- A plan is empty exactly when the journal and the target are as desired.
use connector_supabase.Common.{
  str_eq, if_keeps, Bool, true, false, ◌||◌, not, Option, none, some, String, List, [], ◌∷◌, ◌++◌,
  ◌≡◌, ◌↔◌, ◌≢◌, refl, sym, ◌∙◌, ok, all, All, All-all, all-All, if◌then◌else◌,
}
use connector_supabase.Common.Maps
use connector_supabase.Common.Maps.{Map}
use connector_supabase.Common.Sets.{contains, set_eq, set_eq_iff}
use connector_supabase.Context.{Migration}
use connector_supabase.External.{External}
use connector_supabase.Journal.{JournalSnapshot}
use connector_supabase.Plan.{ExecutablePlan, PlanContext}
use connector_supabase.Plan.Acceptance.{agrees, IsAcceptable, AllAcceptable, build_plan-ok_iff}
use connector_supabase.Plan.Build.{
  add_api, exposed_schemas, policies, draft_of, build_plan, desired_digest_text,
}
use connector_supabase.Plan.Draft.{
  Draft, empty, mutated_diagnostic, match_receipt, add_bindings, add_metadata, add_schema,
  add_migration, add_migrations, add_components,
}
use connector_supabase.Plan.Induction.{build_plan-operations}
use connector_supabase.Plan.Inputs.{materialize_inputs}
use connector_supabase.Slice.{ComponentPin, DesiredSlice}
use connector_supabase.Target.{ObservedTarget, migration_checksum}
use connector_supabase.Target.Satisfied.{has_checksum, policy_holds}

abbrev pub IsBoundIn : JournalSnapshot → ComponentPin → Type 0
IsBoundIn journal component =
    Maps.contains_key component.context.resource_id journal.bindings ≡ true

abbrev pub IsApplied : ObservedTarget → ComponentPin → Migration → Type 0
IsApplied observed component migration =
    has_checksum migration (migration_checksum observed component.context.resource_id migration.id)
    ≡ true

-- The schema of the component exists, and each migration has a receipt with its checksum.
abbrev pub IsBuilt : ObservedTarget → ComponentPin → Type 0
IsBuilt observed component =
    (contains component.context.target.schema observed.schemas ≡ true)
    × All (IsApplied observed component) component.context.migrations

-- Everything that the slice asks for is there.
pub record IsConverged (desired : DesiredSlice) (journal : JournalSnapshot)
    (observed : ObservedTarget) : Type 0 where
  pub bound : All (IsBoundIn journal) desired.components
  pub ledger : observed.metadata_exists ≡ true
  pub built : All (IsBuilt observed) desired.components
  pub exposed : exposed_schemas desired journal observed ≡ observed.exposed_schemas
  pub granted : All (λ policy. policy_holds observed policy ≡ true) (policies desired)

snoc≢nil {ℓ} : {A : Type ℓ} (xs : List A) (x : A) → (xs ++ x ∷ []) ≢ []
snoc≢nil [] x h = cc
snoc≢nil (y ∷ xs) x h = cc

-- An operation is pushed exactly when the test fails.
if_operations :
    (b : Bool) (x y : Draft)
    → y.operations ≢ []
    → ((if b then x else y).operations ≡ []) ↔ ((x.operations ≡ []) × (b ≡ true))
if_operations true x y h = (λ e. (e, refl), λ p. p.0)
if_operations false x y h = (λ e. absurd (h e), λ p. cc (p.1))

if_api :
    (a b : Bool) (x y : Draft)
    → x.operations ≢ []
    → ((if not a || not b then x else y).operations ≡ [])
      ↔ ((y.operations ≡ []) × (a ≡ true) × (b ≡ true))
if_api true true x y h = (λ e. (e, refl, refl), λ p. p.0)
if_api true false x y h = (λ e. absurd (h e), λ p. cc (p.2))
if_api false b x y h = (λ e. absurd (h e), λ p. cc (p.1))

-- A receipt is there.
abbrev is_there : Option String → Bool
is_there none = false
is_there (some checksum) = true

abbrev HasReceipt : ObservedTarget → ComponentPin → Migration → Type 0
HasReceipt observed component migration =
    is_there (migration_checksum observed component.context.resource_id migration.id) ≡ true

abbrev IsProposed : ObservedTarget → ComponentPin → Type 0
IsProposed observed component =
    (contains component.context.target.schema observed.schemas ≡ true)
    × All (HasReceipt observed component) component.context.migrations

has_checksum-split :
    (migration : Migration) (receipt : Option String)
    → (has_checksum migration receipt ≡ true)
      ↔ ((is_there receipt ≡ true) × (agrees migration receipt ≡ true))
has_checksum-split migration none = (λ e. cc, λ p. cc (p.0))
has_checksum-split migration (some checksum) = (λ e. (refl, e), λ p. p.1)

module _ (env : External) (desired : DesiredSlice) (digest : String)
    (observed : ObservedTarget) where
  add_bindings_lem :
      (journal : JournalSnapshot) (components : List ComponentPin) (draft : Draft)
      → ((add_bindings env desired digest journal draft components).operations ≡ [])
        ↔ ((draft.operations ≡ []) × All (IsBoundIn journal) components)
  unfolding add_bindings
  add_bindings_lem journal [] draft = (λ e. (e, tt), λ p. p.0)
  add_bindings_lem journal (component ∷ components) draft =
      let rest = add_bindings_lem journal components _ in
      let here =
        if_operations (Maps.contains_key component.context.resource_id journal.bindings) draft _
          (snoc≢nil draft.operations _) in
      (
        λ e. let r = rest.0 e in let h = here.0 r.0 in (h.0, (h.1, r.1)),
        λ p. rest.1 (here.1 (p.0, p.1.0), p.1.1),
      )

  match_receipt_lem :
      (component : ComponentPin) (migration : Migration) (inputs : Map String) (draft : Draft)
      (receipt : Option String)
      → ((match_receipt env desired digest component migration inputs draft receipt).operations
          ≡ [])
        ↔ ((draft.operations ≡ []) × (is_there receipt ≡ true))
  match_receipt_lem component migration inputs draft none =
      (λ e. absurd (snoc≢nil draft.operations _ e), λ p. cc (p.1))
  match_receipt_lem component migration inputs draft (some checksum) =
      let same =
        if_keeps (λ d. d.operations ≡ draft.operations) (str_eq checksum migration.checksum) draft
          (record draft {
            diagnostics = draft.diagnostics ++ mutated_diagnostic component migration checksum ∷ [];
          })
          (λ _. refl) (λ _. refl) in
      (λ e. (sym same ∙ e, refl), λ p. same ∙ p.0)

  add_migrations_lem :
      (component : ComponentPin) (migrations : List Migration) (draft : Draft)
      → ((add_migrations env desired digest observed component draft migrations).operations ≡ [])
        ↔ ((draft.operations ≡ []) × All (HasReceipt observed component) migrations)
  unfolding add_migrations add_migration
  add_migrations_lem component [] draft = (λ e. (e, tt), λ p. p.0)
  add_migrations_lem component (migration ∷ migrations) draft =
      let m =
        materialize_inputs env desired component.spec_hash migration draft.diagnostics
          draft.notices in
      let here =
        match_receipt_lem component migration m.settings
          (record draft { diagnostics = m.diagnostics; notices = m.notices })
          (migration_checksum observed component.context.resource_id migration.id) in
      let rest =
        add_migrations_lem component migrations
          (add_migration env desired digest observed component draft migration) in
      (
        λ e. let r = rest.0 e in let h = here.0 r.0 in (h.0, (h.1, r.1)),
        λ p. rest.1 (here.1 (p.0, p.1.0), p.1.1),
      )

  add_components_lem :
      (components : List ComponentPin) (draft : Draft)
      → ((add_components env desired digest observed draft components).operations ≡ [])
        ↔ ((draft.operations ≡ []) × All (IsProposed observed) components)
  unfolding add_components add_schema
  add_components_lem [] draft = (λ e. (e, tt), λ p. p.0)
  add_components_lem (component ∷ components) draft =
      let first = add_schema env desired digest observed component draft in
      let schema =
        if_operations (contains component.context.target.schema observed.schemas) draft _
          (snoc≢nil draft.operations _) in
      let here = add_migrations_lem component component.context.migrations first in
      let rest =
        add_components_lem components (
          add_migrations env desired digest observed component first
            component.context.migrations) in
      (
        λ e.
            let r = rest.0 e in
            let h = here.0 r.0 in let s = schema.0 h.0 in (s.0, ((s.1, h.1), r.1)),
        λ p. rest.1 (here.1 (schema.1 (p.0, p.1.0.0), p.1.0.1), p.1.1),
      )

  add_metadata_lem :
      (draft : Draft)
      → ((add_metadata env desired digest observed draft).operations ≡ [])
        ↔ ((draft.operations ≡ []) × (observed.metadata_exists ≡ true))
  unfolding add_metadata
  add_metadata_lem draft =
      if_operations observed.metadata_exists draft _ (snoc≢nil draft.operations _)

  add_api_lem :
      (journal : JournalSnapshot) (draft : Draft)
      → ((add_api env desired journal observed digest draft).operations ≡ []) ↔ (
          (draft.operations ≡ [])
          × (set_eq (exposed_schemas desired journal observed) observed.exposed_schemas ≡ true)
          × (all (policy_holds observed) (policies desired) ≡ true))
  unfolding add_api
  add_api_lem journal draft = if_api _ _ _ draft (snoc≢nil draft.operations _)

module _ (env : External) (desired : DesiredSlice) (journal : JournalSnapshot)
    (observed : ObservedTarget) where
  -- Receipts that are there and agree are those with the declared checksum.
  IsApplied-iff :
      (component : ComponentPin) (migrations : List Migration)
      → All (IsAcceptable env desired observed component) migrations
      → All (HasReceipt observed component) migrations
        ↔ All (IsApplied observed component) migrations
  IsApplied-iff component [] a = (λ h. tt, λ h. tt)
  IsApplied-iff component (m ∷ migrations) a =
      let rest = IsApplied-iff component migrations a.1 in
      let receipt = migration_checksum observed component.context.resource_id m.id in
      (
        λ h. ((has_checksum-split m receipt).1 (h.0, a.0.1), rest.0 h.1),
        λ h. (((has_checksum-split m receipt).0 h.0).0, rest.1 h.1),
      )

  IsBuilt-iff :
      (components : List ComponentPin)
      → AllAcceptable env desired observed components
      → All (IsProposed observed) components ↔ All (IsBuilt observed) components
  IsBuilt-iff [] a = (λ h. tt, λ h. tt)
  IsBuilt-iff (component ∷ components) a =
      let here = IsApplied-iff component component.context.migrations a.0 in
      let rest = IsBuilt-iff components a.1 in
      (λ h. ((h.0.0, here.0 h.0.1), rest.0 h.1), λ h. ((h.0.0, here.1 h.0.1), rest.1 h.1))

  draft_of-IsConverged :
      AllAcceptable env desired observed desired.components
      → ((draft_of env desired journal observed).operations ≡ [])
        ↔ IsConverged desired journal observed
  unfolding draft_of
  draft_of-IsConverged a =
      let digest = desired_digest_text env desired in
      let first = add_bindings env desired digest journal empty desired.components in
      let second = add_metadata env desired digest observed first in
      let third = add_components env desired digest observed second desired.components in
      let bindings =
        add_bindings_lem env desired digest observed journal desired.components empty in
      let ledger = add_metadata_lem env desired digest observed first in
      let work = add_components_lem env desired digest observed desired.components second in
      let api = add_api_lem env desired digest observed journal third in
      let sets = set_eq_iff (exposed_schemas desired journal observed) observed.exposed_schemas in
      (
        λ e.
            let last = api.0 e in
            let w = work.0 last.0 in
            let l = ledger.0 w.0 in
            let b = bindings.0 l.0 in
            record {
              bound = b.1;
              ledger = l.1;
              built = (IsBuilt-iff desired.components a).0 w.1;
              exposed = sets.0 last.1;
              granted = all-All (policy_holds observed) (policies desired) last.2;
            },
        λ c. api.1 (
          work.1 (
            ledger.1 (bindings.1 (refl, c.bound), c.ledger),
            (IsBuilt-iff desired.components a).1 c.built,
          ),
          sets.1 c.exposed,
          All-all (policy_holds observed) (policies desired) c.granted,
        ),
      )

  -- A plan that `build_plan` returns is empty exactly when every resource of the slice is bound, the
  -- receipt ledger is there, every schema exists, every migration has a receipt with its declared
  -- checksum, the exposed schemas are the proposed ones, and every grant is as the policy wants.
  pub build_plan-empty_iff :
      (context : PlanContext) {plan : ExecutablePlan}
      → build_plan env desired journal observed context ≡ ok plan
      → (plan.operations ≡ []) ↔ IsConverged desired journal observed
  build_plan-empty_iff context {plan} h =
      let same = build_plan-operations env desired journal observed context h in
      let whole =
        draft_of-IsConverged
          ((build_plan-ok_iff env desired journal observed context).0 (plan, h)) in
      (λ e. whole.0 (sym same ∙ e), λ c. same ∙ whole.1 c)
