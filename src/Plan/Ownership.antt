-- ===== src/Plan/Ownership.antt =====
-- When `validate_desired` of plan.rs lets a slice pass.
use connector_supabase.Common.{
  not, Option, none, some, String, List, [], ◌∷◌, ◌≡◌, ◌↔◌, refl, arith, All, append-eq-nil_iff,
  map, find, str_eq, eq_iff,
}
use connector_supabase.Common.Maps
use connector_supabase.Common.Maps.{Map}
use connector_supabase.Context.Issues.{plan_issues}
use connector_supabase.External.{External}
use connector_supabase.Journal.{Binding, JournalSnapshot}
use connector_supabase.Plan.Validate.{
  conflict_of, owned_diagnostics, conflict_diagnostics, component_diagnostics, all_diagnostics,
  validate_desired,
}
use connector_supabase.Slice.{ComponentPin, DesiredSlice}

-- The binding of the component's resource, where there is one, is the component's own.
abbrev pub IsOwn : String → ComponentPin → Option Binding → Type 0
IsOwn graph component none = Unit
IsOwn graph component (some binding) =
    (binding.graph_id ≡ graph)
    × ((binding.project ≡ component.context.target.project)
        × ((binding.database ≡ component.context.target.database)
            × (binding.schema ≡ component.context.target.schema)))

map-eq-nil : {A B : Type 0} (f : A → B) (xs : List A) → (map f xs ≡ []) ↔ (xs ≡ [])
map-eq-nil f [] = (λ e. refl, λ e. refl)
map-eq-nil f (x ∷ xs) = (λ e. cc, λ e. cc)

find_none :
    (graph : String) (bindings : List Binding)
    → (find (λ (b : Binding). not (str_eq b.graph_id graph)) bindings ≡ none)
      ↔ All (λ (b : Binding). b.graph_id ≡ graph) bindings
find_none graph [] = (λ e. tt, λ h. refl)
find_none graph (b ∷ bindings) =
    let rest = find_none graph bindings in
    let same = eq_iff b.graph_id graph in
    (
      λ e. (ground (arith, same), rest.0 (ground (arith, same))),
      λ h. ground (arith, same, rest.1 h.1, h.0),
    )

owned_diagnostics-eq-nil :
    (graph : String) (desired : DesiredSlice) (journal : JournalSnapshot)
    → (owned_diagnostics graph desired journal ≡ [])
      ↔ All (λ (b : Binding). b.graph_id ≡ graph) (Maps.values journal.bindings)
unfolding owned_diagnostics
owned_diagnostics-eq-nil graph desired journal =
    let found = find_none graph (Maps.values journal.bindings) in
    (λ e. found.0 (ground arith), λ h. ground (arith, found.1 h))

conflict_of-eq-nil :
    (graph : String) (component : ComponentPin) (bound : Option Binding)
    → (conflict_of graph component bound ≡ []) ↔ IsOwn graph component bound
conflict_of-eq-nil graph component none = (λ e. tt, λ h. refl)
conflict_of-eq-nil graph component (some b) = ground (
  arith,
  eq_iff b.graph_id graph,
  eq_iff b.project component.context.target.project,
  eq_iff b.database component.context.target.database,
  eq_iff b.schema component.context.target.schema,
)

conflict_diagnostics-eq-nil :
    (graph : String) (journal : JournalSnapshot) (component : ComponentPin)
    → (conflict_diagnostics graph journal component ≡ [])
      ↔ IsOwn graph component (Maps.get component.context.resource_id journal.bindings)
unfolding conflict_diagnostics
conflict_diagnostics-eq-nil graph journal component = conflict_of-eq-nil graph component _

module _ (env : External) where
  -- A component whose content can be planned and whose resource is its own.
  abbrev pub IsPlannable : String → JournalSnapshot → ComponentPin → Type 0
  IsPlannable graph journal component =
      (plan_issues env component.context ≡ [])
      × IsOwn graph component (Maps.get component.context.resource_id journal.bindings)

  all_diagnostics-eq-nil :
      (graph : String) (journal : JournalSnapshot) (components : List ComponentPin)
      → (all_diagnostics env graph journal components ≡ [])
        ↔ All (IsPlannable graph journal) components
  unfolding all_diagnostics component_diagnostics
  all_diagnostics-eq-nil graph journal [] = (λ e. tt, λ h. refl)
  all_diagnostics-eq-nil graph journal (component ∷ components) =
      let rest = all_diagnostics-eq-nil graph journal components in
      let own = conflict_diagnostics-eq-nil graph journal component in
      (
        λ e.
            let a = (append-eq-nil_iff _ _).0 e in
            let b = (append-eq-nil_iff _ _).0 a.0 in
            (((map-eq-nil _ _).0 b.0, own.0 b.1), rest.0 a.1),
        λ h.
            (append-eq-nil_iff _ _).1
              ((append-eq-nil_iff _ _).1 ((map-eq-nil _ _).1 h.0.0, own.1 h.0.1), rest.1 h.1),
      )

  -- `validate_desired` finds nothing exactly when every binding of the journal is of the slice's
  -- graph, no component has an issue of content, and the binding of each component's resource, where
  -- there is one, names the component's project, database and schema.
  pub validate_desired-eq-nil :
      (desired : DesiredSlice) (journal : JournalSnapshot)
      → (validate_desired env desired journal ≡ []) ↔ (
          All
            (λ (b : Binding). b.graph_id ≡ env.hex_encode desired.graph_id)
            (Maps.values journal.bindings)
          × All (IsPlannable (env.hex_encode desired.graph_id) journal) desired.components)
  unfolding validate_desired
  validate_desired-eq-nil desired journal =
      let graph = env.hex_encode desired.graph_id in
      let owned = owned_diagnostics-eq-nil graph desired journal in
      let rest = all_diagnostics-eq-nil graph journal desired.components in
      (
        λ e. let a = (append-eq-nil_iff _ _).0 e in (owned.0 a.0, rest.0 a.1),
        λ h. (append-eq-nil_iff _ _).1 (owned.1 h.0, rest.1 h.1),
      )
