-- ===== src/Plan/Exposure.antt =====
-- The exposed schemas that a plan proposes: an ordered set, and what it contains.
use connector_supabase.Common.{
  Bool, false, ◌&&◌, ◌||◌, not, String, List, [], ◌∷◌, ◌≡◌, refl, inl, inr, arith, filter, str_eq,
  eq_iff, Bool-cases, if_keeps, ap,
}
use connector_supabase.Common.Sets.{
  collect, StringSet, insert, contains, IsOrdered, insert-IsOrdered, collect-IsOrdered,
  contains-insert, contains-collect,
}
use connector_supabase.Journal.{JournalSnapshot}
use connector_supabase.Plan.Build.{is_bound_schema, unmanaged, expose_all, exposed_schemas}
use connector_supabase.Slice.{ComponentPin, DesiredSlice}
use connector_supabase.Target.{ObservedTarget}

expose_all-IsOrdered :
    (components : List ComponentPin) (exposed : StringSet)
    → IsOrdered exposed
    → IsOrdered (expose_all exposed components)
unfolding expose_all
expose_all-IsOrdered [] exposed h = h
expose_all-IsOrdered (component ∷ components) exposed h = expose_all-IsOrdered components _ (
    if_keeps IsOrdered component.context.api.expose _ exposed
      (λ _. insert-IsOrdered component.context.target.schema exposed h) (λ _. h))

pub exposed_schemas-IsOrdered :
    (desired : DesiredSlice) (journal : JournalSnapshot) (observed : ObservedTarget)
    → IsOrdered (exposed_schemas desired journal observed)
unfolding exposed_schemas unmanaged
exposed_schemas-IsOrdered desired journal observed = expose_all-IsOrdered desired.components _ (
    insert-IsOrdered "public"
      (collect (filter (λ schema. not (is_bound_schema journal schema)) observed.exposed_schemas))
      (collect-IsOrdered
        (filter (λ schema. not (is_bound_schema journal schema)) observed.exposed_schemas)))

-- Whether some component of the slice exposes the schema.
abbrev pub exposed_by : String → List ComponentPin → Bool
exposed_by schema [] = false
exposed_by schema (component ∷ components) =
    component.context.api.expose && str_eq schema component.context.target.schema
    || exposed_by schema components

contains-expose_all :
    (schema : String) (components : List ComponentPin) (exposed : StringSet)
    → contains schema (expose_all exposed components)
      ≡ (exposed_by schema components || contains schema exposed)
unfolding expose_all
contains-expose_all schema [] exposed = refl
contains-expose_all schema (component ∷ components) exposed =
    elim (Bool-cases component.context.api.expose) [
      | inl e ↦ ground (
        arith,
        contains-expose_all schema components (insert component.context.target.schema exposed),
        contains-insert schema component.context.target.schema exposed,
      )
      | inr e ↦ ground (arith, contains-expose_all schema components exposed)
    ]

contains-filter :
    (p : String → Bool) (schema : String) (l : List String)
    → contains schema (filter p l) ≡ (contains schema l && p schema)
contains-filter p schema [] = refl
contains-filter p schema (s ∷ l) = elim (Bool-cases (str_eq schema s)) [
  | inl e ↦ ground (arith, contains-filter p schema l, ap p ((eq_iff schema s).0 e))
  | inr e ↦ ground (arith, contains-filter p schema l)
]

-- A schema is in the proposed set exactly when a component of the slice exposes it, or it is
-- `public`, or it is exposed already and no binding of the journal has it.
pub contains-exposed_schemas :
    (desired : DesiredSlice) (journal : JournalSnapshot) (observed : ObservedTarget)
    (schema : String)
    → contains schema (exposed_schemas desired journal observed) ≡ (
        exposed_by schema desired.components
        || (str_eq schema "public"
            || contains schema observed.exposed_schemas && not (is_bound_schema journal schema)))
unfolding exposed_schemas unmanaged
contains-exposed_schemas desired journal observed schema = rw (
  contains-expose_all,
  contains-insert,
  contains-collect,
  contains-filter (λ s. not (is_bound_schema journal s)) schema observed.exposed_schemas,
)
