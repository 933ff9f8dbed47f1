-- ===== src/Plan/Order.antt =====
-- The order of a plan's operations: what an operation depends on stands before it.
use connector_supabase.Common.{
  Bool, true, String, List, [], ◌∷◌, ◌++◌, ◌≡◌, refl, arith, ok, map, filter, All, All-map,
  if_keeps, eq_refl, Option-cases, inl, inr,
}
use connector_supabase.Common.Maps
use connector_supabase.Common.Maps.{Map, insert-All, get-All}
use connector_supabase.Common.Sets.{contains}
use connector_supabase.External.{External}
use connector_supabase.Journal.{JournalSnapshot}
use connector_supabase.Plan.{PlannedOperation, ExecutablePlan, PlanContext}
use connector_supabase.Plan.Build.{build_plan}
use connector_supabase.Plan.Draft.{Draft, listed, set_last}
use connector_supabase.Plan.Induction.{Keeps, draft_of-Keeps, build_plan-operations}
use connector_supabase.Slice.{ComponentPin, DesiredSlice}
use connector_supabase.Target.{ObservedTarget}

abbrev pub IsIn : List String → String → Type 0
IsIn seen id = contains id seen ≡ true

-- Every dependency is the id of an operation that stands earlier in the list, or was seen before.
abbrev pub DependsOnEarlier : List String → List PlannedOperation → Type 0
DependsOnEarlier seen [] = Unit
DependsOnEarlier seen (planned ∷ operations) =
    All (IsIn seen) planned.dependencies × DependsOnEarlier (planned.id ∷ seen) operations

-- What has been seen after a list of operations.
abbrev seen_after : List PlannedOperation → List String → List String
seen_after [] seen = seen
seen_after (planned ∷ operations) seen = seen_after operations (planned.id ∷ seen)

seen_after-snoc :
    (operations : List PlannedOperation) (planned : PlannedOperation) (seen : List String)
    → seen_after (operations ++ planned ∷ []) seen ≡ planned.id ∷ seen_after operations seen
seen_after-snoc [] planned seen = refl
seen_after-snoc (p ∷ operations) planned seen = seen_after-snoc operations planned (p.id ∷ seen)

DependsOnEarlier-snoc :
    (operations : List PlannedOperation) (planned : PlannedOperation) (seen : List String)
    → DependsOnEarlier seen operations
    → All (IsIn (seen_after operations seen)) planned.dependencies
    → DependsOnEarlier seen (operations ++ planned ∷ [])
DependsOnEarlier-snoc [] planned seen h d = (d, tt)
DependsOnEarlier-snoc (p ∷ operations) planned seen h d =
    (h.0, DependsOnEarlier-snoc operations planned (p.id ∷ seen) h.1 d)

IsIn-cons : (id head : String) (seen : List String) → IsIn seen id → IsIn (head ∷ seen) id
IsIn-cons id head seen h = ground arith

IsIn-seen_after :
    (operations : List PlannedOperation) (id : String) (seen : List String)
    → IsIn seen id
    → IsIn (seen_after operations seen) id
IsIn-seen_after [] id seen h = h
IsIn-seen_after (p ∷ operations) id seen h =
    IsIn-seen_after operations id (p.id ∷ seen) (IsIn-cons id p.id seen h)

IsIn-head : (id : String) (seen : List String) → IsIn (id ∷ seen) id
IsIn-head id seen = ground (arith, eq_refl id)

-- The ids of some of the operations are among what has been seen after all of them.
filter-IsIn :
    (p : PlannedOperation → Bool) (operations : List PlannedOperation) (seen : List String)
    → All
        (IsIn (seen_after operations seen))
        (map (λ (planned : PlannedOperation). planned.id) (filter p operations))
filter-IsIn p [] seen = tt
filter-IsIn p (planned ∷ operations) seen =
    let rest = filter-IsIn p operations (planned.id ∷ seen) in
    if_keeps
      (λ l.
        All (IsIn (seen_after operations (planned.id ∷ seen)))
          (map (λ (planned : PlannedOperation). planned.id) l))
      (p planned) (planned ∷ filter p operations) (filter p operations)
      (λ _. (
        IsIn-seen_after operations planned.id (planned.id ∷ seen) (IsIn-head planned.id seen),
        rest,
      ))
      (λ _. rest)

listed-IsIn :
    (seen : List String) (last : Map String) (resource_id : String)
    → All (IsIn seen) (Maps.values last)
    → All (IsIn seen) (listed (Maps.get resource_id last))
listed-IsIn seen last resource_id h = elim (Option-cases (Maps.get resource_id last)) [
  | inl e ↦ rw e tt
  | inr (id, e) ↦ rw e (get-All (IsIn seen) resource_id last h e, tt)
]

set_last-IsIn :
    (seen : List String) (id : String) (components : List ComponentPin) (last : Map String)
    → IsIn seen id
    → All (IsIn seen) (Maps.values last)
    → All (IsIn seen) (Maps.values (set_last id last components))
set_last-IsIn seen id [] last p h = h
set_last-IsIn seen id (component ∷ components) last p h =
    set_last-IsIn seen id components _ p
      (insert-All (IsIn seen) component.context.resource_id id last p h)

-- The invariant of the loops: the operations are in order, and `last_by_resource` names some of
-- them.
record IsInOrder (draft : Draft) : Type 0 where
  in_order : DependsOnEarlier [] draft.operations
  known : All (IsIn (seen_after draft.operations [])) (Maps.values draft.last_by_resource)

grown :
    (draft : Draft) (planned : PlannedOperation)
    → All (IsIn (seen_after draft.operations [])) (Maps.values draft.last_by_resource)
    → All
        (IsIn (seen_after (draft.operations ++ planned ∷ []) []))
        (Maps.values draft.last_by_resource)
grown draft planned h = rw (seen_after-snoc draft.operations planned []) (
    All-map (IsIn (seen_after draft.operations []))
      (IsIn (planned.id ∷ seen_after draft.operations [])) (Maps.values draft.last_by_resource)
      (λ id. IsIn-cons id planned.id (seen_after draft.operations [])) h)

pushed :
    (draft : Draft) (planned : PlannedOperation)
    → IsIn (seen_after (draft.operations ++ planned ∷ []) []) planned.id
pushed draft planned =
    rw (seen_after-snoc draft.operations planned [])
      (IsIn-head planned.id (seen_after draft.operations []))

push-IsInOrder :
    (draft : Draft) (resource_id : String) (planned : PlannedOperation)
    → All (IsIn (seen_after draft.operations [])) planned.dependencies
    → IsInOrder draft
    → IsInOrder (record draft {
      operations = draft.operations ++ planned ∷ [];
      last_by_resource = Maps.insert resource_id planned.id draft.last_by_resource;
    })
push-IsInOrder draft resource_id planned d h = record {
  in_order = DependsOnEarlier-snoc draft.operations planned [] h.in_order d;
  known =
      insert-All (IsIn (seen_after (draft.operations ++ planned ∷ []) [])) resource_id planned.id
        draft.last_by_resource (pushed draft planned) (grown draft planned h.known);
}

module _ (env : External) (desired : DesiredSlice) (digest : String) (journal : JournalSnapshot)
    (observed : ObservedTarget) where
  IsInOrder-Keeps : Keeps env desired digest journal observed IsInOrder
  IsInOrder-Keeps = record {
    on_binding = λ component draft e h. push-IsInOrder draft _ _ tt h;
    on_metadata = λ draft e h. record {
      in_order =
          DependsOnEarlier-snoc draft.operations _ [] h.in_order
            (filter-IsIn _ draft.operations []);
      known =
          set_last-IsIn _ _ desired.components draft.last_by_resource (pushed draft _)
            (grown draft _ h.known);
    };
    on_schema = λ component draft e h.
        push-IsInOrder draft _ _ (listed-IsIn _ draft.last_by_resource _ h.known) h;
    on_diagnostics =
        λ draft diagnostics notices h. record { in_order = h.in_order; known = h.known };
    on_migration = λ component migration inputs draft e h.
        push-IsInOrder draft _ _ (listed-IsIn _ draft.last_by_resource _ h.known) h;
    on_api = λ draft e h. record {
      in_order = DependsOnEarlier-snoc draft.operations _ [] h.in_order h.known;
      known = grown draft _ h.known;
    };
  }

-- In a plan that `build_plan` returns every dependency of an operation is the id of an operation
-- that stands before it: the order of the plan is an order in which it can be applied, and its
-- first operation depends on nothing.
pub build_plan-DependsOnEarlier :
    (env : External) (desired : DesiredSlice) (journal : JournalSnapshot)
    (observed : ObservedTarget) (context : PlanContext) {plan : ExecutablePlan}
    → build_plan env desired journal observed context ≡ ok plan
    → DependsOnEarlier [] plan.operations
build_plan-DependsOnEarlier env desired journal observed context h =
    rw (build_plan-operations env desired journal observed context h)
      (draft_of-Keeps env desired journal observed (IsInOrder-Keeps env desired _ journal observed)
        (record { in_order = tt; known = tt })).in_order
