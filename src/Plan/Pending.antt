-- ===== src/Plan/Pending.antt =====
-- A plan proposes only operations whose postcondition does not hold at the observation.
use connector_supabase.Common.{
  true, false, ◌&&◌, ◌||◌, not, String, List, [], ◌∷◌, ◌++◌, ◌≡◌, refl, arith, ok, all, eq_iff, All,
  All-append,
}
use connector_supabase.Common.Sets.{StringSet, collect, set_eq, collect_of_IsOrdered}
use connector_supabase.External.{External}
use connector_supabase.Journal.{JournalSnapshot}
use connector_supabase.Plan.{PlannedOperation, ExecutablePlan, PlanContext}
use connector_supabase.Plan.Build.{exposed_schemas, policies, build_plan}
use connector_supabase.Plan.Draft.{Draft}
use connector_supabase.Plan.Exposure.{exposed_schemas-IsOrdered}
use connector_supabase.Plan.Induction.{Keeps, draft_of-Keeps, build_plan-operations}
use connector_supabase.Slice.{DesiredSlice}
use connector_supabase.Target.{ObservedTarget}
use connector_supabase.Target.Satisfied.{operation_satisfied, policy_holds}

-- The operation's postcondition does not hold yet.
abbrev pub IsPending : ObservedTarget → PlannedOperation → Type 0
IsPending observed planned = operation_satisfied planned.operation observed ≡ false

abbrev AllPending : ObservedTarget → Draft → Type 0
AllPending observed draft = All (IsPending observed) draft.operations

set_eq-swap : (s t : StringSet) → set_eq s t ≡ set_eq t s
set_eq-swap [] [] = refl
set_eq-swap [] (y ∷ t) = refl
set_eq-swap (x ∷ s) [] = refl
set_eq-swap (x ∷ s) (y ∷ t) = ground (arith, set_eq-swap s t, eq_iff x y, eq_iff y x)

push-AllPending :
    (observed : ObservedTarget) (operations : List PlannedOperation) (planned : PlannedOperation)
    → All (IsPending observed) operations
    → IsPending observed planned
    → All (IsPending observed) (operations ++ planned ∷ [])
push-AllPending observed operations planned h p =
    All-append (IsPending observed) operations (planned ∷ []) h (p, tt)

-- The test that guards the API operation is the negation of its postcondition.
api-IsPending :
    (desired : DesiredSlice) (journal : JournalSnapshot) (observed : ObservedTarget)
    → (not (set_eq (exposed_schemas desired journal observed) observed.exposed_schemas)
        || not (all (policy_holds observed) (policies desired)))
      ≡ true
    → (set_eq observed.exposed_schemas (collect (exposed_schemas desired journal observed))
        && all (policy_holds observed) (policies desired))
      ≡ false
api-IsPending desired journal observed h =
    rw
      (
        collect_of_IsOrdered (exposed_schemas desired journal observed)
            (exposed_schemas-IsOrdered desired journal observed),
        set_eq-swap observed.exposed_schemas (exposed_schemas desired journal observed),
      )
      (ground arith)

module _ (env : External) (desired : DesiredSlice) (digest : String) (journal : JournalSnapshot)
    (observed : ObservedTarget) where
  AllPending-Keeps : Keeps env desired digest journal observed (AllPending observed)
  unfolding operation_satisfied
  AllPending-Keeps = record {
    on_binding = λ component draft e h. push-AllPending observed draft.operations _ h refl;
    on_metadata = λ draft e h. push-AllPending observed draft.operations _ h e;
    on_schema = λ component draft e h. push-AllPending observed draft.operations _ h e;
    on_diagnostics = λ draft diagnostics notices h. h;
    on_migration = λ component migration inputs draft e h.
        push-AllPending observed draft.operations _ h (rw e refl);
    on_api = λ draft e h.
        push-AllPending observed draft.operations _ h (api-IsPending desired journal observed e);
  }

-- Every operation of a plan that `build_plan` returns is unsatisfied at the observation that it was
-- planned against: what is already there is not proposed again.
pub build_plan-IsPending :
    (env : External) (desired : DesiredSlice) (journal : JournalSnapshot)
    (observed : ObservedTarget) (context : PlanContext) {plan : ExecutablePlan}
    → build_plan env desired journal observed context ≡ ok plan
    → All (IsPending observed) plan.operations
build_plan-IsPending env desired journal observed context h =
    rw (build_plan-operations env desired journal observed context h) (
      draft_of-Keeps env desired journal observed (AllPending-Keeps env desired _ journal observed)
        tt)
