-- ===== src/Review/Redaction.antt =====
-- What the review views of review.rs do not show.
use connector_supabase.Common.{String, List, [], ◌∷◌, ◌≡◌, refl, map}
use connector_supabase.Plan.{
  Operation, PlannedOperation, PlannedOutput, PlanDiagnostic, ExecutablePlan,
}
use connector_supabase.Review.{review_operation, projection, rows, markdown}

-- The operations with other executable payloads in their places.
abbrev pub with_payloads :
    (PlannedOperation → Operation) → List PlannedOperation → List PlannedOperation
with_payloads f = map (λ (planned : PlannedOperation). record planned { operation = f planned })

map-with_payloads :
    (f : PlannedOperation → Operation) (operations : List PlannedOperation)
    → map review_operation (with_payloads f operations) ≡ map review_operation operations
unfolding review_operation
map-with_payloads f [] = refl
map-with_payloads f (planned ∷ operations) =
    λ i. review_operation planned ∷ map-with_payloads f operations i

rows-with_payloads :
    (f : PlannedOperation → Operation) (operations : List PlannedOperation)
    → rows (with_payloads f operations) ≡ rows operations
rows-with_payloads f [] = refl
rows-with_payloads f (planned ∷ operations) = rw (rows-with_payloads f operations) refl

-- The JSON view and the document do not depend on the executable payloads (the SQL and the
-- materialized inputs) nor on the notices: with any others in their place both are the same.
pub projection-redacted :
    (outputs_pretty : List PlannedOutput → String) (f : PlannedOperation → Operation)
    (notices : List PlanDiagnostic) (plan : ExecutablePlan)
    → (projection (record plan { operations = with_payloads f plan.operations; notices = notices })
        ≡ projection plan)
      × (markdown outputs_pretty
            (record plan { operations = with_payloads f plan.operations; notices = notices })
          ≡ markdown outputs_pretty plan)
unfolding projection markdown
projection-redacted outputs_pretty f notices plan =
    (rw (map-with_payloads f plan.operations) refl, rw (rows-with_payloads f plan.operations) refl)
