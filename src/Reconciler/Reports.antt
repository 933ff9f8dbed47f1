-- ===== src/Reconciler/Reports.antt =====
-- The reports of reconciler.rs: `diagnostic`, `plan_diagnostics`, `dispositions` and the reports.
use connector_supabase.Common.{
  Option, none, some, String, List, [], ◌∷◌, Bytes, Message, lit, shown, map, if◌then◌else◌,
}
use connector_supabase.Plan.{PlanDiagnostic, PlannedOperation, ExecutablePlan, connector_name}
use connector_supabase.Plan.Digest.{ComponentOutputs}
use connector_supabase.Reconciler.{
  ComponentDispositionKind, reconciling, ready, failed, ComponentDisposition, error, info,
  Diagnostic, PublicationEvidence, SliceReport, Outside,
}
use connector_supabase.Slice.{ComponentPin, DesiredSlice}

unfoldable pub diagnostic :
    String → Message → Option Bytes → Option String → Option String → Diagnostic
diagnostic code message component_spec_hash help pointer = record {
  code = code;
  message = message;
  severity = error;
  component_spec_hash = component_spec_hash;
  help = help;
  pointer = pointer;
}

unfoldable pub plan_diagnostic : PlanDiagnostic → Diagnostic
unfolding diagnostic
plan_diagnostic item =
    let value =
      diagnostic item.code item.message (some item.component_spec_hash) (some item.help)
        (some item.pointer) in
    if item.informational then record value { severity = info } else value

unfoldable pub plan_diagnostics : List PlanDiagnostic → List Diagnostic
unfolding plan_diagnostic
plan_diagnostics diagnostics = map plan_diagnostic diagnostics

unfoldable pub dispositions : DesiredSlice → ComponentDispositionKind → List ComponentDisposition
dispositions desired kind =
    map
      (λ (component : ComponentPin). record {
        component_spec_hash = component.spec_hash;
        kind = kind;
      })
      desired.components

unfoldable pub report_for :
    DesiredSlice → ComponentDispositionKind → List ComponentOutputs → List Diagnostic → SliceReport
report_for desired kind outputs diagnostics = record {
  graph_id = desired.graph_id;
  generation = desired.generation;
  connector = connector_name;
  dispositions = dispositions desired kind;
  outputs = outputs;
  diagnostics = diagnostics;
  sequence = desired.sequence;
  publication = none;
}

unfoldable pub failed_report : DesiredSlice → List Diagnostic → SliceReport
unfolding report_for
failed_report desired diagnostics = report_for desired failed [] diagnostics

unfoldable pub reconciling_report : DesiredSlice → Diagnostic → SliceReport
unfolding report_for
reconciling_report desired value =
    report_for desired reconciling [] (record value { severity = info } ∷ [])

unfoldable pub operation_report : DesiredSlice → PlannedOperation → ExecutablePlan → SliceReport
unfolding reconciling_report diagnostic
operation_report desired operation plan = reconciling_report desired (
    diagnostic "supabase.apply.operation-complete"
      (lit "operation "
        ∷ shown operation.id
        ∷ lit " ("
        ∷ shown operation.address
        ∷ lit ") from plan "
        ∷ shown plan.plan_id
        ∷ lit " reached its postcondition"
        ∷ [])
      none (some "The next pass re-observes and replans the remaining level.") none)

unfoldable pub ready_report :
    DesiredSlice → List ComponentOutputs → PublicationEvidence → List Diagnostic → SliceReport
unfolding report_for
ready_report desired outputs publication diagnostics =
    record (report_for desired ready outputs diagnostics) { publication = some publication }

-- The identity of a publication depends on its outputs only; without outputs there is none.
abbrev pub publication_id_of : Outside → List ComponentOutputs → Option Bytes
publication_id_of outside [] = none
publication_id_of outside (output ∷ outputs) = some (outside.publication_uuid (output ∷ outputs))

unfoldable pub stable_publication_id : Outside → SliceReport → Option Bytes
stable_publication_id outside report = publication_id_of outside report.outputs
