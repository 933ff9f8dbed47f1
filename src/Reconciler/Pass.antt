-- ===== src/Reconciler/Pass.antt =====
-- `Reconciler::reconcile_once` of reconciler.rs: its guards, the plan phase and the whole pass.
use connector_supabase.Common.{
  ℕ, Bool, true, false, ◌||◌, not, Option, none, some, String, List, [], ◌∷◌, Bytes, Result, ok,
  err, lit, shown, map_err, ok_or, str_eq, ◌==◌, if◌then◌else◌,
}
use connector_supabase.Common.Decimal.{to_string}
use connector_supabase.Common.Words.{saturating_add}
use connector_supabase.External.{External}
use connector_supabase.Journal.{JournalSnapshot, plan_created}
use connector_supabase.Plan.{ExecutablePlan, PlannedOperation, PlanContext, PlanDiagnostic}
use connector_supabase.Plan.Build.{build_plan}
use connector_supabase.Plan.Digest.{ComponentOutputs, contract_outputs}
use connector_supabase.Plan.Validate.{validate_desired}
use connector_supabase.Reconciler.{
  state, Checkpoint, ReportSnapshot, ReviewArtifacts, Diagnostic, PublicationEvidence,
  target_observed, plan_persisted, Outside,
}
use connector_supabase.Reconciler.Apply.{target_message, apply_plan}
use connector_supabase.Reconciler.Delivery.{publish, deliver_pending_report}
use connector_supabase.Reconciler.Monad.{Exec, ◌>>=◌, ◌>>◌, pure, fail, lift, call, gets}
use connector_supabase.Reconciler.Receipts.{load_journal, append}
use connector_supabase.Reconciler.Reports.{
  diagnostic, plan_diagnostics, failed_report, reconciling_report, ready_report,
  stable_publication_id,
}
use connector_supabase.Reconciler.Store.{load, schedule, lookup, no_delay, report_retry_delay}
use connector_supabase.Slice.{DesiredSlice}
use connector_supabase.Target.{ObservedTarget, TargetError}

abbrev pub observe_failed : TargetError → Diagnostic
unfolding diagnostic
observe_failed error =
    diagnostic "supabase.target.observe" (target_message error) none
      (some "The connector will retry observation without applying anything.") none

abbrev pub plan_ready : ExecutablePlan → ReviewArtifacts → Diagnostic
unfolding diagnostic
plan_ready plan artifacts =
    diagnostic "supabase.plan.ready"
      (lit "reviewable plan "
        ∷ shown plan.plan_id
        ∷ lit " is ready at "
        ∷ shown artifacts.json_path
        ∷ [])
      none (some "The next level-triggered pass applies at most one exact planned operation.") none

module _ (env : External) (outside : Outside) (graph_id : Bytes) (desired : DesiredSlice)
    (checkpoint : Checkpoint) where
  abbrev pub evidence : ExecutablePlan → JournalSnapshot → PublicationEvidence
  evidence plan journal = record {
    revision = plan.observed_digest;
    uri = outside.evidence_uri journal.tail;
  }

  -- `none` is a panic of `contract_outputs`, which ends the task.
  abbrev pub publish_ready :
      JournalSnapshot → ExecutablePlan → Option (List ComponentOutputs) → Exec Unit
  publish_ready journal plan none = fail (state (lit "planned component hash is canonical" ∷ []))
  publish_ready journal plan (some outputs) = do
    let report =
        ready_report desired outputs (evidence plan journal) (plan_diagnostics plan.notices)
    publish outside checkpoint report (stable_publication_id outside report)
    pure tt

  -- After `PlanCreated` was appended, which must be where the plan's fence stands.
  abbrev pub announce : ExecutablePlan → ReviewArtifacts → Bool → Exec Unit
  announce plan artifacts false =
      fail (state (lit "PlanCreated tail differs from executable freshness fence" ∷ []))
  announce plan artifacts true = do
    publish outside (record checkpoint { current_plan = some artifacts.plan_path })
        (reconciling_report desired (plan_ready plan artifacts)) none
    schedule graph_id desired.sequence no_delay

  -- A plan is persisted before the journal is told of it, and becomes the current one.
  unfoldable pub persist_plan : JournalSnapshot → ExecutablePlan → Exec Unit
  persist_plan journal plan = do
    answer ← call (λ trace. outside.persist trace plan) (plan_persisted plan)
    artifacts ← lift (map_err (λ error. state (shown error ∷ [])) answer)
    new_tail ← append outside journal.tail (
        plan_created plan.plan_id plan.graph_id plan.generation plan.slice_sequence
          plan.desired_digest plan.observed_digest)
    announce plan artifacts (str_eq (to_string new_tail) plan.journal_tail)

  abbrev pub deliver_plan : JournalSnapshot → ExecutablePlan → List PlannedOperation → Exec Unit
  deliver_plan journal plan [] = publish_ready journal plan (contract_outputs env plan)
  deliver_plan journal plan (operation ∷ operations) = persist_plan journal plan

  abbrev pub propose : JournalSnapshot → Result ExecutablePlan (List PlanDiagnostic) → Exec Unit
  propose journal (ok plan) = deliver_plan journal plan plan.operations
  propose journal (err diagnostics) = do
    publish outside checkpoint (failed_report desired (plan_diagnostics diagnostics)) none
    pure tt

  abbrev pub context_of : JournalSnapshot → PlanContext
  context_of journal = record {
    journal_tail_after_plan = saturating_add journal.tail 1;
    connector_build = outside.connector_build;
    api_url = outside.api_url;
    database_url_ref = outside.database_url_ref;
    anon_key_ref = outside.anon_key_ref;
  }

  abbrev pub plan_from : JournalSnapshot → Result ObservedTarget TargetError → Exec Unit
  plan_from journal (ok observed) =
      propose journal (build_plan env desired journal observed (context_of journal))
  plan_from journal (err error) = do
    publish outside checkpoint (reconciling_report desired (observe_failed error)) none
    schedule graph_id desired.sequence 2000

  -- The plan phase.
  unfoldable pub plan_level : JournalSnapshot → Exec Unit
  plan_level journal = do
    answer ← call (λ trace. outside.observe trace desired) target_observed
    plan_from journal answer

  abbrev pub phase_of : JournalSnapshot → Option String → Exec Unit
  phase_of journal none = plan_level journal
  phase_of journal (some path) = apply_plan env outside graph_id desired checkpoint journal path

  -- The checks of the content come first.
  abbrev pub checked_phase : JournalSnapshot → List PlanDiagnostic → Exec Unit
  checked_phase journal [] = phase_of journal checkpoint.current_plan
  checked_phase journal (item ∷ diagnostics) = do
    publish outside (record checkpoint { current_plan = none })
        (failed_report desired (plan_diagnostics (item ∷ diagnostics))) none
    pure tt

  unfoldable pub reconcile_level : Exec Unit
  reconcile_level = do
    journal ← load_journal outside
    checked_phase journal (validate_desired env desired journal)

  abbrev pub retry_or_go_on : Bool × Checkpoint → Exec Unit
  retry_or_go_on (true, delivered) = schedule graph_id checkpoint.sequence no_delay
  retry_or_go_on (false, delivered) = schedule graph_id checkpoint.sequence report_retry_delay

  -- A pending report is delivered before anything else. The expected sequence of the pass is that of
  -- the checkpoint, which was compared.
  abbrev pub with_pending : Option ReportSnapshot → Exec Unit
  with_pending none = reconcile_level
  with_pending (some snapshot) = do
    delivered ← deliver_pending_report outside checkpoint
    retry_or_go_on delivered

module _ (env : External) (outside : Outside) where
  unfoldable pub run_pass : Bytes → Checkpoint → Exec Unit
  run_pass graph_id checkpoint = do
    loaded ← gets (λ world. lookup graph_id world.desired)
    desired ← lift (ok_or loaded (state (lit "accepted desired slice is not loaded" ∷ [])))
    with_pending env outside graph_id desired checkpoint checkpoint.last_report

  unfoldable pub reconcile_once : Bytes → ℕ → Exec Unit
  reconcile_once graph_id expected_sequence = do
    found ← load outside graph_id
    checkpoint ← lift (ok_or found (state (lit "accepted graph checkpoint is missing" ∷ [])))
    if checkpoint.retired || not (checkpoint.sequence == expected_sequence)
        then pure tt
        else run_pass graph_id checkpoint
