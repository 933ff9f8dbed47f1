-- ===== src/Reconciler/Quiet.antt =====
-- The parts of a pass of reconciler.rs that apply nothing keep what other effects keep.
use connector_supabase.Common.{
  ℕ, Bool, true, false, Option, none, some, List, [], ◌∷◌, Bytes, Result, ok, err, str_eq,
}
use connector_supabase.Common.Decimal.{to_string}
use connector_supabase.External.{External}
use connector_supabase.Journal.{Binding, JournalSnapshot, OperationState}
use connector_supabase.Plan.{ExecutablePlan, PlannedOperation, PlanDiagnostic}
use connector_supabase.Plan.Digest.{ComponentOutputs}
use connector_supabase.Reconciler.{Checkpoint, SliceReport, ReviewArtifacts, World, Outside}
use connector_supabase.Reconciler.Apply.{
  conclude, start_unless, establish, settle, complete, reject_stale,
}
use connector_supabase.Reconciler.Keeps.{
  IsStable, Keeps, bind-Keeps, schedule-Keeps, publish-Keeps, append-Keeps, append_succeeded-Keeps,
  stale_plan-Keeps, load_journal-Keeps,
}
use connector_supabase.Reconciler.Pass.{
  publish_ready, announce, persist_plan, deliver_plan, propose, plan_from, plan_level,
  checked_phase, retry_or_go_on,
}
use connector_supabase.Reconciler.Receipts.{append_started}
use connector_supabase.Slice.{DesiredSlice}
use connector_supabase.Target.{
  ObservedTarget, TargetError, unavailable, provider, ApplyResult, applied, stale,
}

module _ (P : World → Type 0) (S : Checkpoint → Type 0) (stable : IsStable P S) (env : External)
    (outside : Outside) (graph_id : Bytes) (desired : DesiredSlice) (checkpoint : Checkpoint)
    (kind : S checkpoint) where
  pub conclude-Keeps :
      (report : SliceReport) → Keeps P (conclude env outside graph_id desired checkpoint report)
  conclude-Keeps report =
      bind-Keeps P _ _
        (publish-Keeps P S stable outside _ report none (stable.plan checkpoint _ kind))
        (λ _. schedule-Keeps P S stable _ _ _)

  module _ (journal : JournalSnapshot) (plan : ExecutablePlan) (operation : PlannedOperation) where
    pub start_unless-Keeps :
        (receipt : Option OperationState) (tail : ℕ)
        → Keeps P (
            start_unless env outside graph_id desired checkpoint journal plan operation receipt
              tail)
    unfolding append_started
    start_unless-Keeps none tail world h = append-Keeps P S stable outside tail _ world h
    start_unless-Keeps (some receipt) tail world h = h

    pub establish-Keeps :
        (receipt : Option OperationState) (binding : Binding)
        → Keeps P (
            establish env outside graph_id desired checkpoint journal plan operation receipt
              binding)
    unfolding establish
    establish-Keeps receipt binding =
        bind-Keeps P _ _ (start_unless-Keeps receipt journal.tail) (λ tail.
          bind-Keeps P _ _ (append-Keeps P S stable outside tail _) (λ tail'.
            bind-Keeps P _ _ (append_succeeded-Keeps P S stable outside tail' plan operation _ _)
              (λ _. conclude-Keeps _)))

    pub settle-Keeps :
        (receipt : Option OperationState) (tail : ℕ) (answer : Result ApplyResult TargetError)
        → Keeps P (
            settle env outside graph_id desired checkpoint journal plan operation receipt tail
              answer)
    unfolding settle
    settle-Keeps receipt tail (ok (applied digest)) =
        bind-Keeps P _ _ (append_succeeded-Keeps P S stable outside tail plan operation digest _)
          (λ _. conclude-Keeps _)
    settle-Keeps receipt tail (ok (stale digest)) =
        bind-Keeps P _ _ (load_journal-Keeps P S stable outside) (λ snapshot.
          bind-Keeps P _ _ (stale_plan-Keeps P S stable outside snapshot plan _)
            (λ _. conclude-Keeps _))
    settle-Keeps receipt tail (err (provider failure)) =
        bind-Keeps P _ _ (load_journal-Keeps P S stable outside) (λ snapshot.
          bind-Keeps P _ _ (append-Keeps P S stable outside snapshot.tail _) (λ _.
            bind-Keeps P _ _
              (publish-Keeps P S stable outside _ _ none (stable.plan checkpoint _ kind))
              (λ _ world h. h)))
    settle-Keeps receipt tail (err (unavailable detail)) =
        bind-Keeps P _ _ (publish-Keeps P S stable outside checkpoint _ none kind)
          (λ _. schedule-Keeps P S stable _ _ _)

    pub complete-Keeps :
        (current : ObservedTarget)
        → Keeps P (complete env outside graph_id desired checkpoint journal plan operation current)
    unfolding complete
    complete-Keeps current =
        bind-Keeps P _ _
          (append_succeeded-Keeps P S stable outside journal.tail plan operation _ true)
          (λ _. conclude-Keeps _)

    pub reject_stale-Keeps :
        Keeps P (reject_stale env outside graph_id desired checkpoint journal plan operation)
    unfolding reject_stale
    reject_stale-Keeps =
        bind-Keeps P _ _ (stale_plan-Keeps P S stable outside journal plan _)
          (λ _. conclude-Keeps _)

  publish_ready-Keeps :
      (journal : JournalSnapshot) (plan : ExecutablePlan) (outputs : Option (List ComponentOutputs))
      → Keeps P (publish_ready env outside graph_id desired checkpoint journal plan outputs)
  publish_ready-Keeps journal plan none = λ world h. h
  publish_ready-Keeps journal plan (some outputs) =
      bind-Keeps P _ _ (publish-Keeps P S stable outside checkpoint _ _ kind) (λ _ world h. h)

  announce-Keeps :
      (plan : ExecutablePlan) (artifacts : ReviewArtifacts) (same : Bool)
      → Keeps P (announce env outside graph_id desired checkpoint plan artifacts same)
  announce-Keeps plan artifacts false = λ world h. h
  announce-Keeps plan artifacts true =
      bind-Keeps P _ _ (publish-Keeps P S stable outside _ _ none (stable.plan checkpoint _ kind))
        (λ _. schedule-Keeps P S stable _ _ _)

  persist_plan-Keeps :
      (journal : JournalSnapshot) (plan : ExecutablePlan)
      → Keeps P (persist_plan env outside graph_id desired checkpoint journal plan)
  unfolding persist_plan
  persist_plan-Keeps journal plan =
      bind-Keeps P _ _ (λ world h. stable.effect _ world tt h)
        (λ answer.
          bind-Keeps P _ _ (λ world h. h)
            (λ artifacts.
              bind-Keeps P _ _ (append-Keeps P S stable outside journal.tail _) (λ tail.
                announce-Keeps plan artifacts (str_eq (to_string tail) plan.journal_tail))))

  deliver_plan-Keeps :
      (journal : JournalSnapshot) (plan : ExecutablePlan) (operations : List PlannedOperation)
      → Keeps P (deliver_plan env outside graph_id desired checkpoint journal plan operations)
  deliver_plan-Keeps journal plan [] = publish_ready-Keeps journal plan _
  deliver_plan-Keeps journal plan (operation ∷ operations) = persist_plan-Keeps journal plan

  propose-Keeps :
      (journal : JournalSnapshot) (proposal : Result ExecutablePlan (List PlanDiagnostic))
      → Keeps P (propose env outside graph_id desired checkpoint journal proposal)
  propose-Keeps journal (ok plan) = deliver_plan-Keeps journal plan plan.operations
  propose-Keeps journal (err diagnostics) =
      bind-Keeps P _ _ (publish-Keeps P S stable outside checkpoint _ none kind) (λ _ world h. h)

  plan_from-Keeps :
      (journal : JournalSnapshot) (answer : Result ObservedTarget TargetError)
      → Keeps P (plan_from env outside graph_id desired checkpoint journal answer)
  plan_from-Keeps journal (ok observed) = propose-Keeps journal _
  plan_from-Keeps journal (err error) =
      bind-Keeps P _ _ (publish-Keeps P S stable outside checkpoint _ none kind)
        (λ _. schedule-Keeps P S stable _ _ _)

  pub plan_level-Keeps :
      (journal : JournalSnapshot)
      → Keeps P (plan_level env outside graph_id desired checkpoint journal)
  unfolding plan_level
  plan_level-Keeps journal =
      bind-Keeps P _ _ (λ world h. stable.effect _ world tt h) (plan_from-Keeps journal)

  -- The phase of a level whose content is refused.
  pub checked_phase-Keeps :
      (journal : JournalSnapshot) (item : PlanDiagnostic) (diagnostics : List PlanDiagnostic)
      → Keeps P (checked_phase env outside graph_id desired checkpoint journal (item ∷ diagnostics))
  checked_phase-Keeps journal item diagnostics =
      bind-Keeps P _ _ (publish-Keeps P S stable outside _ _ none (stable.plan checkpoint _ kind))
        (λ _ world h. h)

  pub retry_or_go_on-Keeps :
      (delivered : Bool × Checkpoint)
      → Keeps P (retry_or_go_on env outside graph_id desired checkpoint delivered)
  retry_or_go_on-Keeps (true, delivered) = schedule-Keeps P S stable _ _ _
  retry_or_go_on-Keeps (false, delivered) = schedule-Keeps P S stable _ _ _
