-- ===== src/Reconciler/Chain.antt =====
-- The pass of reconciler.rs around one apply of the target: where `mutate` leads from one property of
-- the world to another, and the calls that do not apply keep the first, the whole pass leads from the
-- first to the second.
use connector_supabase.Common.{
  ℕ, ◌&&◌, not, Option, none, some, List, [], ◌∷◌, Bytes, String, ◌==◌, if_keeps, ◌≡◌, refl, Result,
  ok, err, map_err,
}
use connector_supabase.Common.Maps
use connector_supabase.External.{External}
use connector_supabase.Journal.{JournalSnapshot, OperationState}
use connector_supabase.Journal.Stream.{JournalFault}
use connector_supabase.Plan.{
  ExecutablePlan, PlannedOperation, PlanDiagnostic, Operation, establish_binding, ensure_metadata,
  ensure_schema, apply_migration, configure_api,
}
use connector_supabase.Reconciler.{
  ReconcileError, Checkpoint, ReportSnapshot, Effect, journal_loaded, World, Outside,
}
use connector_supabase.Reconciler.Apply.{
  is_started_by, mutate, apply_to_target, dispatch, apply_fenced, apply_plan, complete,
  reject_stale, establish,
}
use connector_supabase.Reconciler.Delivery.{deliver_pending_report}
use connector_supabase.Reconciler.Keeps.{
  IsOther, grown, IsStable, Leads, Keeps, bind-Keeps, bind-Leads, deliver_pending_report-Keeps,
}
use connector_supabase.Reconciler.Monad.{Exec, ◌>>=◌, proceed}
use connector_supabase.Reconciler.Pass.{
  phase_of, plan_level, checked_phase, reconcile_level, with_pending, run_pass,
}
use connector_supabase.Reconciler.Quiet.{
  establish-Keeps, complete-Keeps, reject_stale-Keeps, plan_level-Keeps, checked_phase-Keeps,
  retry_or_go_on-Keeps,
}
use connector_supabase.Reconciler.Receipts.{load_journal}
use connector_supabase.Slice.{DesiredSlice}
use connector_supabase.Target.Satisfied.{operation_satisfied}

-- What a section below takes: the first property, the second one, which is weaker, the kind of the
-- checkpoints that are written, and what is known of the world from when the journal was loaded.
pub record IsChain (P Q : World → Type 0) (S : Checkpoint → Type 0)
    (C : JournalSnapshot → World → Type 0) : Type 0 where
  pub stable : IsStable P S
  pub weaker : (world : World) → P world → Q world
  pub knows :
      (journal : JournalSnapshot) (e : Effect) (world : World)
      → C journal world
      → C journal (grown e world)
  pub loaded :
      (journal : JournalSnapshot) (world : World)
      → C journal (grown (journal_loaded (ok journal)) world)

-- Where nothing more is known.
abbrev pub Nothing : JournalSnapshot → World → Type 0
Nothing journal world = Unit

module _ (P Q : World → Type 0) (S : Checkpoint → Type 0) (C : JournalSnapshot → World → Type 0)
    (chain : IsChain P Q S C) (env : External) (outside : Outside) (graph_id : Bytes)
    (checkpoint : Checkpoint) (kind : S checkpoint) where
  abbrev Known : JournalSnapshot → World → Type 0
  Known journal world = P world × C journal world

  weaker : (journal : JournalSnapshot) (world : World) → Known journal world → Q world
  weaker journal world h = chain.weaker world h.0

  grow :
      (journal : JournalSnapshot) (e : Effect) (world : World)
      → IsOther e
      → Known journal world
      → Known journal (grown e world)
  grow journal e world o h = (chain.stable.effect e world o h.0, chain.knows journal e world h.1)

  loaded_then :
      {A : Type 0} (g : JournalFault → ReconcileError) (f : JournalSnapshot → Exec A)
      (answer : Result JournalSnapshot JournalFault) (world : World)
      → ((journal : JournalSnapshot) → Leads (Known journal) Q (f journal))
      → P world
      → Q (proceed f (map_err g answer, grown (journal_loaded answer) world)).1
  unfolding proceed
  loaded_then g f (ok journal) world k h =
      k journal _ (chain.stable.effect _ world tt h, chain.loaded journal world)
  loaded_then g f (err fault) world k h = chain.weaker _ (chain.stable.effect _ world tt h)

  load_journal-Leads :
      {A : Type 0} (f : JournalSnapshot → Exec A)
      → ((journal : JournalSnapshot) → Leads (Known journal) Q (f journal))
      → Leads P Q (load_journal outside >>= f)
  unfolding load_journal proceed
  load_journal-Leads f k world h = loaded_then _ f (outside.journal_load world.trace) world k h

  -- A call that keeps the first property.
  quiet :
      {A : Type 0} (journal : JournalSnapshot) (m : Exec A) → Keeps P m → Leads (Known journal) Q m
  quiet journal m k world h = chain.weaker _ (k world h.0)

  module _ (desired : DesiredSlice)
      (mutates : (journal : JournalSnapshot) (plan : ExecutablePlan) (operation : PlannedOperation)
          (receipt : Option OperationState)
        → Maps.get operation.id journal.operations ≡ receipt
        → Leads
            (Known journal)
            Q
            (mutate env outside graph_id desired checkpoint journal plan operation receipt)) where
    module _ (journal : JournalSnapshot) (plan : ExecutablePlan)
        (operation : PlannedOperation) where
      apply_to_target-Leads :
          (receipt : Option OperationState)
          → Maps.get operation.id journal.operations ≡ receipt
          → Leads (Known journal) Q (
              apply_to_target env outside graph_id desired checkpoint journal plan operation
                receipt)
      unfolding apply_to_target
      apply_to_target-Leads receipt e =
          bind-Leads (Known journal) (Known journal) Q _ _ (λ world h. grow journal _ world tt h)
            (λ answer.
              bind-Leads (Known journal) (Known journal) Q _ _ (λ world h. h)
                (λ current.
                  if_keeps {A = Exec Unit} (λ m. Leads (Known journal) Q m)
                    (is_started_by plan.plan_id receipt
                      && operation_satisfied operation.operation current)
                    (complete env outside graph_id desired checkpoint journal plan operation
                      current)
                    (mutate env outside graph_id desired checkpoint journal plan operation receipt)
                    (λ _.
                      quiet journal
                        (complete env outside graph_id desired checkpoint journal plan operation
                          current)
                        (complete-Keeps P S chain.stable env outside graph_id desired checkpoint
                          kind journal plan operation current))
                    (λ _. mutates journal plan operation receipt e))
                (weaker journal))
            (weaker journal)

      dispatch-Leads :
          (receipt : Option OperationState) (o : Operation)
          → Maps.get operation.id journal.operations ≡ receipt
          → Leads
              (Known journal)
              Q
              (dispatch env outside graph_id desired checkpoint journal plan operation receipt o)
      dispatch-Leads receipt (establish_binding binding) e =
          quiet journal
            (establish env outside graph_id desired checkpoint journal plan operation receipt
              binding)
            (establish-Keeps P S chain.stable env outside graph_id desired checkpoint kind journal
              plan operation receipt binding)
      dispatch-Leads receipt ensure_metadata e = apply_to_target-Leads receipt e
      dispatch-Leads receipt (ensure_schema resource_id schema) e = apply_to_target-Leads receipt e
      dispatch-Leads receipt (apply_migration resource_id schema migration inputs) e =
          apply_to_target-Leads receipt e
      dispatch-Leads receipt (configure_api exposed_schemas policies) e =
          apply_to_target-Leads receipt e

      apply_fenced-Leads :
          (expected_tail : ℕ) (receipt : Option OperationState)
          → Maps.get operation.id journal.operations ≡ receipt
          → Leads (Known journal) Q (
              apply_fenced env outside graph_id desired checkpoint journal plan operation
                expected_tail receipt)
      unfolding apply_fenced
      apply_fenced-Leads expected_tail receipt e =
          if_keeps {A = Exec Unit} (λ m. Leads (Known journal) Q m)
            (not (journal.tail == expected_tail) && not (is_started_by plan.plan_id receipt))
            (reject_stale env outside graph_id desired checkpoint journal plan operation)
            (dispatch env outside graph_id desired checkpoint journal plan operation receipt
              operation.operation)
            (λ _.
              quiet journal
                (reject_stale env outside graph_id desired checkpoint journal plan operation)
                (reject_stale-Keeps P S chain.stable env outside graph_id desired checkpoint kind
                  journal plan operation))
            (λ _. dispatch-Leads receipt operation.operation e)

    apply_plan-Leads :
        (journal : JournalSnapshot) (path : String)
        → Leads (Known journal) Q (apply_plan env outside graph_id desired checkpoint journal path)
    unfolding apply_plan
    apply_plan-Leads journal path =
        bind-Leads (Known journal) (Known journal) Q _ _ (λ world h. grow journal _ world tt h)
          (λ loaded.
            bind-Leads (Known journal) (Known journal) Q _ _ (λ world h. h)
              (λ plan.
                bind-Leads (Known journal) (Known journal) Q _ _ (λ world h. h)
                  (λ _.
                    bind-Leads (Known journal) (Known journal) Q _ _ (λ world h. h)
                      (λ operation.
                        bind-Leads (Known journal) (Known journal) Q _ _ (λ world h. h)
                          (λ tail. apply_fenced-Leads journal plan operation tail _ refl)
                          (weaker journal))
                      (weaker journal))
                  (weaker journal))
              (weaker journal))
          (weaker journal)

    phase_of-Leads :
        (journal : JournalSnapshot) (path : Option String)
        → Leads (Known journal) Q (phase_of env outside graph_id desired checkpoint journal path)
    phase_of-Leads journal none =
        quiet journal (plan_level env outside graph_id desired checkpoint journal)
          (plan_level-Keeps P S chain.stable env outside graph_id desired checkpoint kind journal)
    phase_of-Leads journal (some path) = apply_plan-Leads journal path

    checked_phase-Leads :
        (journal : JournalSnapshot) (diagnostics : List PlanDiagnostic)
        → Leads
            (Known journal)
            Q
            (checked_phase env outside graph_id desired checkpoint journal diagnostics)
    checked_phase-Leads journal [] = phase_of-Leads journal checkpoint.current_plan
    checked_phase-Leads journal (item ∷ diagnostics) =
        quiet journal
          (checked_phase env outside graph_id desired checkpoint journal (item ∷ diagnostics))
          (checked_phase-Keeps P S chain.stable env outside graph_id desired checkpoint kind journal
            item diagnostics)

    with_pending-Leads :
        (pending : Option ReportSnapshot)
        → Leads P Q (with_pending env outside graph_id desired checkpoint pending)
    unfolding reconcile_level
    with_pending-Leads none = load_journal-Leads _ (λ journal. checked_phase-Leads journal _)
    with_pending-Leads (some snapshot) = λ world h.
        chain.weaker (with_pending env outside graph_id desired checkpoint (some snapshot) world).1
          (bind-Keeps P (deliver_pending_report outside checkpoint) _
            (deliver_pending_report-Keeps P S chain.stable outside checkpoint kind)
            (retry_or_go_on-Keeps P S chain.stable env outside graph_id desired checkpoint kind)
            world h)

  pub run_pass-Leads :
      ((desired : DesiredSlice) (journal : JournalSnapshot) (plan : ExecutablePlan)
          (operation : PlannedOperation) (receipt : Option OperationState)
        → Maps.get operation.id journal.operations ≡ receipt
        → Leads
            (Known journal)
            Q
            (mutate env outside graph_id desired checkpoint journal plan operation receipt))
      → Leads P Q (run_pass env outside graph_id checkpoint)
  unfolding run_pass
  run_pass-Leads mutates =
      bind-Leads P P Q _ _ (λ world h. h)
        (λ loaded.
          bind-Leads P P Q _ _ (λ world h. h)
            (λ desired. with_pending-Leads desired (mutates desired) checkpoint.last_report)
            chain.weaker)
        chain.weaker
