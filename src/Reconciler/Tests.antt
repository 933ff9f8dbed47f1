-- ===== src/Reconciler/Tests.antt =====
-- Passes of the controller at concrete inputs.
use connector_supabase.Common.{
  ℕ, suc, false, Bytes, Option, none, some, ap, sym, [], ◌∷◌, ◌≡◌, ◌≤◌, refl, arith, ok, err,
  length,
}
use connector_supabase.Fixtures.{
  env, desired, observed, bound_journal, binding, plan_context, read-write,
}
use connector_supabase.Journal.{JournalSnapshot}
use connector_supabase.Plan.{
  ExecutablePlan, PlannedOperation, reconciled_object, create, non_destructive, ensure_metadata,
}
use connector_supabase.Plan.Build.{draft_of, plan_of}
use connector_supabase.Plan.Digest.{refresh_id}
use connector_supabase.Reconciler.{
  graph_file, other_file, ReconcileError, Checkpoint, SliceReport, World, Outside,
}
use connector_supabase.Reconciler.Apply.{
  apply_fenced, apply_to_target, mutate, settle, reject_stale,
}
use connector_supabase.Reconciler.Receipts.{
  load_journal, append, append_started, append_succeeded, stale_plan,
}
use connector_supabase.Json.{null}
use connector_supabase.Reconciler.Fence.{retained, Outcome, accept_desired-Outcome}
use connector_supabase.Reconciler.Guarded.{IsGuarded, reconcile_once-IsGuarded}
use connector_supabase.Reconciler.Levels.{Advances}
use connector_supabase.Reconciler.Reach.{
  Reach, here, next, passed, retired, restarted, resumed, Reach-Advances, Reach-IsGuarded,
}
use connector_supabase.Reconciler.Resume.{resume}
use connector_supabase.Reconciler.Once.{applies, reconcile_once-applies}
use connector_supabase.Reconciler.Level.{accept_desired, retire}
use connector_supabase.Reconciler.Retired.{one_file-IsFiled, IsFiled, retire-accept_desired}
use connector_supabase.Reconciler.Pass.{reconcile_once}
use connector_supabase.Reconciler.Delivery.{publish, deliver_pending_report}
use connector_supabase.Reconciler.Monad.{proceed}
use connector_supabase.Reconciler.Store.{load, save, schedule}
use connector_supabase.Reconciler.Pending.{IsKept, snapshot_of, publish-IsKept}
use connector_supabase.Reconciler.Reports.{failed_report}
use connector_supabase.Plan.Build.{build_plan}
use connector_supabase.Reconciler.Planned.{IsPlanOf, build_plan-IsPlanOf}
use connector_supabase.Slice.{DesiredSlice}
use connector_supabase.Slice.Digest.{desired_digest}
use connector_supabase.Target.{applied}

-- A plan of the ledger, the schema, the migration and the API at the fence 1.
abbrev plan : ExecutablePlan
plan =
    refresh_id env
      (plan_of env desired observed plan_context (draft_of env desired bound_journal observed))

abbrev outside : Outside
outside = record {
  journal_load =
      λ trace. ok (record { tail = 1; bindings = ("catalog", binding) ∷ []; operations = [] });
  journal_append = λ trace tail event. ok (suc tail);
  observe = λ trace slice. ok observed;
  apply = λ trace slice p operation. ok (applied "blake3:ab");
  report = λ trace request. err "unavailable";
  fetch_slice = λ trace request. err "unavailable";
  graph_entries = λ trace. ok (ok (graph_file desired.graph_id) ∷ ok other_file ∷ []);
  persist = λ trace p. err "disk full";
  load_plan = λ trace path. ok plan;
  read_error = λ trace graph_id. none;
  write_error = λ trace checkpoint. none;
  sync_error = λ trace checkpoint. none;
  now_v7 = λ trace. length trace ∷ [];
  publication_uuid = λ outputs. 5 ∷ [];
  fault_text = λ fault. "fault";
  parse_error = λ text. "invalid digit found in string";
  evidence_uri = λ tail. "s2://basin/stream";
  connector_build = "test-build";
  api_url = "http://localhost:4484";
  database_url_ref = "docker-secret://db";
  anon_key_ref = "docker-secret://anon";
}

abbrev checkpoint : Checkpoint
checkpoint = record {
  graph_id = desired.graph_id;
  generation = desired.generation;
  sequence = desired.sequence;
  desired_digest = desired_digest env desired;
  current_plan = some "state/plans/plan.json";
  last_report = none;
  retired = false;
}

abbrev world : World
world = record {
  checkpoints = (desired.graph_id, checkpoint) ∷ [];
  desired = (desired.graph_id, desired) ∷ [];
  trace = [];
}

reconcile_once-IsGuarded_example :
    IsGuarded (reconcile_once env outside desired.graph_id 9 world).1.trace
reconcile_once-IsGuarded_example = reconcile_once-IsGuarded env outside desired.graph_id 9 world tt

abbrev journal : JournalSnapshot
journal = record { tail = 1; bindings = ("catalog", binding) ∷ []; operations = [] }

abbrev operation : PlannedOperation
operation = record {
  id = "operation";
  address = "database.henosis_connector.migration_receipts";
  component_scopes = [];
  execution_class = reconciled_object;
  action = create;
  before = null;
  after = null;
  destructive_level = non_destructive;
  dependencies = [];
  preconditions = [];
  operation = ensure_metadata;
}

-- The operation is applied at the fence, and not behind it.
one_apply :
    applies
      (apply_fenced env outside desired.graph_id desired checkpoint journal plan operation 1 none
        world).1.trace
    ≡ 1
unfolding apply_fenced apply_to_target mutate append_started append proceed settle append_succeeded
    publish save deliver_pending_report schedule
one_apply = refl

no_apply :
    applies
      (apply_fenced env outside desired.graph_id desired checkpoint journal plan operation 2 none
        world).1.trace
    ≡ 0
unfolding apply_fenced reject_stale stale_plan append proceed publish save deliver_pending_report
    schedule
no_apply = refl

abbrev newer : DesiredSlice
newer = record desired { sequence = 10 }

accept_desired-Outcome_example :
    Outcome env outside newer checkpoint world (accept_desired env outside newer)
accept_desired-Outcome_example = accept_desired-Outcome env outside newer checkpoint world refl

abbrev report : SliceReport
report = failed_report desired []

abbrev pending : Checkpoint
pending = record checkpoint {
  last_report = some (record { request_id = 0 ∷ []; publication_id = none; report = report });
}

published : (publish outside checkpoint report none world).0 ≡ ok pending
unfolding publish proceed save deliver_pending_report schedule
published = refl

publish-IsKept_example :
    IsKept world
      (snapshot_of outside world report none)
      (record checkpoint { last_report = some (snapshot_of outside world report none) })
      (publish outside checkpoint report none world)
publish-IsKept_example = publish-IsKept outside checkpoint report none world

reconcile_once-applies_example :
    applies (reconcile_once env outside desired.graph_id 9 world).1.trace
    ≤ suc (applies world.trace)
reconcile_once-applies_example = reconcile_once-applies env outside desired.graph_id 9 world

filed : IsFiled desired.graph_id world
filed c h =
    ap (λ (o : Option Checkpoint). elim o [ none ↦ desired.graph_id | some d ↦ d.graph_id ]) (sym h)

retires : (retire env outside desired.graph_id 4 9 world).0 ≡ ok 4
unfolding retire load_journal append proceed save load
retires = refl

retire-accept_desired_example :
    (◌≡◌ {A = ℕ} 4 4)
    × ((e : ReconcileError) × (accept_desired env outside desired
            (retire env outside desired.graph_id 4 9 world).1
          ≡ (err e, (retire env outside desired.graph_id 4 9 world).1)))
retire-accept_desired_example = retire-accept_desired env outside desired 4 9 4 world filed retires

every-IsFiled : (g : Bytes) → IsFiled g world
every-IsFiled g = one_file-IsFiled checkpoint world g refl

-- A pass is made, the graph is retired, and the connector restarts and resumes.
abbrev after_pass : World
after_pass = (reconcile_once env outside desired.graph_id 9 world).1

abbrev after_retire : World
after_retire = (retire env outside desired.graph_id 4 9 after_pass).1

abbrev after_resume : World
after_resume = (resume env outside (record after_retire { desired = [] })).1

run : Reach env outside world after_resume
run =
    next
      (next (next (next here (passed desired.graph_id 9)) (retired desired.graph_id 4 9)) restarted)
      resumed

Reach-Advances_example :
    IsFiled desired.graph_id after_resume
    × Advances (retained desired.graph_id world) (retained desired.graph_id after_resume)
Reach-Advances_example =
    Reach-Advances env outside world after_resume desired.graph_id every-IsFiled run

Reach-IsGuarded_example : IsGuarded after_resume.trace
Reach-IsGuarded_example = Reach-IsGuarded env outside world after_resume refl run

plan_is_built : build_plan env desired bound_journal observed plan_context ≡ ok plan
unfolding build_plan draft_of
plan_is_built = refl

build_plan-IsPlanOf_example : IsPlanOf env outside desired 1 plan newer
build_plan-IsPlanOf_example =
    build_plan-IsPlanOf env read-write outside desired newer observed plan_context bound_journal
      (omega arith) (omega arith) (omega arith) (omega arith) (omega arith) plan_is_built
