-- ===== src/Reconciler/Keeps.antt =====
-- What the calls of reconciler.rs keep of the world: a property that every effect but an apply of the
-- target keeps, and every write of a checkpoint of a kind that the call has, is kept by every call that
-- does not apply.
use connector_supabase.Common.{
  ℕ, Bool, true, false, Option, none, some, String, List, ◌∷◌, Bytes, Result, ok, err,
}
use connector_supabase.Journal.{JournalSnapshot, JournalEvent}
use connector_supabase.Plan.{ExecutablePlan, PlannedOperation}
use connector_supabase.Reconciler.{
  ReconcileError, Checkpoint, ReportSnapshot, SliceReport, Effect, target_applied, slice_reported,
  World, Outside,
}
use connector_supabase.Reconciler.Monad.{Exec, proceed, ◌>>=◌, call, gets}
use connector_supabase.Reconciler.Delivery.{
  request_of, acknowledged, deliver, deliver_pending_report, retry_unless, publish,
}
use connector_supabase.Reconciler.Receipts.{load_journal, append, append_succeeded, stale_plan}
use connector_supabase.Reconciler.Store.{schedule, save, write_with, replace_file}

-- Every effect but an apply.
abbrev pub IsOther : Effect → Type 0
IsOther (target_applied plan operation answer) = ⊥
IsOther _ = Unit

-- The world after one more effect.
abbrev pub grown : Effect → World → World
grown effect world = record world { trace = effect ∷ world.trace }

-- A property of the world that other effects keep, and the writes of the checkpoints of a kind, which
-- does not depend on the plan and the report of a checkpoint.
pub record IsStable (P : World → Type 0) (S : Checkpoint → Type 0) : Type 0 where
  pub effect : (e : Effect) (world : World) → IsOther e → P world → P (grown e world)
  pub write : (c : Checkpoint) (world : World) → S c → P world → P (replace_file c world)
  pub report : (c : Checkpoint) (r : Option ReportSnapshot) → S c → S (record c { last_report = r })
  pub plan : (c : Checkpoint) (path : Option String) → S c → S (record c { current_plan = path })

-- A property of the effects alone, and every checkpoint.
abbrev pub Traced : (List Effect → Type 0) → World → Type 0
Traced P world = P world.trace

abbrev pub AnyCheckpoint : Checkpoint → Type 0
AnyCheckpoint c = Unit

pub Traced-IsStable :
    (P : List Effect → Type 0)
    → ((e : Effect) (trace : List Effect) → IsOther e → P trace → P (e ∷ trace))
    → IsStable (Traced P) AnyCheckpoint
Traced-IsStable P h = record {
  effect = λ e world. h e world.trace;
  write = λ c world s p. p;
  report = λ c r s. tt;
  plan = λ c path s. tt;
}

-- From a trace with the first property, a call ends in a trace with the second.
abbrev pub Runs :
    {A : Type 0}
    → (List Effect → Type 0)
    → Exec A
    → (Result A ReconcileError → List Effect → Type 0)
    → Type 0
Runs P m Q = (world : World) → P world.trace → Q (m world).0 (m world).1.trace

-- From a world with the first property, a call ends in one with the second.
abbrev pub Leads : {A : Type 0} → (World → Type 0) → (World → Type 0) → Exec A → Type 0
Leads P Q m = (world : World) → P world → Q (m world).1

abbrev pub Keeps : {A : Type 0} → (World → Type 0) → Exec A → Type 0
Keeps P m = Leads P P m

proceed-Leads :
    {A B : Type 0} (P Q : World → Type 0) (f : A → Exec B) (r : Result A ReconcileError × World)
    → P r.1
    → ((a : A) → Leads P Q (f a))
    → ((world : World) → P world → Q world)
    → Q (proceed f r).1
unfolding proceed
proceed-Leads P Q f (ok a, world) h k l = k a world h
proceed-Leads P Q f (err e, world) h k l = l world h

-- The property in the middle is the first one where the first part keeps it.
pub bind-Leads :
    {A B : Type 0} (P R Q : World → Type 0) (m : Exec A) (f : A → Exec B)
    → Leads P R m
    → ((a : A) → Leads R Q (f a))
    → ((world : World) → R world → Q world)
    → Leads P Q (m >>= f)
bind-Leads P R Q m f h k l world p = proceed-Leads R Q f (m world) (h world p) k l

pub bind-Keeps :
    {A B : Type 0} (P : World → Type 0) (m : Exec A) (f : A → Exec B)
    → Keeps P m
    → ((a : A) → Keeps P (f a))
    → Keeps P (m >>= f)
bind-Keeps P m f h k = bind-Leads P P P m f h k (λ world p. p)

proceed-Runs :
    {A B : Type 0} (Q : Result A ReconcileError → List Effect → Type 0)
    (R : Result B ReconcileError → List Effect → Type 0) (f : A → Exec B)
    (r : Result A ReconcileError × World)
    → Q r.0 r.1.trace
    → ((a : A) → Runs (Q (ok a)) (f a) R)
    → ((e : ReconcileError) (trace : List Effect) → Q (err e) trace → R (err e) trace)
    → R (proceed f r).0 (proceed f r).1.trace
unfolding proceed
proceed-Runs Q R f (ok a, world) h k l = k a world h
proceed-Runs Q R f (err e, world) h k l = l e world.trace h

pub bind-Runs :
    {A B : Type 0} (P : List Effect → Type 0) (Q : Result A ReconcileError → List Effect → Type 0)
    (R : Result B ReconcileError → List Effect → Type 0) (m : Exec A) (f : A → Exec B)
    → Runs P m Q
    → ((a : A) → Runs (Q (ok a)) (f a) R)
    → ((e : ReconcileError) (trace : List Effect) → Q (err e) trace → R (err e) trace)
    → Runs P (m >>= f) R
bind-Runs P Q R m f h k l world p = proceed-Runs Q R f (m world) (h world p) k l

module _ (P : World → Type 0) (S : Checkpoint → Type 0) (stable : IsStable P S) where
  pub schedule-Keeps :
      (graph_id : Bytes) (sequence delay : ℕ) → Keeps P (schedule graph_id sequence delay)
  unfolding schedule
  schedule-Keeps graph_id sequence delay world h = stable.effect _ world tt h

  module _ (outside : Outside) where
    write_with-Keeps :
        (w s : Option String) (checkpoint : Checkpoint)
        → S checkpoint
        → Keeps P (write_with outside w s checkpoint)
    write_with-Keeps none none checkpoint k world h = stable.write checkpoint world k h
    write_with-Keeps none (some error) checkpoint k world h = stable.write checkpoint world k h
    write_with-Keeps (some error) s checkpoint k world h = h

    pub save-Keeps : (checkpoint : Checkpoint) → S checkpoint → Keeps P (save outside checkpoint)
    unfolding save
    save-Keeps checkpoint k world h = write_with-Keeps _ _ checkpoint k world h

    acknowledged-Keeps :
        (checkpoint : Checkpoint) (answer : Result Unit String)
        → S checkpoint
        → Keeps P (acknowledged outside checkpoint answer)
    acknowledged-Keeps checkpoint (err error) k world h = h
    acknowledged-Keeps checkpoint (ok _) k world h =
        bind-Keeps P (save outside (record checkpoint { last_report = none })) _
          (save-Keeps _ (stable.report checkpoint none k)) (λ _ world h. h) world h

    pub deliver-Keeps :
        (checkpoint : Checkpoint) (pending : Option ReportSnapshot)
        → S checkpoint
        → Keeps P (deliver outside checkpoint pending)
    deliver-Keeps checkpoint none k world h = h
    deliver-Keeps checkpoint (some snapshot) k world h =
        bind-Keeps P
          (call (λ trace. outside.report trace (request_of snapshot))
            (slice_reported (request_of snapshot)))
          _ (λ world h. stable.effect _ world tt h)
          (λ answer. acknowledged-Keeps checkpoint answer k) world h

    pub deliver_pending_report-Keeps :
        (checkpoint : Checkpoint)
        → S checkpoint
        → Keeps P (deliver_pending_report outside checkpoint)
    unfolding deliver_pending_report
    deliver_pending_report-Keeps checkpoint = deliver-Keeps checkpoint checkpoint.last_report

    retry_unless-Keeps : (delivered : Bool × Checkpoint) → Keeps P (retry_unless outside delivered)
    retry_unless-Keeps (true, checkpoint) world h = h
    retry_unless-Keeps (false, checkpoint) world h =
        bind-Keeps P (schedule checkpoint.graph_id checkpoint.sequence _) _ (schedule-Keeps _ _ _)
          (λ _ world h. h) world h

    pub publish-Keeps :
        (checkpoint : Checkpoint) (report : SliceReport) (publication_id : Option Bytes)
        → S checkpoint
        → Keeps P (publish outside checkpoint report publication_id)
    unfolding publish
    publish-Keeps checkpoint report publication_id k =
        bind-Keeps P (gets (λ world. outside.now_v7 world.trace)) _ (λ world h. h)
          (λ request_id. bind-Keeps P _ _ (save-Keeps _ (stable.report checkpoint _ k)) (λ _.
            bind-Keeps P _ _ (deliver_pending_report-Keeps _ (stable.report checkpoint _ k))
              retry_unless-Keeps))

    pub append-Keeps : (tail : ℕ) (event : JournalEvent) → Keeps P (append outside tail event)
    unfolding append
    append-Keeps tail event =
        bind-Keeps P _ _ (λ world h. stable.effect _ world tt h) (λ answer world h. h)

    pub append_succeeded-Keeps :
        (tail : ℕ) (plan : ExecutablePlan) (operation : PlannedOperation) (digest : String)
        (recovered : Bool)
        → Keeps P (append_succeeded outside tail plan operation digest recovered)
    unfolding append_succeeded
    append_succeeded-Keeps tail plan operation digest recovered = append-Keeps tail _

    pub stale_plan-Keeps :
        (snapshot : JournalSnapshot) (plan : ExecutablePlan) (reason : String)
        → Keeps P (stale_plan outside snapshot plan reason)
    unfolding stale_plan
    stale_plan-Keeps snapshot plan reason =
        bind-Keeps P (append outside snapshot.tail _) _ (append-Keeps _ _) (λ _ world h. h)

    pub load_journal-Keeps : Keeps P (load_journal outside)
    unfolding load_journal
    load_journal-Keeps =
        bind-Keeps P _ _ (λ world h. stable.effect _ world tt h) (λ answer world h. h)
