-- ===== src/Reconciler/Reach.antt =====
-- The runs of the controller of reconciler.rs: any calls, one after the other, with restarts between.
use connector_supabase.Common.{ℕ, Option, [], ◌≡◌, sym, subst, Bytes}
use connector_supabase.External.{External}
use connector_supabase.Reconciler.{World, Outside}
use connector_supabase.Reconciler.Fence.{retained}
use connector_supabase.Reconciler.Guarded.{IsGuarded, IsGuarded-IsStable, reconcile_once-IsGuarded}
use connector_supabase.Reconciler.Keeps.{Traced, AnyCheckpoint}
use connector_supabase.Reconciler.Level.{accept, retire}
use connector_supabase.Reconciler.Levels.{Advances, Follows, Moved, Moved-refl}
use connector_supabase.Reconciler.Calls.{IsUpheld, accept-Keeps, retire-Keeps, resume-Keeps}
use connector_supabase.Reconciler.Moves.{Moved-IsUpheld, reconcile_once-Keeps}
use connector_supabase.Reconciler.Pass.{reconcile_once}
use connector_supabase.Reconciler.Resume.{resume}
use connector_supabase.Reconciler.Retired.{IsFiled}
use connector_supabase.Slice.{GraphSliceView}

module _ (env : External) (outside : Outside) where
  -- One call, in whatever way it ends. A pass may be any: each was scheduled. A restart forgets the
  -- loaded slices.
  pub data Step (world : World) : World → Type 0 where
    accepted : (request : Option GraphSliceView) → Step world (accept env outside request world).1
    retired :
        (graph_id : Bytes)
        → (generation sequence : ℕ)
        → Step world (retire env outside graph_id generation sequence world).1
    passed :
        (graph_id : Bytes)
        → (sequence : ℕ) → Step world (reconcile_once env outside graph_id sequence world).1
    restarted : Step world (record world { desired = [] })
    resumed : Step world (resume env outside world).1

  pub data Reach (first : World) : World → Type 0 where
    here : Reach first first
    next : {world after : World} → Reach first world → Step world after → Reach first after

  Step-Moved :
      {first world after : World} → Step world after → Moved first world → Moved first after
  Step-Moved {first} (accepted request) h =
      accept-Keeps env outside (Moved first) (Follows first) (Moved-IsUpheld env outside first)
        request _ h
  Step-Moved {first} (retired graph_id generation sequence) h =
      retire-Keeps env outside (Moved first) (Follows first) (Moved-IsUpheld env outside first)
        graph_id generation sequence _ h
  Step-Moved {first} (passed graph_id sequence) h =
      reconcile_once-Keeps env outside first graph_id sequence _ h
  Step-Moved restarted h = record { filed = h.filed; advances = h.advances }
  Step-Moved {first} resumed h =
      resume-Keeps env outside (Moved first) (Follows first) (Moved-IsUpheld env outside first) _ h

  Reach-Moved :
      {first world : World}
      → Reach first world
      → ((g : Bytes) → IsFiled g first)
      → Moved first world
  Reach-Moved {first} here filed = Moved-refl first filed
  Reach-Moved (next run step) filed = Step-Moved step (Reach-Moved run filed)

  -- Where each checkpoint is its own graph's at first, it is so after any run of accepts, retirements,
  -- passes, restarts and resumptions, and for every graph: a checkpoint is never lost, its level
  -- stays or, if it is not retired, gives way to one of a later sequence and no earlier generation,
  -- and a retired graph stays retired at its level.
  pub Reach-Advances :
      (first world : World) (graph_id : Bytes)
      → ((g : Bytes) → IsFiled g first)
      → Reach first world
      → IsFiled graph_id world × Advances (retained graph_id first) (retained graph_id world)
  Reach-Advances first world graph_id filed run =
      let moved = Reach-Moved run filed in (moved.filed graph_id, moved.advances graph_id)

  IsGuarded-IsUpheld : IsUpheld env outside (Traced IsGuarded) AnyCheckpoint
  IsGuarded-IsUpheld = record {
    stable = IsGuarded-IsStable;
    kind = λ g c world h r. tt;
    loads = λ desired world h. h;
    begins = λ desired world h r. tt;
    follows = λ desired current world h r next. tt;
    retires = λ c s. tt;
  }

  Step-IsGuarded :
      {world after : World} → Step world after → IsGuarded world.trace → IsGuarded after.trace
  Step-IsGuarded (accepted request) h =
      accept-Keeps env outside (Traced IsGuarded) AnyCheckpoint IsGuarded-IsUpheld request _ h
  Step-IsGuarded (retired graph_id generation sequence) h =
      retire-Keeps env outside (Traced IsGuarded) AnyCheckpoint IsGuarded-IsUpheld graph_id
        generation sequence _ h
  Step-IsGuarded (passed graph_id sequence) h =
      reconcile_once-IsGuarded env outside graph_id sequence _ h
  Step-IsGuarded restarted h = h
  Step-IsGuarded resumed h =
      resume-Keeps env outside (Traced IsGuarded) AnyCheckpoint IsGuarded-IsUpheld _ h

  -- In any run of accepts, retirements, passes, restarts and resumptions that begins with no effects,
  -- each apply of the target comes after a receipt of its operation, which the journal showed or a
  -- started receipt that it took, whatever the journal, the target, the core and the files answer.
  pub Reach-IsGuarded :
      (first world : World) → first.trace ≡ [] → Reach first world → IsGuarded world.trace
  Reach-IsGuarded first _ e here = subst IsGuarded (sym e) tt
  Reach-IsGuarded first world e (next run step) =
      Step-IsGuarded step (Reach-IsGuarded first _ e run)
