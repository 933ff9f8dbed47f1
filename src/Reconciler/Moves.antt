-- ===== src/Reconciler/Moves.antt =====
-- Every call of reconciler.rs moves the levels of all graphs on, and never back.
use connector_supabase.Common.{
  ℕ, subst, true, ◌||◌, not, Option, none, some, refl, Bytes, ◌==◌, if_keeps,
}
use connector_supabase.External.{External}
use connector_supabase.Journal.{JournalSnapshot, OperationState}
use connector_supabase.Plan.{ExecutablePlan, PlannedOperation}
use connector_supabase.Reconciler.{Checkpoint, World, Outside}
use connector_supabase.Reconciler.Apply.{mutate}
use connector_supabase.Reconciler.Calls.{IsUpheld, resumable}
use connector_supabase.Reconciler.Chain.{Nothing, run_pass-Leads}
use connector_supabase.Reconciler.Fence.{retained}
use connector_supabase.Reconciler.Keeps.{Keeps, bind-Keeps}
use connector_supabase.Reconciler.Level.{checkpoint_of}
use connector_supabase.Reconciler.Levels.{
  Advances, Advances-trans, Moved, Follows, Moved-IsStable, Moved-Follows,
}
use connector_supabase.Reconciler.Loads.{load-Keeps, found-Keeps, IsResumable}
use connector_supabase.Reconciler.Monad.{Exec, pure}
use connector_supabase.Reconciler.Pass.{run_pass, reconcile_once}
use connector_supabase.Reconciler.Quiet.{start_unless-Keeps, settle-Keeps}
use connector_supabase.Slice.{DesiredSlice}

Advances-none : (a b : Option Checkpoint) → Advances a none → Advances a b
Advances-none none b h = tt
Advances-none (some c) b h = elim h [ ]

retired_too :
    (o : Option Checkpoint) (c : Checkpoint)
    → Advances o (some c)
    → Advances o (some (record c { retired = true; current_plan = none; last_report = none }))
retired_too none c h = tt
retired_too (some d) c h = (h.0, λ _. refl)

module _ (env : External) (outside : Outside) (first : World) where
  module _ (graph_id : Bytes) (checkpoint : Checkpoint) (kind : Follows first checkpoint) where
    mutate-Keeps :
        (desired : DesiredSlice) (journal : JournalSnapshot) (plan : ExecutablePlan)
        (operation : PlannedOperation) (receipt : Option OperationState)
        → Keeps
            (Moved first)
            (mutate env outside graph_id desired checkpoint journal plan operation receipt)
    unfolding mutate
    mutate-Keeps desired journal plan operation receipt =
        bind-Keeps (Moved first) _ _
          (start_unless-Keeps (Moved first) (Follows first) (Moved-IsStable first) env outside
            graph_id desired checkpoint kind journal plan operation receipt journal.tail)
          (λ tail.
            bind-Keeps (Moved first) _ _
              (λ world h. record { filed = h.filed; advances = h.advances })
              (settle-Keeps (Moved first) (Follows first) (Moved-IsStable first) env outside
                graph_id desired checkpoint kind journal plan operation receipt tail))

    run_pass-Keeps : Keeps (Moved first) (run_pass env outside graph_id checkpoint)
    run_pass-Keeps =
        run_pass-Leads (Moved first) (Moved first) (Follows first) Nothing
          (record {
            stable = Moved-IsStable first;
            weaker = λ world h. h;
            knows = λ journal e world h. tt;
            loaded = λ journal world. tt;
          })
          env outside graph_id checkpoint kind
          (λ desired journal plan operation receipt e world h.
            mutate-Keeps desired journal plan operation receipt world h.0)

  pub reconcile_once-Keeps :
      (graph_id : Bytes) (expected_sequence : ℕ)
      → Keeps (Moved first) (reconcile_once env outside graph_id expected_sequence)
  unfolding reconcile_once
  reconcile_once-Keeps graph_id expected_sequence =
      load-Keeps (Moved first) outside graph_id _ (λ o world r h.
        found-Keeps (Moved first) outside graph_id _ o _ world
          (λ c w r' h'.
            if_keeps {A = Exec Unit} (λ m. Moved first (m w).1)
              (c.retired || not (c.sequence == expected_sequence)) (pure tt)
              (run_pass env outside graph_id c) (λ _. h')
              (λ _. run_pass-Keeps graph_id c (Moved-Follows first w graph_id c h' r') w h'))
          r h)

  pub Moved-IsUpheld : IsUpheld env outside (Moved first) (Follows first)
  Moved-IsUpheld = record {
    stable = Moved-IsStable first;
    kind = λ g c world h r. Moved-Follows first world g c h r;
    loads = λ desired world h. record { filed = h.filed; advances = h.advances };
    begins = λ desired world h r.
        Advances-none (retained desired.graph_id first) _
          (subst (Advances (retained desired.graph_id first)) r (h.advances desired.graph_id));
    follows = λ desired current world h r next.
        Advances-trans (retained desired.graph_id first) (some current)
          (some (checkpoint_of env outside desired))
          (subst (Advances (retained desired.graph_id first)) r (h.advances desired.graph_id)) next;
    retires = λ c follows. retired_too (retained c.graph_id first) c follows;
  }

  pub Moved-IsResumable : IsResumable env (Moved first) (Follows first)
  Moved-IsResumable = resumable env outside (Moved first) (Follows first) Moved-IsUpheld
