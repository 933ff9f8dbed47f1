-- ===== src/Reconciler/Guarded.antt =====
-- No pass of reconciler.rs applies an operation of which the journal has no receipt.
use connector_supabase.Common.{
  ℕ, true, ◌||◌, not, Option, none, some, List, [], ◌∷◌, ◌≡◌, inl, inr, refl, sym, subst, arith,
  Any, Bytes, String, Result, ok, err, map_err, ◌==◌, if_keeps,
}
use connector_supabase.Common.Maps
use connector_supabase.Common.Maps.{Map}
use connector_supabase.External.{External}
use connector_supabase.Journal.{JournalSnapshot, OperationState, operation_started}
use connector_supabase.Journal.Stream.{JournalFault}
use connector_supabase.Plan.{ExecutablePlan, PlannedOperation}
use connector_supabase.Reconciler.{
  ReconcileError, Checkpoint, Effect, journal_loaded, journal_appended, target_observed,
  target_applied, slice_reported, plan_persisted, plan_loaded, slice_fetched, pass_scheduled, World,
  Outside,
}
use connector_supabase.Reconciler.Apply.{start_unless, mutate}
use connector_supabase.Reconciler.Chain.{IsChain, run_pass-Leads}
use connector_supabase.Reconciler.Keeps.{
  IsOther, IsStable, Traced, AnyCheckpoint, Traced-IsStable, Runs, Keeps, bind-Keeps, bind-Runs,
}
use connector_supabase.Reconciler.Monad.{Exec, proceed, pure}
use connector_supabase.Reconciler.Pass.{run_pass, reconcile_once}
use connector_supabase.Reconciler.Quiet.{settle-Keeps}
use connector_supabase.Reconciler.Receipts.{append, append_started}
use connector_supabase.Reconciler.Store.{load}
use connector_supabase.Slice.{DesiredSlice}

-- The journal showed a receipt of the operation, or took one.
abbrev pub IsReceiptOf : String → Effect → Type 0
IsReceiptOf id (journal_loaded (ok snapshot)) = Maps.contains_key id snapshot.operations ≡ true
IsReceiptOf id (journal_appended tail (operation_started plan_id operation_id key) (ok n)) =
    operation_id ≡ id
IsReceiptOf id _ = ⊥

-- Each apply came after a receipt of its operation.
abbrev pub IsGuarded : List Effect → Type 0
IsGuarded [] = Unit
IsGuarded (target_applied plan operation answer ∷ older) =
    Any (IsReceiptOf operation.id) older × IsGuarded older
IsGuarded (_ ∷ older) = IsGuarded older

other_effects :
    (e : Effect) (trace : List Effect) → IsOther e → IsGuarded trace → IsGuarded (e ∷ trace)
other_effects (target_applied plan operation answer) trace o h = elim o [ ]
other_effects (journal_loaded answer) trace o h = h
other_effects (journal_appended tail event answer) trace o h = h
other_effects (target_observed answer) trace o h = h
other_effects (slice_reported request answer) trace o h = h
other_effects (plan_persisted plan answer) trace o h = h
other_effects (plan_loaded path answer) trace o h = h
other_effects (slice_fetched request answer) trace o h = h
other_effects (pass_scheduled graph_id sequence delay) trace o h = h

pub IsGuarded-IsStable : IsStable (Traced IsGuarded) AnyCheckpoint
IsGuarded-IsStable = Traced-IsStable IsGuarded other_effects

-- After a success the first property holds too; after an error the trace is guarded.
abbrev After :
    {A : Type 0} → (A → List Effect → Type 0) → Result A ReconcileError → List Effect → Type 0
After G (ok a) trace = IsGuarded trace × G a trace
After G (err e) trace = IsGuarded trace

abbrev Guarded : {A : Type 0} → Result A ReconcileError → List Effect → Type 0
Guarded r trace = IsGuarded trace

-- A receipt that was read is in the trace.
abbrev Known : String → Option OperationState → List Effect → Type 0
Known id none trace = Unit
Known id (some receipt) trace = Any (IsReceiptOf id) trace

abbrev Loaded : JournalSnapshot → List Effect → Type 0
Loaded journal = Any (λ effect. effect ≡ journal_loaded (ok journal))

Any-map :
    (P Q : Effect → Type 0) (trace : List Effect)
    → ((e : Effect) → P e → Q e)
    → Any P trace
    → Any Q trace
Any-map P Q [] f h = h
Any-map P Q (e ∷ trace) f (inl p) = inl (f e p)
Any-map P Q (e ∷ trace) f (inr h) = inr (Any-map P Q trace f h)

has_key :
    (id : String) (receipt : OperationState) (operations : Map OperationState)
    → Maps.get id operations ≡ some receipt
    → Maps.contains_key id operations ≡ true
has_key id receipt operations e = ground (arith, e)

known :
    (id : String) (journal : JournalSnapshot) (receipt : Option OperationState)
    (trace : List Effect)
    → Maps.get id journal.operations ≡ receipt
    → Loaded journal trace
    → Known id receipt trace
known id journal none trace e h = tt
known id journal (some receipt) trace e h =
    Any-map _ (IsReceiptOf id) trace
      (λ effect p. subst (IsReceiptOf id) (sym p) (has_key id receipt journal.operations e)) h

appended_receipt :
    (f : JournalFault → ReconcileError) (plan : ExecutablePlan) (operation : PlannedOperation)
    (tail : ℕ) (answer : Result ℕ JournalFault) (trace : List Effect)
    → IsGuarded trace
    → After
        (λ _. Any (IsReceiptOf operation.id))
        (map_err f answer)
        (journal_appended tail (operation_started plan.plan_id operation.id operation.id) answer
          ∷ trace)
appended_receipt f plan operation tail (ok n) trace h = (h, inl refl)
appended_receipt f plan operation tail (err fault) trace h = h

module _ (env : External) (outside : Outside) (graph_id : Bytes) (desired : DesiredSlice)
    (checkpoint : Checkpoint) where
  module _ (journal : JournalSnapshot) (plan : ExecutablePlan) (operation : PlannedOperation) where
    start_unless-Runs :
        (receipt : Option OperationState) (tail : ℕ)
        → Runs
            (λ trace. IsGuarded trace × Known operation.id receipt trace)
            (start_unless env outside graph_id desired checkpoint journal plan operation receipt
              tail)
            (After (λ _. Any (IsReceiptOf operation.id)))
    unfolding append_started append proceed
    start_unless-Runs none tail world h = appended_receipt _ plan operation tail _ world.trace h.0
    start_unless-Runs (some receipt) tail world h = h

    mutate-Runs :
        (receipt : Option OperationState)
        → Runs
            (λ trace. IsGuarded trace × Known operation.id receipt trace)
            (mutate env outside graph_id desired checkpoint journal plan operation receipt)
            Guarded
    unfolding mutate
    mutate-Runs receipt =
        bind-Runs _ (After (λ _. Any (IsReceiptOf operation.id))) Guarded _ _
          (start_unless-Runs receipt journal.tail)
          (λ tail.
            bind-Runs _ Guarded Guarded _ _ (λ world h. (h.1, h.0))
              (settle-Keeps (Traced IsGuarded) AnyCheckpoint IsGuarded-IsStable env outside graph_id
                desired checkpoint tt journal plan operation receipt tail)
              (λ e trace h. h))
          (λ e trace h. h)

Guarded-IsChain :
    IsChain (Traced IsGuarded) (Traced IsGuarded) AnyCheckpoint (λ journal. Traced (Loaded journal))
Guarded-IsChain = record {
  stable = IsGuarded-IsStable;
  weaker = λ world h. h;
  knows = λ journal e world h. inr h;
  loaded = λ journal world. inl refl;
}

module _ (env : External) (outside : Outside) where
  run_pass-Keeps :
      (graph_id : Bytes) (checkpoint : Checkpoint)
      → Keeps (Traced IsGuarded) (run_pass env outside graph_id checkpoint)
  run_pass-Keeps graph_id checkpoint =
      run_pass-Leads (Traced IsGuarded) (Traced IsGuarded) AnyCheckpoint
        (λ journal. Traced (Loaded journal)) Guarded-IsChain env outside graph_id checkpoint tt
        (λ desired journal plan operation receipt e world h.
          mutate-Runs env outside graph_id desired checkpoint journal plan operation receipt world
            (h.0, known operation.id journal receipt world.trace e h.1))

  -- If in the effects so far each apply of the target came after a receipt of its operation, which
  -- the journal showed or a started receipt that it took, then this holds after any pass too,
  -- whatever the journal, the target, the core and the files answer, and also where the pass fails.
  pub reconcile_once-IsGuarded :
      (graph_id : Bytes) (expected_sequence : ℕ) (world : World)
      → IsGuarded world.trace
      → IsGuarded (reconcile_once env outside graph_id expected_sequence world).1.trace
  unfolding reconcile_once load
  reconcile_once-IsGuarded graph_id expected_sequence =
      bind-Keeps (Traced IsGuarded) (load outside graph_id) _ (λ world h. h)
        (λ found.
          bind-Keeps (Traced IsGuarded) _ _ (λ world h. h)
            (λ checkpoint.
              if_keeps {A = Exec Unit} (λ m. Keeps (Traced IsGuarded) m)
                (checkpoint.retired || not (checkpoint.sequence == expected_sequence)) (pure tt)
                (run_pass env outside graph_id checkpoint) (λ _ world h. h)
                (λ _. run_pass-Keeps graph_id checkpoint)))
