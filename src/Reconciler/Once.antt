-- ===== src/Reconciler/Once.antt =====
-- A pass of reconciler.rs applies at most one operation.
use connector_supabase.Common.{
  ℕ, suc, ◌≤◌, ◌||◌, not, Option, List, [], ◌∷◌, ◌≡◌, refl, arith, Bytes, ◌==◌, if_keeps,
}
use connector_supabase.External.{External}
use connector_supabase.Journal.{JournalSnapshot, OperationState}
use connector_supabase.Plan.{ExecutablePlan, PlannedOperation}
use connector_supabase.Reconciler.{
  Checkpoint, Effect, journal_loaded, journal_appended, target_observed, target_applied,
  slice_reported, plan_persisted, plan_loaded, slice_fetched, pass_scheduled, World, Outside,
}
use connector_supabase.Reconciler.Apply.{mutate}
use connector_supabase.Reconciler.Chain.{IsChain, Nothing, run_pass-Leads}
use connector_supabase.Reconciler.Keeps.{
  IsOther, IsStable, AnyCheckpoint, Traced-IsStable, Leads, bind-Leads,
}
use connector_supabase.Reconciler.Monad.{Exec, pure}
use connector_supabase.Reconciler.Pass.{run_pass, reconcile_once}
use connector_supabase.Reconciler.Quiet.{start_unless-Keeps, settle-Keeps}
use connector_supabase.Reconciler.Store.{load}
use connector_supabase.Slice.{DesiredSlice}

-- The number of applies of the target.
abbrev pub applies : List Effect → ℕ
applies [] = 0
applies (target_applied plan operation answer ∷ trace) = suc (applies trace)
applies (_ ∷ trace) = applies trace

abbrev Exactly : ℕ → World → Type 0
Exactly n world = applies world.trace ≡ n

abbrev AtMostOne : ℕ → World → Type 0
AtMostOne n world = applies world.trace ≤ suc n

other_effects :
    (n : ℕ) (e : Effect) (trace : List Effect)
    → IsOther e
    → applies trace ≡ n
    → applies (e ∷ trace) ≡ n
other_effects n (target_applied plan operation answer) trace o h = elim o [ ]
other_effects n (journal_loaded answer) trace o h = h
other_effects n (journal_appended tail event answer) trace o h = h
other_effects n (target_observed answer) trace o h = h
other_effects n (slice_reported request answer) trace o h = h
other_effects n (plan_persisted plan answer) trace o h = h
other_effects n (plan_loaded path answer) trace o h = h
other_effects n (slice_fetched request answer) trace o h = h
other_effects n (pass_scheduled graph_id sequence delay) trace o h = h

Exactly-IsStable : (n : ℕ) → IsStable (Exactly n) AnyCheckpoint
Exactly-IsStable n = Traced-IsStable (λ trace. applies trace ≡ n) (other_effects n)

one_more : (k n : ℕ) → k ≡ n → suc k ≡ suc n
one_more k n e = omega (arith, e)

within : (k n : ℕ) → k ≡ n → k ≤ suc n
within k n e = omega (arith, e)

exact : (k n : ℕ) → k ≡ suc n → k ≤ suc n
exact k n e = omega (arith, e)

Exactly-IsChain : (n : ℕ) → IsChain (Exactly n) (AtMostOne n) AnyCheckpoint Nothing
Exactly-IsChain n = record {
  stable = Exactly-IsStable n;
  weaker = λ world h. within (applies world.trace) n h;
  knows = λ journal e world h. tt;
  loaded = λ journal world. tt;
}

module _ (env : External) (outside : Outside) where
  mutate-Leads :
      (n : ℕ) (graph_id : Bytes) (checkpoint : Checkpoint) (desired : DesiredSlice)
      (journal : JournalSnapshot) (plan : ExecutablePlan) (operation : PlannedOperation)
      (receipt : Option OperationState)
      → Leads
          (Exactly n)
          (AtMostOne n)
          (mutate env outside graph_id desired checkpoint journal plan operation receipt)
  unfolding mutate
  mutate-Leads n graph_id checkpoint desired journal plan operation receipt =
      bind-Leads (Exactly n) (Exactly n) (AtMostOne n) _ _
        (start_unless-Keeps (Exactly n) AnyCheckpoint (Exactly-IsStable n) env outside graph_id
          desired checkpoint tt journal plan operation receipt journal.tail)
        (λ tail.
          bind-Leads (Exactly n) (Exactly (suc n)) (AtMostOne n) _ _
            (λ world h. one_more (applies world.trace) n h)
            (λ answer world h. exact _ n (
              settle-Keeps (Exactly (suc n)) AnyCheckpoint (Exactly-IsStable (suc n)) env outside
                graph_id desired checkpoint tt journal plan operation receipt tail answer world h))
            (λ world h. exact _ n h))
        (λ world h. within _ n h)

  reconcile_once-Leads :
      (n : ℕ) (graph_id : Bytes) (expected_sequence : ℕ)
      → Leads (Exactly n) (AtMostOne n) (reconcile_once env outside graph_id expected_sequence)
  unfolding reconcile_once load
  reconcile_once-Leads n graph_id expected_sequence =
      bind-Leads (Exactly n) (Exactly n) (AtMostOne n) (load outside graph_id) _ (λ world h. h)
        (λ found.
          bind-Leads (Exactly n) (Exactly n) (AtMostOne n) _ _ (λ world h. h)
            (λ checkpoint.
              if_keeps {A = Exec Unit} (λ m. Leads (Exactly n) (AtMostOne n) m)
                (checkpoint.retired || not (checkpoint.sequence == expected_sequence)) (pure tt)
                (run_pass env outside graph_id checkpoint) (λ _ world h. within _ n h)
                (λ _.
                  run_pass-Leads (Exactly n) (AtMostOne n) AnyCheckpoint Nothing (Exactly-IsChain n)
                    env outside graph_id checkpoint tt
                    (λ desired journal plan operation receipt e world h.
                      mutate-Leads n graph_id checkpoint desired journal plan operation receipt
                        world h.0)))
            (λ world h. within _ n h))
        (λ world h. within _ n h)

  -- A pass applies at most one operation to the target, whatever the journal, the target, the core
  -- and the files answer.
  pub reconcile_once-applies :
      (graph_id : Bytes) (expected_sequence : ℕ) (world : World)
      → applies (reconcile_once env outside graph_id expected_sequence world).1.trace
        ≤ suc (applies world.trace)
  reconcile_once-applies graph_id expected_sequence world =
      reconcile_once-Leads (applies world.trace) graph_id expected_sequence world refl
