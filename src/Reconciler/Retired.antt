-- ===== src/Reconciler/Retired.antt =====
-- `Reconciler::retire` of reconciler.rs, and what `accept` does after it.
use connector_supabase.Common.{
  ℕ, Bool, true, false, ap, ◌∙◌, bytes_eq, bytes_eq_iff, if◌then◌else◌, ◌||◌, not, Option, none,
  some, String, ◌≡◌, refl, sym, subst, Bytes, Result, ok, err, ok-injective, ltb, ◌==◌, if_keeps,
  shown, [], ◌∷◌,
}
use connector_supabase.External.{External}
use connector_supabase.Reconciler.{ReconcileError, retired, state, Checkpoint, World, Outside}
use connector_supabase.Reconciler.Fence.{retained}
use connector_supabase.Reconciler.Level.{
  accept_after, accept_desired, release, retire_after, retire,
}
use connector_supabase.Reconciler.Monad.{Exec, ◌>>◌, proceed, fail, pure}
use connector_supabase.Reconciler.Receipts.{load_journal}
use connector_supabase.Reconciler.Store.{
  store, remove_desired, lookup, lookup-store, load, read_with, save, write_with,
}
use connector_supabase.Slice.{DesiredSlice}

-- The checkpoint of a graph, where there is one, is the graph's own.
abbrev pub IsFiled : Bytes → World → Type 0
IsFiled graph_id world = (c : Checkpoint) → retained graph_id world ≡ some c → c.graph_id ≡ graph_id

same_file :
    (same : Bool) (g : Bytes) (c d : Checkpoint)
    → (same ≡ true → g ≡ d.graph_id)
    → ◌≡◌ {A = Option Checkpoint} (if same then some d else none) (some c)
    → c.graph_id ≡ g
same_file true g c d k h =
    ap (λ (o : Option Checkpoint). elim o [ none ↦ d.graph_id | some x ↦ x.graph_id ]) (sym h)
    ∙ sym (k refl)
same_file false g c d k h = cc

-- One file under its own name.
pub one_file-IsFiled :
    (d : Checkpoint) (world : World) (g : Bytes)
    → world.checkpoints ≡ (d.graph_id, d) ∷ []
    → IsFiled g world
one_file-IsFiled d world g e c h =
    same_file (bytes_eq g d.graph_id) g c d (λ x. (bytes_eq_iff g d.graph_id).0 x)
      (ap (lookup g) (sym e) ∙ h)

-- Where the call succeeds it answers the generation, and the checkpoint that it leaves is retired.
abbrev Retires : Bytes → ℕ → Result ℕ ReconcileError × World → Type 0
Retires graph_id generation after =
    (n : ℕ)
    → after.0 ≡ ok n
    → (n ≡ generation)
      × ((c : Checkpoint) × ((retained graph_id after.1 ≡ some c) × (c.retired ≡ true)))

proceed-Retires :
    {A : Type 0} (graph_id : Bytes) (generation : ℕ) (f : A → Exec ℕ)
    (r : Result A ReconcileError × World)
    → ((a : A) (world : World) → Retires graph_id generation (f a world))
    → Retires graph_id generation (proceed f r)
unfolding proceed
proceed-Retires graph_id generation f (ok a, world) h = h a world
proceed-Retires graph_id generation f (err e, world) h = λ n eq. cc

module _ (env : External) (outside : Outside) (graph_id : Bytes) (generation : ℕ) where
  retained-store :
      (c : Checkpoint) (world : World)
      → c.graph_id ≡ graph_id
      → lookup graph_id (store c.graph_id c world.checkpoints) ≡ some c
  retained-store c world e =
      subst (λ key. lookup key (store c.graph_id c world.checkpoints) ≡ some c) e
        (lookup-store c.graph_id c world.checkpoints)

  write_with-Retires :
      (c : Checkpoint) (write sync : Option String) (world : World)
      → c.graph_id ≡ graph_id
      → c.retired ≡ true
      → Retires graph_id generation (
          proceed
            (λ _. remove_desired graph_id >> pure generation)
            (write_with outside write sync c world))
  unfolding proceed
  write_with-Retires c none none world e r =
      λ n eq. (sym (ok-injective eq), (c, (retained-store c world e, r)))
  write_with-Retires c none (some error) world e r = λ n eq. cc
  write_with-Retires c (some error) sync world e r = λ n eq. cc

  release-Retires :
      (c : Checkpoint) (world : World)
      → c.graph_id ≡ graph_id
      → Retires graph_id generation (release env outside graph_id c generation world)
  unfolding save
  release-Retires c world e =
      proceed-Retires graph_id generation _ (load_journal outside world) (λ journal world₁.
        proceed-Retires graph_id generation _ _ (λ tail world₂.
          write_with-Retires (record c { retired = true; current_plan = none; last_report = none })
            _ _ world₂ e refl))

  retire_after-Retires :
      (sequence : ℕ) (found : Option Checkpoint) (world : World)
      → IsFiled graph_id world
      → retained graph_id world ≡ found
      → Retires graph_id generation
          (retire_after env outside graph_id generation sequence found world)
  unfolding retire_after
  retire_after-Retires sequence none world filed h = λ n eq. cc
  retire_after-Retires sequence (some c) world filed h =
      if_keeps {A = Exec ℕ} (λ m. Retires graph_id generation (m world))
        (not (c.generation == generation) || ltb sequence c.sequence) (fail _) _ (λ _ n eq. cc)
        (λ _.
          if_keeps {A = Exec ℕ} (λ m. Retires graph_id generation (m world)) c.retired
            (pure generation) (release env outside graph_id c generation)
            (λ r n eq. (sym (ok-injective eq), (c, (h, r))))
            (λ _. release-Retires c world (filed c h)))

  read_with-Retires :
      (sequence : ℕ) (failure : Option String) (world : World)
      → IsFiled graph_id world
      → Retires graph_id generation (
          proceed
            (retire_after env outside graph_id generation sequence)
            (read_with outside failure graph_id world, world))
  unfolding proceed
  read_with-Retires sequence none world filed =
      retire_after-Retires sequence (retained graph_id world) world filed refl
  read_with-Retires sequence (some error) world filed = λ n eq. cc

  retire-Retires :
      (sequence : ℕ) (world : World)
      → IsFiled graph_id world
      → Retires graph_id generation (retire env outside graph_id generation sequence world)
  unfolding retire load
  retire-Retires sequence world filed = read_with-Retires sequence _ world filed

module _ (env : External) (outside : Outside) (desired : DesiredSlice) where
  abbrev IsRefused : World → Result ℕ ReconcileError × World → Type 0
  IsRefused world answer = (e : ReconcileError) × (answer ≡ (err e, world))

  read_with-IsRefused :
      (failure : Option String) (world : World) (c : Checkpoint)
      → retained desired.graph_id world ≡ some c
      → c.retired ≡ true
      → IsRefused world (
          proceed
            (accept_after env outside desired)
            (read_with outside failure desired.graph_id world, world))
  unfolding proceed accept_after
  read_with-IsRefused none world c h r = (retired, rw (h, r) refl)
  read_with-IsRefused (some error) world c h r = (state (shown error ∷ []), refl)

  accept_desired-IsRefused :
      (world : World) (c : Checkpoint)
      → retained desired.graph_id world ≡ some c
      → c.retired ≡ true
      → IsRefused world (accept_desired env outside desired world)
  unfolding accept_desired load
  accept_desired-IsRefused world c h r = read_with-IsRefused _ world c h r

  -- Where the checkpoint of the graph is its own and `retire` succeeds, it answers the generation, and
  -- after it `accept` refuses every slice of the graph with an error and changes nothing.
  pub retire-accept_desired :
      (generation sequence n : ℕ) (world : World)
      → IsFiled desired.graph_id world
      → (retire env outside desired.graph_id generation sequence world).0 ≡ ok n
      → (n ≡ generation)
        × ((e : ReconcileError) × (accept_desired env outside desired
                (retire env outside desired.graph_id generation sequence world).1
              ≡ (err e, (retire env outside desired.graph_id generation sequence world).1)))
  retire-accept_desired generation sequence n world filed h =
      let (answer, (c, (found, r))) =
        retire-Retires env outside desired.graph_id generation sequence world filed n h in
      (answer, accept_desired-IsRefused _ c found r)
