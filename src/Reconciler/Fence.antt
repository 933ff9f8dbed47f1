-- ===== src/Reconciler/Fence.antt =====
-- `Reconciler::accept` of reconciler.rs never moves a graph back.
use connector_supabase.Common.{
  ℕ, ◌≤◌, ◌<◌, true, false, not, Option, none, some, String, ◌≡◌, ◌⊎◌, inl, inr, refl, sym, subst,
  ◌∙◌, ap, arith, Bytes, Result, ok, ok-injective, bytes_eq, bytes_eq_iff, ltb, ◌==◌, if_keeps,
  ltb→lt, ==_iff,
}
use connector_supabase.External.{External}
use connector_supabase.Reconciler.{
  ReconcileError, retired, sequence_conflict, Checkpoint, World, Outside,
}
use connector_supabase.Reconciler.Level.{
  checkpoint_of, begin, replace, accept_after, accept_desired,
}
use connector_supabase.Reconciler.Monad.{Exec, proceed, fail, pure}
use connector_supabase.Reconciler.Store.{
  lookup, lookup-store, load, read_with, save, write_with, schedule,
}
use connector_supabase.Slice.{DesiredSlice}
use connector_supabase.Slice.Digest.{desired_digest}

-- The checkpoint of a graph.
abbrev pub retained : Bytes → World → Option Checkpoint
retained graph_id world = lookup graph_id world.checkpoints

-- A checkpoint stays, or one that is not retired gives way to a later one.
abbrev pub IsSuccessor : Checkpoint → Checkpoint → Type 0
IsSuccessor current next =
    (next ≡ current)
    ⊎ ((current.retired ≡ false)
        × ((current.sequence < next.sequence) × (current.generation ≤ next.generation)))

above : (m n : ℕ) → m < n → n ≡ m → ⊥
above m n l e = omega (arith, l, e)

pub later : (m n : ℕ) → ltb m n ≡ false → (m == n) ≡ false → n < m
later m n l e = ground (arith, l, e)

pub not_below : (m n : ℕ) → ltb m n ≡ false → n ≤ m
not_below m n l = ground (arith, l)

module _ (env : External) (outside : Outside) (desired : DesiredSlice) where
  -- What a replacement leaves: the old file or the new checkpoint, and the new one if it succeeds.
  abbrev Replaced : Option Checkpoint → Result ℕ ReconcileError × World → Type 0
  Replaced before after =
      ((retained desired.graph_id after.1 ≡ before)
        ⊎ (retained desired.graph_id after.1 ≡ some (checkpoint_of env outside desired)))
      × ((n : ℕ)
          → after.0 ≡ ok n
          → (n ≡ desired.sequence)
            × (retained desired.graph_id after.1 ≡ some (checkpoint_of env outside desired)))

  Replaced-write_with :
      (w s : Option String) (world : World)
      → Replaced (retained desired.graph_id world) (
          proceed
            (λ _. begin env outside desired)
            (write_with outside w s (checkpoint_of env outside desired) world))
  unfolding proceed schedule
  Replaced-write_with none none world = (
    inr (lookup-store desired.graph_id _ world.checkpoints),
    λ n e. (sym (ok-injective e), lookup-store desired.graph_id _ world.checkpoints),
  )
  Replaced-write_with none (some error) world =
      (inr (lookup-store desired.graph_id _ world.checkpoints), λ n e. cc)
  Replaced-write_with (some error) s world = (inl refl, λ n e. cc)

  Replaced-replace :
      (world : World)
      → Replaced (retained desired.graph_id world) (replace env outside desired world)
  unfolding save
  Replaced-replace world = Replaced-write_with _ _ world

  -- What `accept` leaves where the graph has a checkpoint: a successor of it, which, if the slice is
  -- accepted, has the sequence that is answered, which is not below the slice's, and at the slice's
  -- own sequence has the slice's digest.
  pub record Accepted (current next : Checkpoint) (after : Result ℕ ReconcileError × World)
      : Type 0 where
    pub retains : retained desired.graph_id after.1 ≡ some next
    pub successor : IsSuccessor current next
    pub answer : (n : ℕ) → after.0 ≡ ok n → (n ≡ next.sequence) × (desired.sequence ≤ n)
    pub contents :
        (n : ℕ)
        → after.0 ≡ ok n
        → n ≡ desired.sequence
        → next.desired_digest ≡ desired_digest env desired

  abbrev pub Outcome : Checkpoint → World → Exec ℕ → Type 0
  Outcome current world m = (next : Checkpoint) × Accepted current next (m world)

  refused :
      (current : Checkpoint) (world : World) (error : ReconcileError)
      → retained desired.graph_id world ≡ some current
      → Outcome current world (fail error)
  refused current world error h = (
    current,
    record { retains = h; successor = inl refl; answer = λ n e. cc; contents = λ n e _. cc },
  )

  superseded :
      (current : Checkpoint) (world : World)
      → retained desired.graph_id world ≡ some current
      → desired.sequence < current.sequence
      → Outcome current world (pure current.sequence)
  superseded current world h l = (
    current,
    record {
      retains = h;
      successor = inl refl;
      answer = λ n e. (sym (ok-injective e), omega (arith, l, ok-injective e));
      contents = λ n e s. elim (above desired.sequence current.sequence l (ok-injective e ∙ s)) [ ];
    },
  )

  repeated :
      (current : Checkpoint) (world : World)
      → retained desired.graph_id world ≡ some current
      → desired.sequence ≡ current.sequence
      → bytes_eq (desired_digest env desired) current.desired_digest ≡ true
      → Outcome current world (begin env outside desired)
  unfolding proceed schedule
  repeated current world h s d = (
    current,
    record {
      retains = h;
      successor = inl refl;
      answer = λ n e. (sym (ok-injective e) ∙ s, omega (arith, ok-injective e));
      contents =
          λ n e _. sym ((bytes_eq_iff (desired_digest env desired) current.desired_digest).0 d);
    },
  )

  -- The new checkpoint is not the old one, whose sequence is lower.
  not_stored :
      (current : Checkpoint)
      → some (checkpoint_of env outside desired) ≡ some current
      → current.sequence < desired.sequence
      → ⊥
  not_stored current e s =
      above current.sequence desired.sequence s
        (ap (λ (o : Option Checkpoint). elim o [ none ↦ 0 | some c ↦ c.sequence ]) e)

  advanced :
      (current : Checkpoint) (world : World)
      → retained desired.graph_id world ≡ some current
      → current.retired ≡ false
      → current.sequence < desired.sequence
      → current.generation ≤ desired.generation
      → Outcome current world (replace env outside desired)
  advanced current world h r s g =
      let (stored, answered) = Replaced-replace world in
      elim stored [
        | inl e ↦ (
          current,
          record {
            retains = e ∙ h;
            successor = inl refl;
            answer = λ n a. elim (not_stored current (sym (answered n a).1 ∙ e ∙ h) s) [ ];
            contents = λ n a _. elim (not_stored current (sym (answered n a).1 ∙ e ∙ h) s) [ ];
          },
        )
        | inr e ↦ (
          checkpoint_of env outside desired,
          record {
            retains = e;
            successor = inr (r, (s, g));
            answer = λ n a. ((answered n a).0, omega (arith, (answered n a).0));
            contents = λ n a _. refl;
          },
        )
      ]

  accept_after-Outcome :
      (current : Checkpoint) (world : World)
      → retained desired.graph_id world ≡ some current
      → Outcome current world (accept_after env outside desired (some current))
  unfolding accept_after
  accept_after-Outcome current world h =
      if_keeps {A = Exec ℕ} (Outcome current world) current.retired (fail retired) _
        (λ _. refused current world retired h)
        (λ r.
          if_keeps {A = Exec ℕ} (Outcome current world) (ltb desired.sequence current.sequence)
            (pure current.sequence) _ (λ l. superseded current world h (ltb→lt _ _ l))
            (λ l.
              if_keeps {A = Exec ℕ} (Outcome current world) (desired.sequence == current.sequence) _
                _
                (λ s.
                  if_keeps {A = Exec ℕ} (Outcome current world)
                    (not (bytes_eq (desired_digest env desired) current.desired_digest))
                    (fail (sequence_conflict desired.sequence)) (begin env outside desired)
                    (λ _. refused current world _ h)
                    (λ d. repeated current world h ((==_iff _ _).0 s) (ground (arith, d))))
                (λ s.
                  if_keeps {A = Exec ℕ} (Outcome current world)
                    (ltb desired.generation current.generation) _ (replace env outside desired)
                    (λ _. refused current world _ h)
                    (λ g.
                      advanced current world h r (later desired.sequence current.sequence l s)
                        (not_below desired.generation current.generation g)))))

  read_with-Outcome :
      (error : Option String) (current : Checkpoint) (world : World)
      → retained desired.graph_id world ≡ some current
      → (next : Checkpoint) × Accepted current next (
          proceed
            (accept_after env outside desired)
            (read_with outside error desired.graph_id world, world))
  unfolding proceed
  read_with-Outcome none current world h =
      subst
        (λ o.
          (next : Checkpoint) × Accepted current next (accept_after env outside desired o world))
        (sym h) (accept_after-Outcome current world h)
  read_with-Outcome (some error) current world h = refused current world _ h

  -- Where a graph has a checkpoint, `accept` leaves it one that is the same, or, if it is not
  -- retired, one of a later sequence and no earlier generation, whatever the files answer. If it
  -- answers with a sequence, that is the sequence of the checkpoint it leaves, it is not below the
  -- slice's, and where it is the slice's own the checkpoint has the digest of this very slice.
  pub accept_desired-Outcome :
      (current : Checkpoint) (world : World)
      → retained desired.graph_id world ≡ some current
      → Outcome current world (accept_desired env outside desired)
  unfolding accept_desired load
  accept_desired-Outcome current world h = read_with-Outcome _ current world h
