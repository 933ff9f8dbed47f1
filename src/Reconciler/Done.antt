-- ===== src/Reconciler/Done.antt =====
-- One level that `resume` of reconciler.rs takes up is done: it is retired, or it is loaded and a pass
-- of it is scheduled.
use connector_supabase.Common.{
  ℕ, Bool, true, false, some, ◌≡◌, ◌⊎◌, inl, inr, refl, sym, subst, ◌∙◌, ap, Any, Bytes, bytes_eq,
  bytes_eq_iff, Bool-cases,
}
use mathlib.Core.Option.{some-injective}
use connector_supabase.External.{External}
use connector_supabase.Reconciler.{Checkpoint, Effect, pass_scheduled, World, Outside}
use connector_supabase.Reconciler.Fence.{retained}
use connector_supabase.Reconciler.Keeps.{IsStable}
use connector_supabase.Reconciler.Levels.{level_of, lookup-store_other, retained-replace_file}
use connector_supabase.Reconciler.Loads.{same_contents-digest, first_delay-Keeps, fetch_slice-Keeps}
use connector_supabase.Reconciler.Resume.{same_contents, resume_level, resume_unless}
use connector_supabase.Reconciler.Store.{
  lookup, lookup-store, store, replace_file, insert_desired, schedule,
}
use connector_supabase.Slice.{DesiredSlice}
use connector_supabase.Slice.Digest.{desired_digest}
use connector_supabase.Reconciler.Ensures.{Ensures, bind-Ensures, lift-Ensures}

abbrev pub IsPassOf : Bytes → ℕ → Effect → Type 0
IsPassOf g sequence effect = (delay : ℕ) × (effect ≡ pass_scheduled g sequence delay)

abbrev pub Same : Checkpoint → Checkpoint → Type 0
Same c d = (level_of c ≡ level_of d) × (c.retired ≡ d.retired)

-- The graph retains the level of a checkpoint.
abbrev pub Kept : Bytes → Checkpoint → World → Type 0
Kept g d world = (c : Checkpoint) × ((retained g world ≡ some c) × Same c d)

-- A checkpoint of the graph has that level.
abbrev pub Fits : Bytes → Checkpoint → Checkpoint → Type 0
Fits g d c = c.graph_id ≡ g → Same c d

Kept-replace_file :
    (g : Bytes) (d c : Checkpoint) (world : World)
    → Fits g d c
    → Kept g d world
    → Kept g d (replace_file c world)
Kept-replace_file g d c world fits kept =
    retained-replace_file (λ o. (x : Checkpoint) × ((o ≡ some x) × Same x d)) g c world
      (λ own. (c, (refl, fits (sym own)))) kept

pub Fits-retained :
    (g : Bytes) (d c : Checkpoint) (world : World)
    → Kept g d world
    → retained g world ≡ some c
    → Same c d
Fits-retained g d c world kept r =
    let (x, (r', same)) = kept in subst (λ y. Same y d) (some-injective _ _ (sym r' ∙ r)) same

module _ (env : External) (outside : Outside) where
  -- The slice of the level is loaded.
  abbrev pub HasSlice : Bytes → Checkpoint → World → Type 0
  HasSlice g d world =
      (slice : DesiredSlice) × ((lookup g world.desired ≡ some slice)
        × (desired_digest env slice ≡ d.desired_digest))

  pub HasSlice-insert :
      (g : Bytes) (d c : Checkpoint) (desired : DesiredSlice) (world : World)
      → Fits g d c
      → desired_digest env desired ≡ c.desired_digest
      → HasSlice g d world
      → HasSlice g d (record world { desired = store c.graph_id desired world.desired })
  HasSlice-insert g d c desired world fits same (slice, (found, digest)) =
      elim (Bool-cases (bytes_eq g c.graph_id)) [
        | inl e ↦
            let own = (bytes_eq_iff g c.graph_id).0 e in
            (
              desired,
              (
                subst (λ k. lookup k (store c.graph_id desired world.desired) ≡ some desired)
                    (sym own) (lookup-store c.graph_id desired world.desired),
                same ∙ ap (λ (l : ℕ × (ℕ × Bytes)). l.1.1) (fits (sym own)).0,
              ),
            )
        | inr e ↦ (slice, (lookup-store_other g c.graph_id desired world.desired e ∙ found, digest))
      ]

  -- A level is retired, or its slice is loaded and a pass of it is scheduled.
  abbrev pub Done : Bytes → Checkpoint → World → Type 0
  Done g d world =
      Kept g d world
      × ((d.retired ≡ true) ⊎ (HasSlice g d world × Any (IsPassOf g d.sequence) world.trace))

  pub Done-IsStable : (g : Bytes) (d : Checkpoint) → IsStable (Done g d) (Fits g d)
  Done-IsStable g d = record {
    effect = λ e world o h. (h.0, elim h.1 [ inl r ↦ inl r | inr (s, p) ↦ inr (s, inr p) ]);
    write = λ c world s h. (Kept-replace_file g d c world s h.0, h.1);
    report = λ c r s. s;
    plan = λ c path s. s;
  }

  abbrev Loaded : Checkpoint → World → Type 0
  Loaded d world = Kept d.graph_id d world × HasSlice d.graph_id d world

  Loaded-IsStable : (d : Checkpoint) → IsStable (Loaded d) (Fits d.graph_id d)
  Loaded-IsStable d = record {
    effect = λ e world o h. h;
    write = λ c world s h. (Kept-replace_file d.graph_id d c world s h.0, h.1);
    report = λ c r s. s;
    plan = λ c path s. s;
  }

  abbrev pub Start : Checkpoint → World → Type 0
  Start d world = retained d.graph_id world ≡ some d

  Start-IsStable : (d : Checkpoint) → IsStable (Start d) (λ c. ⊥)
  Start-IsStable d = record {
    effect = λ e world o h. h;
    write = λ c world s h. elim s [ ];
    report = λ c r s. s;
    plan = λ c path s. s;
  }

  insert_desired-Ensures :
      (d : Checkpoint) (desired : DesiredSlice)
      → desired_digest env desired ≡ d.desired_digest
      → Ensures (Start d) (Loaded d) (insert_desired d.graph_id desired)
  insert_desired-Ensures d desired same world h a e =
      ((d, (h, (refl, refl))), (desired, (lookup-store d.graph_id desired world.desired, same)))

  schedule-Ensures :
      (d : Checkpoint) (delay : ℕ)
      → Ensures (Loaded d) (Done d.graph_id d) (schedule d.graph_id d.sequence delay)
  unfolding schedule
  schedule-Ensures d delay world h a e = (h.0, inr (h.1, inl (delay, refl)))

  pub resume_unless-Ensures :
      (passed : Bool) (d : Checkpoint)
      → d.retired ≡ passed
      → Ensures (Start d) (Done d.graph_id d) (resume_unless env outside passed d)
  unfolding resume_level
  resume_unless-Ensures true d r = λ world h a e. ((d, (h, (refl, refl))), inl r)
  resume_unless-Ensures false d r =
      bind-Ensures (Start d) (Start d) (Done d.graph_id d) _ _
        (λ world h a e.
          fetch_slice-Keeps env outside (Start d) (λ c. ⊥) _ _ (Start-IsStable d) world h)
        (λ recovered. lift-Ensures (Start d) (Done d.graph_id d) _ _ (λ desired valid.
          lift-Ensures (Start d) (Done d.graph_id d) (same_contents env outside d desired) _
            (λ u same.
              bind-Ensures (Start d) (Loaded d) (Done d.graph_id d)
                (insert_desired d.graph_id desired) _
                (insert_desired-Ensures d desired
                  (same_contents-digest env outside d desired u same))
                (λ _.
                  bind-Ensures (Loaded d) (Loaded d) (Done d.graph_id d) _ _
                    (λ world h a e.
                      first_delay-Keeps env outside (Loaded d) (Fits d.graph_id d) d _
                        (Loaded-IsStable d) (λ own. (refl, refl)) world h)
                    (λ delay.
                      bind-Ensures (Loaded d) (Done d.graph_id d) (Done d.graph_id d) _ _
                        (schedule-Ensures d delay) (λ _ world h a e. h))))))
