-- ===== src/Reconciler/Resumed.antt =====
-- `Reconciler::resume` of reconciler.rs leaves no live level behind.
use connector_supabase.Common.{
  ℕ, ◌+◌, true, some, String, List, [], ◌∷◌, ◌≡◌, ◌⊎◌, inl, inr, refl, sym, subst, ◌∙◌, ap, Any,
  All, Bytes, Result, ok, err,
}
use connector_supabase.External.{External}
use connector_supabase.Reconciler.{Checkpoint, GraphEntry, graph_file, other_file, World, Outside}
use connector_supabase.Reconciler.Fence.{retained}
use connector_supabase.Reconciler.Levels.{Moved, Moved-refl, Follows}
use connector_supabase.Reconciler.Loads.{
  read_listed_then, IsResumable, resume_unless-Keeps, resume_entries-Keeps,
}
use connector_supabase.Reconciler.Monad.{◌>>=◌, proceed}
use connector_supabase.Reconciler.Moves.{Moved-IsResumable}
use connector_supabase.Reconciler.Resume.{resume_unless, resume_entries, resume}
use connector_supabase.Reconciler.Retired.{IsFiled}
use connector_supabase.Reconciler.Store.{lookup}
use connector_supabase.Slice.{DesiredSlice}
use connector_supabase.Slice.Digest.{desired_digest}
use connector_supabase.Reconciler.Done.{
  IsPassOf, Fits, Fits-retained, HasSlice-insert, Done, Done-IsStable, resume_unless-Ensures,
}
use connector_supabase.Reconciler.Ensures.{After, Ensures, proceed-After}

module _ (env : External) (outside : Outside) where
  module _ (first : World) where
    -- With what all levels keep.
    Done-IsResumable :
        (g : Bytes) (d : Checkpoint)
        → IsResumable env
            (λ world. Moved first world × Done env outside g d world)
            (λ c. Follows first c × Fits g d c)
    Done-IsResumable g d =
        let moved = Moved-IsResumable env outside first in
        let stable = Done-IsStable env outside g d in
        record {
          stable = record {
            effect =
                λ e world o h. (moved.stable.effect e world o h.0, stable.effect e world o h.1);
            write =
                λ c world s h. (moved.stable.write c world s.0 h.0, stable.write c world s.1 h.1);
            report = λ c r s. (moved.stable.report c r s.0, stable.report c r s.1);
            plan = λ c path s. (moved.stable.plan c path s.0, stable.plan c path s.1);
          };
          kind = λ g' c world h r. (
            moved.kind g' c world h.0 r,
            λ own.
                Fits-retained g d c world h.1.0
                  (subst (λ k. retained k world ≡ some c) (sym (h.0.filed g' c r) ∙ own) r),
          );
          insert = λ c desired world s same h. (
            moved.insert c desired world s.0 same h.0,
            (
              h.1.0,
              elim h.1.1 [
                | inl r ↦ inl r
                | inr (slice, p) ↦
                    inr (HasSlice-insert env outside g d c desired world s.1 same slice, p)
              ],
            ),
          );
        }

  -- What is resumed of a directory entry: the checkpoint of a graph is retired, or the slice of its
  -- digest is loaded and a pass of its sequence is scheduled.
  abbrev pub IsResumed : World → Result GraphEntry String → Type 0
  IsResumed world (ok (graph_file g)) =
      (c : Checkpoint) × ((retained g world ≡ some c)
        × ((c.retired ≡ true)
            ⊎ ((slice : DesiredSlice) × ((lookup g world.desired ≡ some slice)
                  × ((desired_digest env slice ≡ c.desired_digest)
                      × Any (IsPassOf g c.sequence) world.trace)))))
  IsResumed world (ok other_file) = Unit
  IsResumed world (err error) = Unit

  Done-IsResumed :
      (g : Bytes) (d : Checkpoint) (world : World)
      → Done env outside g d world
      → IsResumed world (ok (graph_file g))
  Done-IsResumed g d world ((c, (r, same)), inl passed) = (c, (r, inl (same.1 ∙ passed)))
  Done-IsResumed g d world ((c, (r, same)), inr ((slice, (found, digest)), pass)) = (
    c,
    (
      r,
      inr (
        slice,
        (
          found,
          (
            digest ∙ sym (ap (λ (l : ℕ × (ℕ × Bytes)). l.1.1) same.0),
            subst (λ n. Any (IsPassOf g n) world.trace)
                (sym (ap (λ (l : ℕ × (ℕ × Bytes)). l.1.0) same.0)) pass,
          ),
        ),
      ),
    ),
  )

  module _ (first : World) where
    resume_file-Ensures :
        (g : Bytes) (c : Checkpoint) (count : ℕ) (entries : List (Result GraphEntry String))
        (world : World)
        → ((added : ℕ)
            → Ensures
                (Moved first)
                (λ w. All (IsResumed w) entries)
                (resume_entries env outside (count + added) entries))
        → retained g world ≡ some c
        → Moved first world
        → After
            (λ w. All (IsResumed w) (ok (graph_file g) ∷ entries))
            ((resume_unless env outside c.retired c >>= λ added.
                resume_entries env outside (count + added) entries)
              world)
    resume_file-Ensures g c count entries world rest r h =
        let own = h.filed g c r in
        let start = subst (λ k. retained k world ≡ some c) (sym own) r in
        let moved = Moved-IsResumable env outside first in
        proceed-After (λ w. Moved first w × Done env outside g c w)
          (λ w. All (IsResumed w) (ok (graph_file g) ∷ entries)) _
          (resume_unless env outside c.retired c world)
          (λ a e. (
            resume_unless-Keeps env outside (Moved first) (Follows first) moved c.retired c
                (moved.kind g c world h r) world h,
            subst (λ k. Done env outside k c (resume_unless env outside c.retired c world).1) own
                (resume_unless-Ensures env outside c.retired c refl world start a e),
          ))
          (λ added w k a e. (
            Done-IsResumed g c _
                (resume_entries-Keeps env outside (λ w'. Moved first w' × Done env outside g c w')
                  (λ x. Follows first x × Fits g c x) (Done-IsResumable first g c) (count + added)
                  entries w k).1,
            rest added w k.0 a e,
          ))

    resume_entries-Ensures :
        (count : ℕ) (entries : List (Result GraphEntry String))
        → Ensures
            (Moved first)
            (λ world. All (IsResumed world) entries)
            (resume_entries env outside count entries)
    unfolding resume_entries
    resume_entries-Ensures count [] = λ world h a e. tt
    resume_entries-Ensures count (err error ∷ entries) = λ world h a e. cc
    resume_entries-Ensures count (ok other_file ∷ entries) =
        λ world h a e. (tt, resume_entries-Ensures count entries world h a e)
    resume_entries-Ensures count (ok (graph_file g) ∷ entries) =
        read_listed_then (Moved first) outside g
          (After (λ world. All (IsResumed world) (ok (graph_file g) ∷ entries))) _
          (λ c w r h.
            resume_file-Ensures g c count entries w
              (λ added. resume_entries-Ensures (count + added) entries) r h)
          (λ e w h a eq. cc)

  listed_entries :
      (first : World) (entries : List (Result GraphEntry String))
      → outside.graph_entries first.trace ≡ ok entries
      → ((g : Bytes) → IsFiled g first)
      → After (λ world. All (IsResumed world) entries) (resume env outside first)
  unfolding resume proceed
  listed_entries first entries e filed =
      rw e (resume_entries-Ensures first 0 entries first (Moved-refl first filed))

  -- Where each checkpoint is its own graph's, and the directory is listed and resume succeeds, the
  -- graph of each checkpoint file that was listed is retired, or its slice of the retained digest is
  -- loaded and a pass of its retained sequence is scheduled.
  pub resume-IsResumed :
      (world : World) (entries : List (Result GraphEntry String)) (count : ℕ)
      → ((g : Bytes) → IsFiled g world)
      → outside.graph_entries world.trace ≡ ok entries
      → (resume env outside world).0 ≡ ok count
      → All (IsResumed (resume env outside world).1) entries
  resume-IsResumed world entries count filed e h = listed_entries world entries e filed count h
