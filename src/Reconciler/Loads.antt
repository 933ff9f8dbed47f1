-- ===== src/Reconciler/Loads.antt =====
-- What calls of reconciler.rs keep after they loaded a checkpoint, and what `resume` keeps.
use connector_supabase.Common.{
  ℕ, ◌+◌, arith, Bool, true, false, Option, none, some, String, List, [], ◌∷◌, ◌≡◌, refl, Bytes,
  Result, ok, err, bytes_eq_iff, ok_or,
}
use connector_supabase.External.{External}
use connector_supabase.Reconciler.{
  ReconcileError, Checkpoint, ReportSnapshot, GraphEntry, graph_file, other_file, World, Outside,
}
use connector_supabase.Reconciler.Fence.{retained}
use connector_supabase.Reconciler.Keeps.{
  IsStable, Keeps, bind-Keeps, schedule-Keeps, deliver_pending_report-Keeps,
}
use connector_supabase.Reconciler.Monad.{Exec, ◌>>=◌, proceed, lift}
use connector_supabase.Reconciler.Resume.{
  fetch_slice, read_listed, first_delay, resume_level, resume_unless, resume_entries, same_contents,
}
use connector_supabase.Reconciler.Store.{load, read_with, store}
use connector_supabase.Slice.{DesiredSlice}
use connector_supabase.Slice.Digest.{desired_digest}

-- A checkpoint that was loaded is the one that the world retains.
module _ (P : World → Type 0) (outside : Outside) (graph_id : Bytes) where
  read_with-Keeps :
      {A : Type 0} (f : Option Checkpoint → Exec A) (failure : Option String) (world : World)
      → ((o : Option Checkpoint) (w : World) → retained graph_id w ≡ o → P w → P (f o w).1)
      → P world
      → P (proceed f (read_with outside failure graph_id world, world)).1
  unfolding proceed
  read_with-Keeps f none world k h = k (retained graph_id world) world refl h
  read_with-Keeps f (some error) world k h = h

  pub load-Keeps :
      {A : Type 0} (f : Option Checkpoint → Exec A)
      → ((o : Option Checkpoint) (w : World) → retained graph_id w ≡ o → P w → P (f o w).1)
      → Keeps P (load outside graph_id >>= f)
  unfolding load
  load-Keeps f k world h = read_with-Keeps f _ world k h

  pub found-Keeps :
      {A : Type 0} (f : Checkpoint → Exec A) (o : Option Checkpoint) (e : ReconcileError)
      (world : World)
      → ((c : Checkpoint) (w : World) → retained graph_id w ≡ some c → P w → P (f c w).1)
      → retained graph_id world ≡ o
      → P world
      → P (proceed f (ok_or o e, world)).1
  unfolding proceed
  found-Keeps f none e world k r h = h
  found-Keeps f (some c) e world k r h = k c world r h

  -- What holds of the call after a checkpoint, and of an error, holds of the whole.
  module _ {A : Type 0} (T : Result A ReconcileError × World → Type 0) (f : Checkpoint → Exec A)
      (goes : (c : Checkpoint) (w : World) → retained graph_id w ≡ some c → P w → T (f c w))
      (fails : (e : ReconcileError) (w : World) → P w → T (err e, w)) where
    found_then :
        (o : Option Checkpoint) (e : ReconcileError) (world : World)
        → retained graph_id world ≡ o
        → P world
        → T (proceed f (ok_or o e, world))
    unfolding proceed
    found_then none e world r h = fails e world h
    found_then (some c) e world r h = goes c world r h

    listed_then :
        (failure : Option String) (e : ReconcileError) (world : World)
        → P world
        → T (
            proceed f (
              proceed
                (λ found. lift (ok_or found e))
                (read_with outside failure graph_id world, world)))
    unfolding proceed
    listed_then none e world h = found_then (retained graph_id world) e world refl h
    listed_then (some error) e world h = fails _ world h

    pub read_listed_then :
        (world : World) → P world → T ((read_listed outside graph_id >>= f) world)
    unfolding read_listed load
    read_listed_then world h = listed_then _ _ world h

  pub read_listed-Keeps :
      {A : Type 0} (f : Checkpoint → Exec A)
      → ((c : Checkpoint) (w : World) → retained graph_id w ≡ some c → P w → P (f c w).1)
      → Keeps P (read_listed outside graph_id >>= f)
  read_listed-Keeps f k = read_listed_then (λ r. P r.1) f k (λ e w h. h)

-- A property that holds on while levels are resumed: what the world retains may be written again, and
-- the slice that was fetched may be loaded where it has the digest of the checkpoint.
pub record IsResumable (env : External) (P : World → Type 0) (S : Checkpoint → Type 0)
    : Type 0 where
  pub stable : IsStable P S
  pub kind :
      (g : Bytes) (c : Checkpoint) (world : World) → P world → retained g world ≡ some c → S c
  pub insert :
      (c : Checkpoint) (desired : DesiredSlice) (world : World)
      → S c
      → desired_digest env desired ≡ c.desired_digest
      → P world
      → P (record world { desired = store c.graph_id desired world.desired })

-- `?` on a plain result.
pub lift-Keeps :
    {A B : Type 0} (P : World → Type 0) (r : Result A ReconcileError) (f : A → Exec B)
    → ((a : A) → r ≡ ok a → Keeps P (f a))
    → Keeps P (lift r >>= f)
unfolding proceed
lift-Keeps P (ok a) f k world h = k a refl world h
lift-Keeps P (err e) f k world h = h

pub same_contents-digest :
    (env : External) (outside : Outside) (c : Checkpoint) (desired : DesiredSlice) (u : Unit)
    → same_contents env outside c desired ≡ ok u
    → desired_digest env desired ≡ c.desired_digest
same_contents-digest env outside c desired u h =
    (bytes_eq_iff (desired_digest env desired) c.desired_digest).0 (ground arith)

module _ (env : External) (outside : Outside) (P : World → Type 0) (S : Checkpoint → Type 0) where
  pub first_delay-Keeps :
      (checkpoint : Checkpoint) (pending : Option ReportSnapshot)
      → IsStable P S
      → S checkpoint
      → Keeps P (first_delay outside checkpoint pending)
  first_delay-Keeps checkpoint none stable k = λ world h. h
  first_delay-Keeps checkpoint (some snapshot) stable k =
      bind-Keeps P _ _ (deliver_pending_report-Keeps P S stable outside checkpoint k)
        (λ _ world h. h)

  pub fetch_slice-Keeps :
      (graph_id : Bytes) (sequence : ℕ)
      → IsStable P S
      → Keeps P (fetch_slice outside graph_id sequence)
  unfolding fetch_slice
  fetch_slice-Keeps graph_id sequence stable =
      bind-Keeps P _ _ (λ world h. stable.effect _ world tt h)
        (λ answer. bind-Keeps P _ _ (λ world h. h) (λ slice world h. h))

  module _ (resumable : IsResumable env P S) where
    pub resume_unless-Keeps :
        (passed : Bool) (checkpoint : Checkpoint)
        → S checkpoint
        → Keeps P (resume_unless env outside passed checkpoint)
    unfolding resume_level
    resume_unless-Keeps true checkpoint k = λ world h. h
    resume_unless-Keeps false checkpoint k =
        bind-Keeps P _ _ (fetch_slice-Keeps _ _ resumable.stable) (λ recovered.
          bind-Keeps P _ _ (λ world h. h)
            (λ desired. lift-Keeps P (same_contents env outside checkpoint desired) _ (λ u same.
              bind-Keeps P _ _
                (λ world h.
                  resumable.insert checkpoint desired world k
                    (same_contents-digest env outside checkpoint desired u same) h)
                (λ _. bind-Keeps P _ _ (first_delay-Keeps checkpoint _ resumable.stable k) (λ delay.
                  bind-Keeps P _ _ (schedule-Keeps P S resumable.stable _ _ _) (λ _ world h. h))))))

    pub resume_entries-Keeps :
        (count : ℕ) (entries : List (Result GraphEntry String))
        → Keeps P (resume_entries env outside count entries)
    unfolding resume_entries
    resume_entries-Keeps count [] = λ world h. h
    resume_entries-Keeps count (err error ∷ entries) = λ world h. h
    resume_entries-Keeps count (ok other_file ∷ entries) = resume_entries-Keeps count entries
    resume_entries-Keeps count (ok (graph_file graph_id) ∷ entries) =
        read_listed-Keeps P outside graph_id _ (λ c w r h.
          bind-Keeps P (resume_unless env outside c.retired c) _
            (resume_unless-Keeps c.retired c (resumable.kind graph_id c w h r))
            (λ added. resume_entries-Keeps (count + added) entries) w h)
