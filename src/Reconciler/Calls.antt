-- ===== src/Reconciler/Calls.antt =====
-- What every call of reconciler.rs but a pass keeps of the world: a property that the world has
-- whatever slices are loaded, and that the levels which a call may write keep.
use connector_supabase.Common.{
  ℕ, Bool, true, false, ◌||◌, not, Option, none, some, ◌≡◌, inr, Bytes, ltb, ◌==◌, bytes_eq,
  if_keeps, List,
}
use connector_supabase.External.{External}
use connector_supabase.Reconciler.{retired, sequence_conflict, Checkpoint, World, Outside}
use connector_supabase.Reconciler.Fence.{retained, later, not_below}
use connector_supabase.Reconciler.Keeps.{
  IsStable, Keeps, bind-Keeps, schedule-Keeps, save-Keeps, load_journal-Keeps, append-Keeps,
}
use connector_supabase.Reconciler.Level.{
  checkpoint_of, begin, replace, accept_after, accept_desired, accept, release, retire_after,
  retire,
}
use connector_supabase.Reconciler.Levels.{IsNext}
use connector_supabase.Reconciler.Loads.{load-Keeps, IsResumable, resume_entries-Keeps}
use connector_supabase.Reconciler.Monad.{Exec, pure, fail}
use connector_supabase.Reconciler.Resume.{resume}
use connector_supabase.Slice.{DesiredSlice, GraphSliceView}
use connector_supabase.Slice.Digest.{desired_digest}

contradicted : {A : Type 0} (b : Bool) → b ≡ false → b ≡ true → A
contradicted b f t = cc

-- The world retains levels of the kind, which are written where a call may: the first level of a
-- graph, the next one, and the retired one.
pub record IsUpheld (env : External) (outside : Outside) (P : World → Type 0)
    (S : Checkpoint → Type 0) : Type 0 where
  pub stable : IsStable P S
  pub kind :
      (g : Bytes) (c : Checkpoint) (world : World) → P world → retained g world ≡ some c → S c
  pub loads :
      (desired : List (Bytes × DesiredSlice)) (world : World)
      → P world
      → P (record world { desired = desired })
  pub begins :
      (desired : DesiredSlice) (world : World)
      → P world
      → retained desired.graph_id world ≡ none
      → S (checkpoint_of env outside desired)
  pub follows :
      (desired : DesiredSlice) (current : Checkpoint) (world : World)
      → P world
      → retained desired.graph_id world ≡ some current
      → IsNext current (checkpoint_of env outside desired)
      → S (checkpoint_of env outside desired)
  pub retires :
      (c : Checkpoint)
      → S c
      → S (record c { retired = true; current_plan = none; last_report = none })

module _ (env : External) (outside : Outside) (P : World → Type 0) (S : Checkpoint → Type 0)
    (upheld : IsUpheld env outside P S) where
  module _ (desired : DesiredSlice) where
    begin-Keeps : Keeps P (begin env outside desired)
    begin-Keeps =
        bind-Keeps P _ _ (λ world h. upheld.loads _ world h)
          (λ _. bind-Keeps P _ _ (schedule-Keeps P S upheld.stable _ _ _) (λ _ world h. h))

    replace-Keeps : S (checkpoint_of env outside desired) → Keeps P (replace env outside desired)
    replace-Keeps follows =
        bind-Keeps P _ _ (save-Keeps P S upheld.stable outside _ follows) (λ _. begin-Keeps)

    accept_after-Keeps :
        (o : Option Checkpoint) (world : World)
        → retained desired.graph_id world ≡ o
        → P world
        → P (accept_after env outside desired o world).1
    unfolding accept_after
    accept_after-Keeps none world r h = replace-Keeps (upheld.begins desired world h r) world h
    accept_after-Keeps (some current) world r h =
        if_keeps {A = Exec ℕ} (λ m. P (m world).1) current.retired (fail retired) _ (λ _. h)
          (λ live.
            if_keeps {A = Exec ℕ} (λ m. P (m world).1) (ltb desired.sequence current.sequence)
              (pure current.sequence) _ (λ _. h)
              (λ l.
                if_keeps {A = Exec ℕ} (λ m. P (m world).1) (desired.sequence == current.sequence) _
                  _
                  (λ _.
                    if_keeps {A = Exec ℕ} (λ m. P (m world).1)
                      (not (bytes_eq (desired_digest env desired) current.desired_digest))
                      (fail (sequence_conflict desired.sequence)) (begin env outside desired)
                      (λ _. h) (λ _. begin-Keeps world h))
                  (λ s.
                    if_keeps {A = Exec ℕ} (λ m. P (m world).1)
                      (ltb desired.generation current.generation) _ (replace env outside desired)
                      (λ _. h)
                      (λ g.
                        replace-Keeps
                          (upheld.follows desired current world h r (
                            inr (
                              live,
                              (
                                later desired.sequence current.sequence l s,
                                not_below desired.generation current.generation g,
                              ),
                            ),
                            contradicted current.retired live,
                          ))
                          world h))))

    accept_desired-Keeps : Keeps P (accept_desired env outside desired)
    unfolding accept_desired
    accept_desired-Keeps = load-Keeps P outside desired.graph_id _ accept_after-Keeps

  pub accept-Keeps : (request : Option GraphSliceView) → Keeps P (accept env outside request)
  unfolding accept
  accept-Keeps request = bind-Keeps P _ _ (λ world h. h) accept_desired-Keeps

  release-Keeps :
      (graph_id : Bytes) (generation : ℕ) (checkpoint : Checkpoint)
      → S checkpoint
      → Keeps P (release env outside graph_id checkpoint generation)
  release-Keeps graph_id generation checkpoint follows =
      bind-Keeps P _ _ (load_journal-Keeps P S upheld.stable outside) (λ journal.
        bind-Keeps P _ _ (append-Keeps P S upheld.stable outside _ _) (λ _.
          bind-Keeps P _ _
            (save-Keeps P S upheld.stable outside _ (upheld.retires checkpoint follows))
            (λ _. bind-Keeps P _ _ (λ world h. upheld.loads _ world h) (λ _ world h. h))))

  retire_after-Keeps :
      (graph_id : Bytes) (generation sequence : ℕ) (o : Option Checkpoint) (world : World)
      → retained graph_id world ≡ o
      → P world
      → P (retire_after env outside graph_id generation sequence o world).1
  unfolding retire_after
  retire_after-Keeps graph_id generation sequence none world r h = h
  retire_after-Keeps graph_id generation sequence (some c) world r h =
      if_keeps {A = Exec ℕ} (λ m. P (m world).1)
        (not (c.generation == generation) || ltb sequence c.sequence) (fail _) _ (λ _. h)
        (λ _.
          if_keeps {A = Exec ℕ} (λ m. P (m world).1) c.retired (pure generation)
            (release env outside graph_id c generation) (λ _. h)
            (λ _. release-Keeps graph_id generation c (upheld.kind graph_id c world h r) world h))

  pub retire-Keeps :
      (graph_id : Bytes) (generation sequence : ℕ)
      → Keeps P (retire env outside graph_id generation sequence)
  unfolding retire
  retire-Keeps graph_id generation sequence =
      load-Keeps P outside graph_id _ (retire_after-Keeps graph_id generation sequence)

  pub resumable : IsResumable env P S
  resumable = record {
    stable = upheld.stable;
    kind = upheld.kind;
    insert = λ c desired world k same h. upheld.loads _ world h;
  }

  pub resume-Keeps : Keeps P (resume env outside)
  unfolding resume
  resume-Keeps =
      bind-Keeps P _ _ (λ world h. h)
        (λ listed.
          bind-Keeps P _ _ (λ world h. h) (resume_entries-Keeps env outside P S resumable 0))
