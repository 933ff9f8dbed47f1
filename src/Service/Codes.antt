-- ===== src/Service/Codes.antt =====
-- Which error codes `reconcile_slice` of lib.rs answers, and when.
use connector_supabase.Common.{
  ℕ, Bool, true, not, Option, none, some, String, ◌≡◌, ◌≢◌, ◌⊎◌, inl, inr, refl, arith, Result, ok,
  err, map_err, bytes_eq, bytes_eq_iff, ltb, ◌==◌, ==_iff, if_keeps,
}
use connector_supabase.External.{External}
use connector_supabase.Reconciler.{
  ReconcileError, invalid, retired, sequence_conflict, Checkpoint, World, Outside,
}
use connector_supabase.Reconciler.Fence.{retained}
use connector_supabase.Reconciler.Level.{
  checkpoint_of, begin, replace, accept_after, accept_desired, accept,
}
use connector_supabase.Reconciler.Monad.{Exec, proceed, fail, pure}
use connector_supabase.Reconciler.Store.{load, read_with, save, write_with, schedule}
use connector_supabase.Service.{
  ErrorCode, invalid_argument, failed_precondition, unavailable, internal, ConnectError,
  connect_error, answer, reconcile_slice,
}
use connector_supabase.Slice.{DesiredSlice, SliceError, GraphSliceView}
use connector_supabase.Slice.Digest.{desired_digest}
use connector_supabase.Slice.Parse.{from_request}

contradicted : (b : Bool) → b ≡ true → not b ≡ true → ⊥
contradicted b t f = ground arith

module _ (env : External) (world : World) where
  -- The retained level of the graph refuses the slice: the graph is retired, or the level has the
  -- sequence of the slice and other contents.
  abbrev pub Refuses : DesiredSlice → Type 0
  Refuses desired =
      (current : Checkpoint) × ((retained desired.graph_id world ≡ some current)
        × ((current.retired ≡ true)
            ⊎ ((desired.sequence ≡ current.sequence)
                × (desired_digest env desired ≢ current.desired_digest))))

  -- What a code says where the slice is valid.
  abbrev pub Says : DesiredSlice → ErrorCode → World → Type 0
  Says desired invalid_argument after = ⊥
  Says desired failed_precondition after = (after ≡ world) × Refuses desired
  Says desired unavailable after = ⊥
  Says desired internal after = Unit

  -- What an answer says: it succeeds for a valid slice alone, and for another one it is
  -- `invalid_argument` and the world stays.
  abbrev pub IsCoded : Result DesiredSlice SliceError → Result ℕ ConnectError × World → Type 0
  IsCoded (err error) (ok sequence, after) = ⊥
  IsCoded (err error) (err refusal, after) = (refusal.code ≡ invalid_argument) × (after ≡ world)
  IsCoded (ok desired) (ok sequence, after) = Unit
  IsCoded (ok desired) (err refusal, after) = Says desired refusal.code after

  module _ (outside : Outside) (desired : DesiredSlice) where
    abbrev Coded : Result ℕ ReconcileError × World → Type 0
    Coded outcome = IsCoded (ok desired) (answer env outside outcome)

    differs :
        (current : Checkpoint)
        → not (bytes_eq (desired_digest env desired) current.desired_digest) ≡ true
        → desired_digest env desired ≢ current.desired_digest
    differs current d e =
        contradicted (bytes_eq (desired_digest env desired) current.desired_digest)
          ((bytes_eq_iff _ _).1 e) d

    write_with-Coded :
        (w s : Option String)
        → Coded (
            proceed
              (λ _. begin env outside desired)
              (write_with outside w s (checkpoint_of env outside desired) world))
    unfolding proceed schedule connect_error
    write_with-Coded none none = tt
    write_with-Coded none (some error) = tt
    write_with-Coded (some error) s = tt

    accept_after-Coded :
        (current : Option Checkpoint)
        → retained desired.graph_id world ≡ current
        → Coded (accept_after env outside desired current world)
    unfolding accept_after save proceed schedule connect_error
    accept_after-Coded none h = write_with-Coded _ _
    accept_after-Coded (some current) h =
        if_keeps {A = Exec ℕ} (λ m. Coded (m world)) current.retired (fail retired) _
          (λ r. (refl, (current, (h, inl r))))
          (λ r.
            if_keeps {A = Exec ℕ} (λ m. Coded (m world)) (ltb desired.sequence current.sequence)
              (pure current.sequence) _ (λ l. tt)
              (λ l.
                if_keeps {A = Exec ℕ} (λ m. Coded (m world)) (desired.sequence == current.sequence)
                  _ _
                  (λ s.
                    if_keeps {A = Exec ℕ} (λ m. Coded (m world))
                      (not (bytes_eq (desired_digest env desired) current.desired_digest))
                      (fail (sequence_conflict desired.sequence)) (begin env outside desired)
                      (λ d. (refl, (current, (h, inr ((==_iff _ _).0 s, differs current d)))))
                      (λ d. tt))
                  (λ s.
                    if_keeps {A = Exec ℕ} (λ m. Coded (m world))
                      (ltb desired.generation current.generation) _ (replace env outside desired)
                      (λ g. tt) (λ g. write_with-Coded _ _))))

    read_with-Coded :
        (error : Option String)
        → Coded (
            proceed
              (accept_after env outside desired)
              (read_with outside error desired.graph_id world, world))
    unfolding proceed connect_error
    read_with-Coded none = accept_after-Coded (retained desired.graph_id world) refl
    read_with-Coded (some error) = tt

  parsed-IsCoded :
      (outside : Outside) (parsed : Result DesiredSlice SliceError)
      → IsCoded parsed (
          answer env outside (proceed (accept_desired env outside) (map_err invalid parsed, world)))
  unfolding proceed accept_desired load connect_error
  parsed-IsCoded outside (err error) = (refl, refl)
  parsed-IsCoded outside (ok desired) = read_with-Coded outside desired _

  -- Whatever the files answer, reconcile_slice succeeds for a valid slice alone; for another request
  -- it answers invalid_argument and nothing changes; for a valid slice it answers failed_precondition
  -- only where the retained level of the graph refuses it, which is retired or has the sequence of
  -- the slice and other contents, and nothing changes; it never answers unavailable.
  pub reconcile_slice-IsCoded :
      (outside : Outside) (request : Option GraphSliceView)
      → IsCoded (from_request env request) (reconcile_slice env outside request world)
  unfolding reconcile_slice accept
  reconcile_slice-IsCoded outside request = parsed-IsCoded outside (from_request env request)
