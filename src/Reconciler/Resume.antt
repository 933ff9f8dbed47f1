-- ===== src/Reconciler/Resume.antt =====
-- `Reconciler::resume` and `CoreReporter::fetch_slice` of reconciler.rs.
use connector_supabase.Common.{
  ℕ, ◌+◌, Bool, true, false, not, Option, none, some, String, List, [], ◌∷◌, Bytes, Result, ok, err,
  lit, shown, map_err, ok_or, bytes_eq, if◌then◌else◌,
}
use connector_supabase.External.{External}
use connector_supabase.Plan.{connector_name}
use connector_supabase.Reconciler.{
  ReconcileError, invalid, sequence_conflict, state, report, Checkpoint, ReportSnapshot, GraphEntry,
  graph_file, other_file, FetchSliceRequest, slice_fetched, Outside,
}
use connector_supabase.Reconciler.Delivery.{deliver_pending_report}
use connector_supabase.Reconciler.Monad.{Exec, ◌>>=◌, ◌>>◌, pure, fail, lift, call, gets}
use connector_supabase.Reconciler.Store.{
  load, schedule, insert_desired, no_delay, report_retry_delay,
}
use connector_supabase.Slice.{DesiredSlice, GraphSliceView}
use connector_supabase.Slice.Digest.{desired_digest}
use connector_supabase.Slice.Parse.{from_recovered}

abbrev pub fetch_request : Bytes → ℕ → FetchSliceRequest
fetch_request graph_id sequence = record {
  graph_id = graph_id;
  connector = connector_name;
  sequence = sequence;
}

abbrev pub delay_after : Bool × Checkpoint → ℕ
delay_after (true, checkpoint) = no_delay
delay_after (false, checkpoint) = report_retry_delay

module _ (outside : Outside) where
  unfoldable pub fetch_slice : Bytes → ℕ → Exec GraphSliceView
  fetch_slice graph_id sequence = do
    answer ←
        call (λ trace. outside.fetch_slice trace (fetch_request graph_id sequence))
          (slice_fetched (fetch_request graph_id sequence))
    slice ← lift (map_err report answer)
    lift (ok_or slice (report "core omitted recovered slice"))

  -- A file that was listed must be there.
  unfoldable pub read_listed : Bytes → Exec Checkpoint
  read_listed graph_id = do
    found ← load outside graph_id
    lift (ok_or found (state (lit "No such file or directory (os error 2)" ∷ [])))

  -- The delay of the first pass: a report that is still pending is sent first.
  abbrev pub first_delay : Checkpoint → Option ReportSnapshot → Exec ℕ
  first_delay checkpoint none = pure no_delay
  first_delay checkpoint (some snapshot) = do
    delivered ← deliver_pending_report outside checkpoint
    pure (delay_after delivered)

module _ (env : External) (outside : Outside) where
  abbrev pub same_contents : Checkpoint → DesiredSlice → Result Unit ReconcileError
  same_contents checkpoint desired =
      if not (bytes_eq (desired_digest env desired) checkpoint.desired_digest)
      then err (sequence_conflict checkpoint.sequence)
      else ok tt

  unfoldable pub resume_level : Checkpoint → Exec ℕ
  resume_level checkpoint = do
    recovered ← fetch_slice outside checkpoint.graph_id checkpoint.sequence
    desired ← lift (map_err invalid (from_recovered env recovered))
    lift (same_contents checkpoint desired)
    insert_desired checkpoint.graph_id desired
    delay ← first_delay outside checkpoint checkpoint.last_report
    schedule checkpoint.graph_id checkpoint.sequence delay
    pure 1

  -- How many levels were resumed: a retired graph is passed over.
  abbrev pub resume_unless : Bool → Checkpoint → Exec ℕ
  resume_unless true checkpoint = pure 0
  resume_unless false checkpoint = resume_level checkpoint

  -- The loop over the directory.
  unfoldable pub resume_entries : ℕ → List (Result GraphEntry String) → Exec ℕ
  resume_entries count [] = pure count
  resume_entries count (err error ∷ entries) = fail (state (shown error ∷ []))
  resume_entries count (ok other_file ∷ entries) = resume_entries count entries
  resume_entries count (ok (graph_file graph_id) ∷ entries) = do
    checkpoint ← read_listed outside graph_id
    added ← resume_unless checkpoint.retired checkpoint
    resume_entries (count + added) entries

  unfoldable pub resume : Exec ℕ
  resume = do
    listed ← gets (λ world. outside.graph_entries world.trace)
    entries ← lift (map_err (λ error. state (shown error ∷ [])) listed)
    resume_entries 0 entries
