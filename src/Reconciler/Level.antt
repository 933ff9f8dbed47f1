-- ===== src/Reconciler/Level.antt =====
-- `Reconciler::accept` and `Reconciler::retire` of reconciler.rs.
use connector_supabase.Common.{
  ℕ, true, false, ◌||◌, not, Option, none, some, [], ◌∷◌, Bytes, lit, number, map_err, ltb, ◌==◌,
  bytes_eq, if◌then◌else◌,
}
use connector_supabase.External.{External}
use connector_supabase.Journal.{graph_released}
use connector_supabase.Reconciler.{invalid, retired, sequence_conflict, state, Checkpoint, Outside}
use connector_supabase.Reconciler.Monad.{Exec, ◌>>=◌, ◌>>◌, pure, fail, lift}
use connector_supabase.Reconciler.Receipts.{load_journal, append}
use connector_supabase.Reconciler.Store.{
  load, save, schedule, insert_desired, remove_desired, no_delay,
}
use connector_supabase.Slice.{DesiredSlice, GraphSliceView}
use connector_supabase.Slice.Parse.{from_request}
use connector_supabase.Slice.Digest.{desired_digest}

module _ (env : External) (outside : Outside) where
  abbrev pub checkpoint_of : DesiredSlice → Checkpoint
  checkpoint_of desired = record {
    graph_id = desired.graph_id;
    generation = desired.generation;
    sequence = desired.sequence;
    desired_digest = desired_digest env desired;
    current_plan = none;
    last_report = none;
    retired = false;
  }

  -- The level is loaded, and a pass is scheduled.
  abbrev pub begin : DesiredSlice → Exec ℕ
  begin desired = do
    insert_desired desired.graph_id desired
    schedule desired.graph_id desired.sequence no_delay
    pure desired.sequence

  abbrev pub replace : DesiredSlice → Exec ℕ
  replace desired = do save outside (checkpoint_of desired); begin desired

  -- The checks against the retained checkpoint, in the order of the code.
  unfoldable pub accept_after : DesiredSlice → Option Checkpoint → Exec ℕ
  accept_after desired none = replace desired
  accept_after desired (some current) =
      if current.retired
      then fail retired
      else if ltb desired.sequence current.sequence
      then pure current.sequence
      else if desired.sequence == current.sequence
      then if not (bytes_eq (desired_digest env desired) current.desired_digest)
        then fail (sequence_conflict desired.sequence)
        else begin desired
      else if ltb desired.generation current.generation
      then fail (
          state (
            lit "slice generation "
            ∷ number desired.generation
            ∷ lit " precedes retained generation "
            ∷ number current.generation
            ∷ []))
      else replace desired

  unfoldable pub accept_desired : DesiredSlice → Exec ℕ
  unfolding accept_after
  accept_desired desired = do current ← load outside desired.graph_id; accept_after desired current

  unfoldable pub accept : Option GraphSliceView → Exec ℕ
  unfolding accept_desired
  accept request = do
    desired ← lift (map_err invalid (from_request env request))
    accept_desired desired

  -- The release of a graph's ownership, which keeps the checkpoint as retired.
  abbrev pub release : Bytes → Checkpoint → ℕ → Exec ℕ
  release graph_id checkpoint generation = do
    journal ← load_journal outside
    append outside journal.tail (graph_released (env.hex_encode graph_id))
    save outside (record checkpoint { retired = true; current_plan = none; last_report = none })
    remove_desired graph_id
    pure generation

  unfoldable pub retire_after : Bytes → ℕ → ℕ → Option Checkpoint → Exec ℕ
  retire_after graph_id generation sequence none =
      fail (state (lit "cannot retire unknown graph" ∷ []))
  retire_after graph_id generation sequence (some checkpoint) =
      if not (checkpoint.generation == generation) || ltb sequence checkpoint.sequence
      then fail (state (lit "retire identity does not match retained level" ∷ []))
      else if checkpoint.retired
      then pure generation
      else release graph_id checkpoint generation

  unfoldable pub retire : Bytes → ℕ → ℕ → Exec ℕ
  unfolding retire_after
  retire graph_id generation sequence = do
    checkpoint ← load outside graph_id
    retire_after graph_id generation sequence checkpoint
