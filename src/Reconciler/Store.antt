-- ===== src/Reconciler/Store.antt =====
-- The retained state of reconciler.rs: `load`, `save`, the loaded slices and `schedule`.
use connector_supabase.Common.{
  ℕ, Option, none, some, String, List, [], ◌∷◌, Bytes, Result, ok, err, shown, not, filter,
  bytes_eq, bytes_eq_refl, ◌≡◌, refl, if◌then◌else◌,
}
use connector_supabase.Reconciler.{
  ReconcileError, state, Checkpoint, pass_scheduled, World, Outside,
}
use connector_supabase.Reconciler.Monad.{Exec, emit, modify}
use connector_supabase.Slice.{DesiredSlice}

-- A map by graph: a `HashMap`, or one file for each graph.
module _ {V : Type 0} where
  abbrev pub lookup : Bytes → List (Bytes × V) → Option V
  lookup key [] = none
  lookup key ((k, v) ∷ entries) = if bytes_eq key k then some v else lookup key entries

  abbrev pub remove : Bytes → List (Bytes × V) → List (Bytes × V)
  remove key entries = filter (λ entry. not (bytes_eq key entry.0)) entries

  abbrev pub store : Bytes → V → List (Bytes × V) → List (Bytes × V)
  store key value entries = (key, value) ∷ remove key entries

pub lookup-store :
    {V : Type 0} (key : Bytes) (value : V) (entries : List (Bytes × V))
    → lookup key (store key value entries) ≡ some value
lookup-store key value entries = rw (bytes_eq_refl key) refl

-- Durations in milliseconds.
abbrev pub no_delay : ℕ
no_delay = 0

unfoldable pub report_retry_delay : ℕ
report_retry_delay = 2000

unfoldable pub schedule : Bytes → ℕ → ℕ → Exec Unit
schedule graph_id sequence delay = emit (pass_scheduled graph_id sequence delay)

abbrev pub insert_desired : Bytes → DesiredSlice → Exec Unit
insert_desired graph_id desired =
    modify (λ world. record world { desired = store graph_id desired world.desired })

abbrev pub remove_desired : Bytes → Exec Unit
remove_desired graph_id = modify (λ world. record world { desired = remove graph_id world.desired })

abbrev pub replace_file : Checkpoint → World → World
replace_file checkpoint world = record world {
  checkpoints = store checkpoint.graph_id checkpoint world.checkpoints;
}

module _ (outside : Outside) where
  abbrev pub read_with : Option String → Bytes → World → Result (Option Checkpoint) ReconcileError
  read_with none graph_id world = ok (lookup graph_id world.checkpoints)
  read_with (some error) graph_id world = err (state (shown error ∷ []))

  -- A file that is not there is `none`; another failure of the read, or of the decoding, is an error.
  unfoldable pub load : Bytes → Exec (Option Checkpoint)
  load graph_id world = (read_with (outside.read_error world.trace graph_id) graph_id world, world)

  abbrev pub synced : Option String → World → Result Unit ReconcileError × World
  synced none world = (ok tt, world)
  synced (some error) world = (err (state (shown error ∷ [])), world)

  abbrev pub write_with :
      Option String → Option String → Checkpoint → World → Result Unit ReconcileError × World
  write_with none sync checkpoint world = synced sync (replace_file checkpoint world)
  write_with (some error) sync checkpoint world = (err (state (shown error ∷ [])), world)

  unfoldable pub save : Checkpoint → Exec Unit
  save checkpoint world =
      write_with (outside.write_error world.trace checkpoint)
        (outside.sync_error world.trace checkpoint) checkpoint world
