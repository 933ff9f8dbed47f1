-- ===== src/Service.antt =====
-- The service boundary (crates/reconciler/src/lib.rs): `reconcile_slice`, `retire_slice` and
-- `connect_error`.
pub mod Codes
mod Tests
use connector_supabase.Common.{
  ℕ, Option, none, some, [], ◌∷◌, Bytes, Message, Result, ok, err, lit, shown, debug, number,
  map_err, not, if◌then◌else◌,
}
use connector_supabase.Context
use connector_supabase.Context.{ContextError}
use connector_supabase.External.{External}
use connector_supabase.Plan.{connector_name}
use connector_supabase.Reconciler.{
  ReconcileError, invalid, retired, sequence_conflict, state, report, World, Outside,
}
use connector_supabase.Reconciler.Level.{accept, retire}
use connector_supabase.Slice
use connector_supabase.Slice.{SliceError, GraphSliceView}
use connector_supabase.Slice.Parse.{is_connector, try_into, positive}

pub data ErrorCode : Type 0 where
  invalid_argument failed_precondition unavailable internal : ErrorCode

pub record ConnectError : Type 0 where
  pub code : ErrorCode
  pub message : Message

-- The displays of the errors.
abbrev pub context_message : ContextError → Message
context_message (Context.json text) =
    lit "invalid " ∷ shown Context.api_version ∷ lit " JSON: " ∷ shown text ∷ []
context_message (Context.invalid message) =
    lit "invalid " ∷ shown Context.api_version ∷ lit ": " ∷ message

abbrev pub slice_message : SliceError → Message
slice_message (Slice.invalid message) = message
slice_message (Slice.context component source) =
    lit "component " ∷ shown component ∷ lit ": " ∷ context_message source

abbrev pub error_message : ReconcileError → Message
error_message (invalid error) = lit "invalid slice: " ∷ slice_message error
error_message retired = lit "graph is retired" ∷ []
error_message (sequence_conflict sequence) =
    lit "slice sequence "
    ∷ number sequence
    ∷ lit " was already accepted with different contents"
    ∷ []
error_message (state message) = lit "connector state failure: " ∷ message
error_message (report error) = lit "core callback failed: " ∷ shown error ∷ []

abbrev pub code_of : ReconcileError → ErrorCode
code_of (invalid error) = invalid_argument
code_of retired = failed_precondition
code_of (sequence_conflict sequence) = failed_precondition
code_of (report error) = unavailable
code_of (state message) = internal

unfoldable pub connect_error : ReconcileError → ConnectError
connect_error error = record { code = code_of error; message = error_message error }

abbrev pub refuse : Message → ConnectError
refuse message = record { code = invalid_argument; message = message }

-- What `retire_slice` reads of its request: the graph, the generation and the sequence.
unfoldable pub parse_retire : Option GraphSliceView → Result (Bytes × (ℕ × ℕ)) ConnectError
parse_retire none = err (refuse (lit "slice is required" ∷ []))
parse_retire (some slice) =
    if not (is_connector slice.connector)
    then err (refuse (lit "slice.connector must be " ∷ debug connector_name ∷ []))
    else elim (try_into 16 slice.graph_id) [
      | none ↦ err (refuse (lit "slice.graph_id must contain exactly 16 bytes" ∷ []))
      | some graph_id ↦ elim (positive slice.generation) [
        | none ↦ err (refuse (lit "slice.generation must be greater than zero" ∷ []))
        | some generation ↦ elim slice.sequence [
          | none ↦ err (refuse (lit "slice.sequence is required" ∷ []))
          | some sequence ↦ ok (graph_id, (generation, sequence))
        ]
      ]
    ]

module _ (env : External) (outside : Outside) where
  abbrev pub answer : Result ℕ ReconcileError × World → Result ℕ ConnectError × World
  answer (r, world) = (map_err connect_error r, world)

  unfoldable pub reconcile_slice : Option GraphSliceView → World → Result ℕ ConnectError × World
  reconcile_slice request world = answer (accept env outside request world)

  abbrev pub retire_parsed :
      Result (Bytes × (ℕ × ℕ)) ConnectError → World → Result ℕ ConnectError × World
  retire_parsed (err error) world = (err error, world)
  retire_parsed (ok (graph_id, (generation, sequence))) world =
      answer (retire env outside graph_id generation sequence world)

  unfoldable pub retire_slice : Option GraphSliceView → World → Result ℕ ConnectError × World
  retire_slice request = retire_parsed (parse_retire request)
