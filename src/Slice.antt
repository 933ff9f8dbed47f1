-- ===== src/Slice.antt =====
-- The validated desired level and the contract messages that it is read from
-- (crates/reconciler/src/slice.rs). The messages are generated from the shared protobuf contract,
-- which is not in the repository: the records hold the fields that the source reads.
pub mod Parse
pub mod Digest
pub mod Checks
pub mod Apart
pub mod Binding
pub mod Accepted
mod Tests
use connector_supabase.Common.{ℕ, Option, String, List, Bytes, Message}
use connector_supabase.Context.{ComponentContext, ContextError}

pub record ComponentPin : Type 0 where
  pub spec_hash : Bytes
  pub name : String
  pub context : ComponentContext

pub record UpstreamOutput : Type 0 where
  pub component_spec_hash : Bytes
  pub values_json : Bytes

-- The two ordered maps are the sequences of their items, in the order of the keys.
pub record DesiredSlice : Type 0 where
  pub graph_id : Bytes
  pub generation : ℕ
  pub sequence : ℕ
  pub components : List ComponentPin
  pub upstream_outputs : List UpstreamOutput

pub data SliceError : Type 0 where
  invalid : Message → SliceError
  context : String → ContextError → SliceError

-- `ComponentSpecView`.
pub record ComponentSpecView : Type 0 where
  pub name : Option String
  pub connector : Option String
  pub depends_on : List Bytes
  pub connector_context : Option Bytes

-- `RegisteredComponentSpecView`.
pub record RegisteredComponentSpecView : Type 0 where
  pub hash : Option Bytes
  pub spec : Option ComponentSpecView

-- `ComponentOutputsView`.
pub record OutputView : Type 0 where
  pub component_spec_hash : Option Bytes
  pub values_json : Option Bytes

-- `GraphSliceView`.
pub record GraphSliceView : Type 0 where
  pub graph_id : Option Bytes
  pub generation : Option ℕ
  pub sequence : Option ℕ
  pub connector : Option String
  pub components : List RegisteredComponentSpecView
  pub upstream_outputs : List OutputView
