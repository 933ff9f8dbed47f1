-- ===== src/Journal.antt =====
-- The operation journal (crates/reconciler/src/journal.rs): its data.
mod Tests
pub mod Fold
pub mod Stream
pub mod Connect
pub mod Paging
pub mod Progress
pub mod History
use connector_supabase.Common.{ℕ, Bool, String}
use connector_supabase.Common.Maps.{Map}

abbrev pub api_version : String
api_version = "henosis.dev/supabase-operation-journal/v1"

-- Stable logical-to-native identity binding.
pub record Binding : Type 0 where
  pub graph_id : String
  pub resource_id : String
  pub project : String
  pub database : String
  pub schema : String

pub data OperationState : Type 0 where
  started : (plan_id : String) → OperationState
  succeeded : (plan_id observed_digest : String) → OperationState
  failed : (plan_id code detail : String) → OperationState

-- Folded minimal operational state.
pub record JournalSnapshot : Type 0 where
  pub tail : ℕ
  pub bindings : Map Binding
  pub operations : Map OperationState

pub data JournalEvent : Type 0 where
  plan_created :
      (plan_id graph_id generation slice_sequence desired_digest observed_digest : String)
      → JournalEvent
  plan_stale : (plan_id reason : String) → JournalEvent
  binding_established : Binding → JournalEvent
  operation_started : (plan_id operation_id idempotency_key : String) → JournalEvent
  operation_succeeded :
      (plan_id operation_id observed_digest : String) → (recovered : Bool) → JournalEvent
  operation_failed : (plan_id operation_id code detail : String) → JournalEvent
  graph_released : (graph_id : String) → JournalEvent

-- One versioned append-only journal envelope.
pub record JournalEnvelope : Type 0 where
  pub api_version : String
  pub event_id : String
  pub event : JournalEvent
