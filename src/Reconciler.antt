-- ===== src/Reconciler.antt =====
-- The durable controller (crates/reconciler/src/reconciler.rs): its data, its world and what it calls.
mod Tests
mod RunTests
pub mod Monad
pub mod Reports
pub mod Store
pub mod Delivery
pub mod Level
pub mod Receipts
pub mod Apply
pub mod Pending
pub mod Planned
pub mod Fence
pub mod Guarded
pub mod Once
pub mod Chain
pub mod Retired
pub mod Quiet
pub mod Keeps
pub mod Pass
pub mod Resume
pub mod Levels
pub mod Reach
pub mod Locks
pub mod Calls
pub mod Moves
pub mod Ensures
pub mod Done
pub mod Resumed
pub mod Loads
use connector_supabase.Common.{ℕ, Bool, Option, String, List, Bytes, Message, Result}
use connector_supabase.Journal.{JournalSnapshot, JournalEvent}
use connector_supabase.Journal.Stream.{JournalFault}
use connector_supabase.Plan.{ExecutablePlan, PlannedOperation}
use connector_supabase.Plan.Digest.{ComponentOutputs}
use connector_supabase.Slice.{GraphSliceView, DesiredSlice, SliceError}
use connector_supabase.Target.{ObservedTarget, TargetError, ApplyResult}

-- Acceptance/reconciliation failure at the service boundary.
pub data ReconcileError : Type 0 where
  invalid : SliceError → ReconcileError
  retired : ReconcileError
  sequence_conflict : ℕ → ReconcileError
  state : Message → ReconcileError
  report : String → ReconcileError

pub data ComponentDispositionKind : Type 0 where
  reconciling ready failed : ComponentDispositionKind

pub record ComponentDisposition : Type 0 where
  pub component_spec_hash : Bytes
  pub kind : ComponentDispositionKind

pub data DiagnosticSeverity : Type 0 where
  error info : DiagnosticSeverity

-- A diagnostic of the shared contract.
pub record Diagnostic : Type 0 where
  pub code : String
  pub message : Message
  pub severity : DiagnosticSeverity
  pub component_spec_hash : Option Bytes
  pub help : Option String
  pub pointer : Option String

pub record PublicationEvidence : Type 0 where
  pub revision : String
  pub uri : String

-- The report of one slice: the fields that the connector sets.
pub record SliceReport : Type 0 where
  pub graph_id : Bytes
  pub generation : ℕ
  pub connector : String
  pub dispositions : List ComponentDisposition
  pub outputs : List ComponentOutputs
  pub diagnostics : List Diagnostic
  pub sequence : ℕ
  pub publication : Option PublicationEvidence

pub record ReportSnapshot : Type 0 where
  pub request_id : Bytes
  pub publication_id : Option Bytes
  pub report : SliceReport

pub record ReportSliceRequest : Type 0 where
  pub request_id : Bytes
  pub report : SliceReport
  pub publication_id : Option Bytes

pub record FetchSliceRequest : Type 0 where
  pub graph_id : Bytes
  pub connector : String
  pub sequence : ℕ

-- An entry of the directory of the checkpoints: a checkpoint file, which is named by its graph, or a
-- file with another extension.
pub data GraphEntry : Type 0 where
  graph_file : Bytes → GraphEntry
  other_file : GraphEntry

-- `current_plan` is the path of a private plan.
pub record Checkpoint : Type 0 where
  pub graph_id : Bytes
  pub generation : ℕ
  pub sequence : ℕ
  pub desired_digest : Bytes
  pub current_plan : Option String
  pub last_report : Option ReportSnapshot
  pub retired : Bool

-- The artifacts of a persisted plan, as far as the controller reads them.
pub record ReviewArtifacts : Type 0 where
  pub plan_path : String
  pub json_path : String

-- One call of the outside with its answer, or the task of a later pass.
pub data Effect : Type 0 where
  journal_loaded : Result JournalSnapshot JournalFault → Effect
  journal_appended : (tail : ℕ) → JournalEvent → Result ℕ JournalFault → Effect
  target_observed : Result ObservedTarget TargetError → Effect
  target_applied : ExecutablePlan → PlannedOperation → Result ApplyResult TargetError → Effect
  slice_reported : ReportSliceRequest → Result Unit String → Effect
  plan_persisted : ExecutablePlan → Result ReviewArtifacts String → Effect
  plan_loaded : String → Result ExecutablePlan String → Effect
  slice_fetched : FetchSliceRequest → Result (Option GraphSliceView) String → Effect
  pass_scheduled : (graph_id : Bytes) → (sequence delay : ℕ) → Effect

-- The retained state: the checkpoint files and the loaded slices by graph, and the effects so far,
-- the last one first.
pub record World : Type 0 where
  pub checkpoints : List (Bytes × Checkpoint)
  pub desired : List (Bytes × DesiredSlice)
  pub trace : List Effect

-- The outside: each answer may depend on all that happened before. A graph's files are its
-- checkpoint, so that reads and writes of them can fail and are otherwise those of `World`. A write
-- can fail before the file is replaced, or after it, when the directory is synced.
pub record Outside : Type 0 where
  pub journal_load : List Effect → Result JournalSnapshot JournalFault
  pub journal_append : List Effect → ℕ → JournalEvent → Result ℕ JournalFault
  pub observe : List Effect → DesiredSlice → Result ObservedTarget TargetError
  pub apply :
      List Effect
      → DesiredSlice
      → ExecutablePlan
      → PlannedOperation
      → Result ApplyResult TargetError
  pub report : List Effect → ReportSliceRequest → Result Unit String
  pub fetch_slice : List Effect → FetchSliceRequest → Result (Option GraphSliceView) String
  pub graph_entries : List Effect → Result (List (Result GraphEntry String)) String
  pub persist : List Effect → ExecutablePlan → Result ReviewArtifacts String
  pub load_plan : List Effect → String → Result ExecutablePlan String
  pub read_error : List Effect → Bytes → Option String
  pub write_error : List Effect → Checkpoint → Option String
  pub sync_error : List Effect → Checkpoint → Option String
  -- `Uuid::now_v7` and `Uuid::new_v5` in the publication namespace, over the JSON of the outputs.
  pub now_v7 : List Effect → Bytes
  pub publication_uuid : List ComponentOutputs → Bytes
  -- The display of a fault and of a number's parse error, and the configuration.
  pub fault_text : JournalFault → String
  pub parse_error : String → String
  pub evidence_uri : ℕ → String
  pub connector_build : String
  pub api_url : String
  pub database_url_ref : String
  pub anon_key_ref : String
