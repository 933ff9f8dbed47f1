-- ===== src/Plan.antt =====
-- Executable plans (crates/reconciler/src/plan.rs): their data.
mod Tests
pub mod Transitions
pub mod Identity
pub mod Converged
pub mod Acceptance
pub mod Order
pub mod Induction
pub mod Exposure
pub mod Settled
pub mod Pending
pub mod Draft
pub mod Build
pub mod Digest
pub mod Validate
pub mod Ownership
pub mod Outputs
pub mod Inputs
use connector_supabase.Common.{ℕ, Bool, String, List, Bytes, Message}
use connector_supabase.Common.Maps.{Map}
use connector_supabase.Json.{Json}
use connector_supabase.Context.{Migration, AnonAccess}
use connector_supabase.Journal.{Binding}

abbrev pub api_version : String
api_version = "henosis.dev/supabase-review-plan/v1"

abbrev pub policy_version : String
policy_version = "supabase-local-v1"

-- `CONNECTOR_NAME` of lib.rs.
abbrev pub connector_name : String
connector_name = "supabase"

pub data ExecutionClass : Type 0 where
  reconciled_object : ExecutionClass
  ordered_transition : ExecutionClass

pub data Action : Type 0 where
  create update bind transition : Action

pub data DestructiveLevel : Type 0 where
  non_destructive : DestructiveLevel

-- One owned schema's API policy.
pub record ApiPolicy : Type 0 where
  pub schema : String
  pub expose : Bool
  pub anon_access : AnonAccess

-- Private executable operation variants.
pub data Operation : Type 0 where
  establish_binding : (binding : Binding) → Operation
  ensure_metadata : Operation
  ensure_schema : (resource_id schema : String) → Operation
  apply_migration :
      (resource_id schema : String) → (migration : Migration) → (inputs : Map String) → Operation
  configure_api : (exposed_schemas : List String) → (policies : List ApiPolicy) → Operation

-- One operation in the complete proposal.
pub record PlannedOperation : Type 0 where
  pub id : String
  pub address : String
  pub component_scopes : List String
  pub execution_class : ExecutionClass
  pub action : Action
  pub before : Json
  pub after : Json
  pub destructive_level : DestructiveLevel
  pub dependencies : List String
  pub preconditions : List Message
  pub operation : Operation

-- Redacted fully known output proposal.
pub record PlannedOutput : Type 0 where
  pub component_spec_hash : String
  pub values : Json

-- One plan-phase failure or notice attached to its component.
pub record PlanDiagnostic : Type 0 where
  pub component_spec_hash : Bytes
  pub code : String
  pub message : Message
  pub pointer : String
  pub help : String
  pub informational : Bool

-- The payload that the plan identity is computed over: the plan without `plan_id`.
pub record PlanPayload : Type 0 where
  pub api_version : String
  pub connector : String
  pub connector_build : String
  pub policy_version : String
  pub graph_id : String
  pub generation : String
  pub slice_sequence : String
  pub target : String
  pub desired_digest : String
  pub observed_digest : String
  pub journal_tail : String
  pub operations : List PlannedOperation
  pub planned_outputs : List PlannedOutput
  pub notices : List PlanDiagnostic

-- Exact private executable payload.
pub record ExecutablePlan : Type 0 where
  pub plan_id : String
  pub api_version : String
  pub connector : String
  pub connector_build : String
  pub policy_version : String
  pub graph_id : String
  pub generation : String
  pub slice_sequence : String
  pub target : String
  pub desired_digest : String
  pub observed_digest : String
  pub journal_tail : String
  pub operations : List PlannedOperation
  pub planned_outputs : List PlannedOutput
  pub notices : List PlanDiagnostic

-- Connector and runtime facts bound into a plan but not desired by authoring.
pub record PlanContext : Type 0 where
  pub journal_tail_after_plan : ℕ
  pub connector_build : String
  pub api_url : String
  pub database_url_ref : String
  pub anon_key_ref : String
