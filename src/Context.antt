-- ===== src/Context.antt =====
-- The connector-owned authoring context (crates/reconciler/src/context.rs): its data. The children
-- model the identity rules, the boundary check, the SQL scanner and the content check.
mod Tests
pub mod Ids
pub mod Sql
pub mod Documented
pub mod Pieces
pub mod Phrases
pub mod Scanned
pub mod Boundary
pub mod Issues
pub mod Accepted
pub mod Admitted
use connector_supabase.Common.{Bool, true, false, Option, String, List, Bytes, Message}
use connector_supabase.Json.{Json}

abbrev pub api_version : String
api_version = "henosis.dev/supabase-component-context/v1"

pub record TargetContext : Type 0 where
  pub stack : String
  pub project : String
  pub database : String
  pub schema : String

-- One native migration input declaration.
pub record InputSlot : Type 0 where
  pub name : String
  pub producer_component_spec_hash : Bytes
  pub output : String
  pub default : Option Json

-- One immutable ordered SQL transition.
pub record Migration : Type 0 where
  pub id : String
  pub checksum : String
  pub sql : String
  pub inputs : List InputSlot

pub data AnonAccess : Type 0 where
  none : AnonAccess
  read : AnonAccess

-- `anon_access == AnonAccess::Read`.
abbrev pub is_read : AnonAccess → Bool
is_read none = false
is_read read = true

pub record ApiContext : Type 0 where
  pub expose : Bool
  pub anon_access : AnonAccess

pub record ComponentContext : Type 0 where
  pub api_version : String
  pub resource_id : String
  pub target : TargetContext
  pub migrations : List Migration
  pub api : ApiContext

pub data ContextError : Type 0 where
  json : String → ContextError
  invalid : Message → ContextError

-- A diagnostic discovered in the mutation-free planning phase.
pub record PlanIssue : Type 0 where
  pub code : String
  pub message : Message
  pub pointer : String
  pub help : String
