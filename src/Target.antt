-- ===== src/Target.antt =====
-- The observed target (crates/reconciler/src/target.rs): its data and the lookup of a receipt.
pub mod Digest
mod Tests
pub mod Satisfied
pub mod Sql
pub mod Quoting
pub mod Provider
pub mod Connect
pub mod Observe
pub mod Observed
pub mod Exposed
pub mod Names
pub mod Configured
pub mod Transaction
pub mod Fresh
use connector_supabase.Common.{Bool, ◌&&◌, Option, String, List, str_eq, find}
use connector_supabase.Common.Sets.{StringSet}
use connector_supabase.Common.Maps.{Map}
use mathlib.Core.Option

-- Stable non-secret database identity.
pub record DatabaseIdentity : Type 0 where
  pub database : String
  pub database_oid : String
  pub server_version : String

-- One receipt from the target-authoritative migration ledger.
pub record ObservedMigration : Type 0 where
  pub resource_id : String
  pub migration_id : String
  pub checksum : String

pub record ObservedTarget : Type 0 where
  pub identity : DatabaseIdentity
  pub metadata_exists : Bool
  pub schemas : StringSet
  pub migrations : List ObservedMigration
  pub exposed_schemas : StringSet
  pub anon_read : Map Bool

pub record ProviderDiagnostic : Type 0 where
  pub code : String
  pub detail : String
  pub help : Option String

pub data TargetError : Type 0 where
  unavailable : String → TargetError
  provider : ProviderDiagnostic → TargetError

-- Result of an apply transaction; each case holds the observed digest.
pub data ApplyResult : Type 0 where
  applied : String → ApplyResult
  stale : String → ApplyResult

unfoldable pub migration_checksum : ObservedTarget → String → String → Option String
migration_checksum observed resource_id migration_id =
    Option.map (λ (receipt : ObservedMigration). receipt.checksum)
      (find
        (λ (receipt : ObservedMigration).
          str_eq receipt.resource_id resource_id && str_eq receipt.migration_id migration_id)
        observed.migrations)
