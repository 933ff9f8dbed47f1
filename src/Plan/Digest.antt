-- ===== src/Plan/Digest.antt =====
-- `ExecutablePlan::payload`, `verify_digest`, `refresh_id` and `contract_outputs` of plan.rs.
use connector_supabase.Common.{
  Bool, Option, none, some, String, List, [], ◌∷◌, Bytes, str_eq, format,
}
use connector_supabase.External.{External}
use connector_supabase.Plan.{PlannedOutput, PlanPayload, ExecutablePlan}

unfoldable pub payload : ExecutablePlan → PlanPayload
payload self = record {
  api_version = self.api_version;
  connector = self.connector;
  connector_build = self.connector_build;
  policy_version = self.policy_version;
  graph_id = self.graph_id;
  generation = self.generation;
  slice_sequence = self.slice_sequence;
  target = self.target;
  desired_digest = self.desired_digest;
  observed_digest = self.observed_digest;
  journal_tail = self.journal_tail;
  operations = self.operations;
  planned_outputs = self.planned_outputs;
  notices = self.notices;
}

-- `ComponentOutputs` of the shared contract.
pub record ComponentOutputs : Type 0 where
  pub component_spec_hash : Bytes
  pub values_json : Bytes

module _ (env : External) where
  abbrev pub payload_id : PlanPayload → String
  payload_id p = format ("sha256:" ∷ env.hex_encode (env.sha256 (env.payload_bytes p)) ∷ [])

  unfoldable pub verify_digest : ExecutablePlan → Bool
  unfolding payload
  verify_digest self = str_eq self.plan_id (payload_id (payload self))

  unfoldable pub refresh_id : ExecutablePlan → ExecutablePlan
  unfolding payload
  refresh_id self = record self { plan_id = payload_id (payload self) }

  abbrev pub cons_output :
      Option Bytes → Bytes → Option (List ComponentOutputs) → Option (List ComponentOutputs)
  cons_output (some hash) values (some outputs) =
      some (record { component_spec_hash = hash; values_json = values } ∷ outputs)
  cons_output _ _ _ = none

  -- `none` is the panic of `expect` at a hash that is not hexadecimal.
  unfoldable pub contract_outputs_of : List PlannedOutput → Option (List ComponentOutputs)
  contract_outputs_of [] = some []
  contract_outputs_of (output ∷ outputs) =
      cons_output (env.hex_decode output.component_spec_hash) (env.value_bytes output.values)
        (contract_outputs_of outputs)

  unfoldable pub contract_outputs : ExecutablePlan → Option (List ComponentOutputs)
  contract_outputs self = contract_outputs_of self.planned_outputs
