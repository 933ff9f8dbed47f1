-- ===== src/External.antt =====
-- What the connector calls and does not implement: the hash functions (sha2, blake3), the `hex`
-- crate, `serde_json` and the derived encodings, the protobuf encoding, and the ordered maps of
-- `iddqd`. Each is a field of one record, which every definition that calls it takes.
use connector_supabase.Common.{Option, String, List, Bytes, Result}
use connector_supabase.Json.{Json}
use connector_supabase.Context.{ComponentContext}
use connector_supabase.Slice.{ComponentPin, UpstreamOutput, ComponentSpecView, GraphSliceView}
use connector_supabase.Journal.{Binding}
use connector_supabase.Target.{ObservedTarget}
use connector_supabase.Plan.{Operation, PlanPayload}

pub record External : Type 0 where
  pub sha256 : Bytes → Bytes
  pub blake3 : Bytes → Bytes
  pub hex_encode : Bytes → String
  pub hex_decode : String → Option Bytes
  -- `serde_json::from_slice::<Value>`, `to_vec`, `to_string`, and `Value::get` of a key.
  pub parse_value : Bytes → Result Json String
  pub value_bytes : Json → Bytes
  pub value_text : Json → String
  pub value_get : Json → String → Option Json
  -- The derived decoding and encodings.
  pub parse_context : Bytes → Result ComponentContext String
  pub binding_value : Binding → Json
  pub operation_bytes : Operation → Bytes
  pub payload_bytes : PlanPayload → Bytes
  pub observed_bytes : ObservedTarget → Bytes
  -- `to_owned_message().encode_to_vec()` of a component spec.
  pub spec_bytes : ComponentSpecView → Result Bytes String
  -- A recovered slice is encoded, and decoded as a view.
  pub decode_view : GraphSliceView → Result GraphSliceView String
  -- `IdOrdMap::insert_unique` (`none` is the refusal of a key that is there) and `IdOrdMap::get`.
  pub insert_pin : ComponentPin → List ComponentPin → Option (List ComponentPin)
  pub insert_output : UpstreamOutput → List UpstreamOutput → Option (List UpstreamOutput)
  pub get_output : Bytes → List UpstreamOutput → Option UpstreamOutput
