-- ===== src/Slice/Digest.antt =====
-- `DesiredSlice::desired_digest` of slice.rs: what is hashed, and its digest.
use connector_supabase.Common.{List, [], ◌∷◌, ◌++◌, Bytes, length}
use connector_supabase.Common.Text.{as_bytes}
use connector_supabase.Common.Words.{to_be_bytes}
use connector_supabase.External.{External}
use connector_supabase.Slice.{ComponentPin, UpstreamOutput, DesiredSlice}

unfoldable pub component_bytes : List ComponentPin → Bytes
component_bytes [] = []
component_bytes (component ∷ components) = component.spec_hash ++ component_bytes components

unfoldable pub output_bytes : List UpstreamOutput → Bytes
output_bytes [] = []
output_bytes (output ∷ outputs) =
    output.component_spec_hash
    ++ (to_be_bytes (length output.values_json) ++ (output.values_json ++ output_bytes outputs))

-- The bytes that the successive `update` calls feed to the hasher.
unfoldable pub desired_bytes : DesiredSlice → Bytes
desired_bytes self =
    as_bytes "henosis.dev/supabase-desired/v1"
    ++ (0 ∷ [])
    ++ (self.graph_id
        ++ (to_be_bytes self.generation
            ++ (component_bytes self.components ++ output_bytes self.upstream_outputs)))

unfoldable pub desired_digest : External → DesiredSlice → Bytes
desired_digest env self = env.blake3 (desired_bytes self)
