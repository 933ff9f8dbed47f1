-- ===== src/Fixtures/Messages.antt =====
-- A slice of two components as the core sends it, and external functions at which it is accepted.
use connector_supabase.Common.{zero, suc, some, String, [], ◌∷◌, ◌++◌, Bytes, ok}
use connector_supabase.Context.{ComponentContext}
use connector_supabase.External.{External}
use connector_supabase.Fixtures
use connector_supabase.Slice.{DesiredSlice, RegisteredComponentSpecView, GraphSliceView}
use connector_supabase.Slice.Parse.{or_no_bytes}

abbrev pub zeros : Bytes
zeros = 0 ∷ 0 ∷ 0 ∷ 0 ∷ 0 ∷ 0 ∷ 0 ∷ 0 ∷ 0 ∷ 0 ∷ 0 ∷ 0 ∷ 0 ∷ 0 ∷ 0 ∷ []

abbrev pub hash_of : Bytes → Bytes
hash_of bytes = bytes ++ zeros ++ 0 ∷ zeros

-- The context of a component whose bytes are not empty has an id and a schema of its own.
abbrev pub orders : ComponentContext
orders = record Fixtures.context {
  resource_id = "orders";
  target = record Fixtures.target { schema = "orders" };
}

abbrev pub context_of : Bytes → ComponentContext
context_of (suc zero ∷ []) = Fixtures.context
context_of _ = orders

abbrev pub env : External
env = record Fixtures.env {
  blake3 = hash_of;
  spec_bytes = λ spec. ok (or_no_bytes spec.connector_context);
  parse_context = λ bytes. ok (context_of bytes);
}

abbrev pub component : String → Bytes → RegisteredComponentSpecView
component name bytes = record {
  hash = some (hash_of bytes);
  spec = some (record {
    name = some name;
    connector = some "supabase";
    depends_on = [];
    connector_context = some bytes;
  });
}

abbrev pub slice : GraphSliceView
slice = record {
  graph_id = some (3 ∷ zeros);
  generation = some 4;
  sequence = some 9;
  connector = some "supabase";
  components = component "catalog" (1 ∷ []) ∷ component "orders" (2 ∷ []) ∷ [];
  upstream_outputs = [];
}

abbrev pub desired : DesiredSlice
desired = record {
  graph_id = 3 ∷ zeros;
  generation = 4;
  sequence = 9;
  components =
      record { spec_hash = hash_of (1 ∷ []); name = "catalog"; context = Fixtures.context }
      ∷ record { spec_hash = hash_of (2 ∷ []); name = "orders"; context = orders }
      ∷ [];
  upstream_outputs = [];
}
