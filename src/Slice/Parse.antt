-- ===== src/Slice/Parse.antt =====
-- `DesiredSlice::from_request`, `from_recovered`, `from_view`, `parse_component` and `exact_bytes`
-- of slice.rs.
use connector_supabase.Common.{
  ℕ, Bool, true, false, ◌&&◌, not, Option, none, some, String, List, [], ◌∷◌, Bytes, Result, ok,
  err, lit, shown, debug, number, ◌>>=◌, ◌>>◌, map_err, ok_or, ◌==◌, ltb, str_eq, bytes_eq, length,
  any, if◌then◌else◌,
}
use connector_supabase.Common.Sets.{StringSet, contains, insert}
use connector_supabase.Common.Text.{is_empty}
use connector_supabase.Context.{TargetContext}
use connector_supabase.Context.Boundary.{from_bytes}
use connector_supabase.External.{External}
use connector_supabase.Plan.{connector_name}
use connector_supabase.Slice.{
  ComponentPin, UpstreamOutput, DesiredSlice, SliceError, invalid, context,
  RegisteredComponentSpecView, OutputView, GraphSliceView,
}

-- An early return with an error where the test holds.
abbrev pub refuse_if : Bool → SliceError → Result Unit SliceError
refuse_if true error = err error
refuse_if false error = ok tt

-- `unwrap_or_default` of borrowed bytes.
abbrev pub or_no_bytes : Option Bytes → Bytes
or_no_bytes none = []
or_no_bytes (some bytes) = bytes

-- `value.and_then(|bytes| bytes.try_into().ok())` at an array of `n` bytes.
abbrev pub try_into : ℕ → Option Bytes → Option Bytes
try_into n none = none
try_into n (some bytes) = if length bytes == n then some bytes else none

unfoldable pub exact_bytes : ℕ → Option Bytes → String → Result Bytes SliceError
exact_bytes n value name =
    ok_or (try_into n value)
      (invalid (shown name ∷ lit " must contain exactly " ∷ number n ∷ lit " bytes" ∷ []))

-- `value.filter(|value| *value > 0)`.
abbrev pub positive : Option ℕ → Option ℕ
positive none = none
positive (some value) = if ltb 0 value then some value else none

-- `value.filter(|value| !value.is_empty())`.
abbrev pub non_empty : Option String → Option String
non_empty none = none
non_empty (some value) = if is_empty value then none else some value

-- `value == Some(CONNECTOR_NAME)`.
abbrev pub is_connector : Option String → Bool
is_connector none = false
is_connector (some name) = str_eq name connector_name

module _ (env : External) where
  -- The loop over `depends_on`, with the hashes that it has seen.
  unfoldable pub check_dependencies : String → List Bytes → List Bytes → Result Unit SliceError
  check_dependencies name seen [] = ok tt
  check_dependencies name seen (dependency ∷ rest) = do
    hash ← exact_bytes 32 (some dependency) "component.spec.depends_on"
    refuse_if (any (bytes_eq hash) seen) (
        invalid (
          lit "component "
          ∷ debug name
          ∷ lit " repeats dependency "
          ∷ shown (env.hex_encode hash)
          ∷ []))
    check_dependencies name (hash ∷ seen) rest

  unfoldable pub parse_component : RegisteredComponentSpecView → Result ComponentPin SliceError
  parse_component component = do
    spec_hash ← exact_bytes 32 component.hash "component.hash"
    let fallback = env.hex_encode spec_hash
    spec ←
        ok_or component.spec
          (invalid (lit "component " ∷ shown fallback ∷ lit " has no spec body" ∷ []))
    encoded ← map_err (λ error. invalid (shown error ∷ [])) (env.spec_bytes spec)
    refuse_if (not (bytes_eq (env.blake3 encoded) spec_hash)) (
        invalid (
          lit "component "
          ∷ shown fallback
          ∷ lit " hash does not match canonical spec content"
          ∷ []))
    name ←
        ok_or (non_empty spec.name)
          (invalid (lit "component " ∷ shown fallback ∷ lit " has no name" ∷ []))
    refuse_if (not (is_connector spec.connector)) (
        invalid (
          lit "component "
          ∷ debug name
          ∷ lit " is not owned by connector "
          ∷ debug connector_name
          ∷ []))
    check_dependencies name [] spec.depends_on
    connector_context ← map_err (context name) (from_bytes env (or_no_bytes spec.connector_context))
    ok (record { spec_hash = spec_hash; name = name; context = connector_context })

-- The variables of the loop over the components.
pub record Seen : Type 0 where
  pub components : List ComponentPin
  pub names : StringSet
  pub resource_ids : StringSet
  pub schemas : StringSet
  pub target : Option (String × String × String)

abbrev pub nothing_seen : Seen
nothing_seen = record {
  components = [];
  names = [];
  resource_ids = [];
  schemas = [];
  target = none;
}

-- `target.as_ref().is_some_and(|expected| expected != &current)`.
abbrev pub is_other_target : Option (String × String × String) → TargetContext → Bool
is_other_target none current = false
is_other_target (some (stack, project, database)) current = not (
    str_eq stack current.stack
    && str_eq project current.project
    && str_eq database current.database)

module _ (env : External) where
  -- One round: the checks on a pin, and its insertion.
  unfoldable pub add_component : Seen → ComponentPin → Result Seen SliceError
  add_component seen pin = do
    refuse_if (contains pin.name seen.names)
        (invalid (lit "component name " ∷ debug pin.name ∷ lit " is duplicated" ∷ []))
    refuse_if (contains pin.context.resource_id seen.resource_ids)
        (invalid (lit "resourceId " ∷ debug pin.context.resource_id ∷ lit " is duplicated" ∷ []))
    refuse_if (contains pin.context.target.schema seen.schemas) (
        invalid
          (lit "target schema " ∷ debug pin.context.target.schema ∷ lit " is duplicated" ∷ []))
    refuse_if (is_other_target seen.target pin.context.target) (
        invalid (
          lit "every component in a Supabase slice must select the same stack/project/database"
          ∷ []))
    components ← ok_or (env.insert_pin pin seen.components) (
        invalid (
          lit "component spec hash "
          ∷ shown (env.hex_encode pin.spec_hash)
          ∷ lit " is duplicated"
          ∷ []))
    ok (record {
      components = components;
      names = insert pin.name seen.names;
      resource_ids = insert pin.context.resource_id seen.resource_ids;
      schemas = insert pin.context.target.schema seen.schemas;
      target =
          some (pin.context.target.stack, pin.context.target.project, pin.context.target.database);
    })

  unfoldable pub add_components : Seen → List RegisteredComponentSpecView → Result Seen SliceError
  add_components seen [] = ok seen
  add_components seen (registered ∷ rest) = do
    pin ← parse_component env registered
    seen' ← add_component seen pin
    add_components seen' rest

  -- The loop over the upstream outputs: each is parsed and printed again.
  unfoldable pub add_outputs :
      List UpstreamOutput → List OutputView → Result (List UpstreamOutput) SliceError
  add_outputs outputs [] = ok outputs
  add_outputs outputs (output ∷ rest) = do
    hash ← exact_bytes 32 output.component_spec_hash "slice.upstream_outputs.component_spec_hash"
    value ←
        map_err
          (λ error. invalid (
            lit "upstream output "
            ∷ shown (env.hex_encode hash)
            ∷ lit " is not JSON: "
            ∷ shown error
            ∷ []))
          (env.parse_value (or_no_bytes output.values_json))
    outputs' ←
        ok_or
          (env.insert_output
            (record { component_spec_hash = hash; values_json = env.value_bytes value }) outputs)
          (invalid
            (lit "upstream output " ∷ shown (env.hex_encode hash) ∷ lit " is duplicated" ∷ []))
    add_outputs outputs' rest

  unfoldable pub from_view : GraphSliceView → Result DesiredSlice SliceError
  from_view slice = do
    graph_id ← exact_bytes 16 slice.graph_id "slice.graph_id"
    generation ←
        ok_or (positive slice.generation)
          (invalid (lit "slice.generation must be greater than zero" ∷ []))
    sequence ← ok_or slice.sequence (invalid (lit "slice.sequence is required" ∷ []))
    refuse_if (not (is_connector slice.connector))
        (invalid (lit "slice.connector must be " ∷ debug connector_name ∷ []))
    seen ← add_components nothing_seen slice.components
    upstream_outputs ← add_outputs [] slice.upstream_outputs
    ok (record {
      graph_id = graph_id;
      generation = generation;
      sequence = sequence;
      components = seen.components;
      upstream_outputs = upstream_outputs;
    })

  unfoldable pub from_request : Option GraphSliceView → Result DesiredSlice SliceError
  from_request slice = do
    view ← ok_or slice (invalid (lit "slice is required" ∷ []))
    from_view view

  -- The recovered slice is encoded and decoded by the generated code.
  unfoldable pub from_recovered : GraphSliceView → Result DesiredSlice SliceError
  from_recovered slice = do
    view ← map_err (λ error. invalid (shown error ∷ [])) (env.decode_view slice)
    from_view view
