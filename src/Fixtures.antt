-- ===== src/Fixtures.antt =====
-- Concrete external functions, a slice, a journal and an observation that the tests share. The
-- slice and the observation are those of the tests of crates/reconciler/src/plan.rs.
pub mod Messages
pub mod Restart
use Prim.Native.Char.{code}
use Prim.Native.String.{String}
use connector_supabase.Common.{
  ℕ, zero, suc, Bool, true, false, Option, none, some, List, [], ◌∷◌, ◌++◌, Bytes, ok, length,
  bytes_eq, ◌==◌, if◌then◌else◌, ◌+◌, ◌≡◌, refl, ap, ◌∙◌, arith,
}
use connector_supabase.Common.Text.{as_bytes}
use connector_supabase.Context
use connector_supabase.Context.{Migration, ComponentContext, TargetContext, ApiContext, InputSlot}
use connector_supabase.External.{External}
use connector_supabase.Journal.{JournalSnapshot, Binding}
use connector_supabase.Json.{text}
use connector_supabase.Plan.{PlanContext}
use connector_supabase.Slice.{ComponentPin, UpstreamOutput, DesiredSlice}
use connector_supabase.Target.{ObservedTarget}

-- A text for a byte string that can be read back: `b` letters a and a b for the byte `b`.
abbrev pub letters : ℕ → String → String
letters zero rest = String.◌∷◌ "b" rest
letters (suc n) rest = String.◌∷◌ "a" (letters n rest)

abbrev pub write : Bytes → String
write [] = String.[]
write (b ∷ bs) = letters b (write bs)

abbrev pub read : ℕ → String → Option Bytes
read n String.[] = if n == 0 then some [] else none
read n (String.◌∷◌ c s) = elim (code c == b'a') [
  | true ↦ read (suc n) s
  | false ↦ elim (read 0 s) [ none ↦ none | some bytes ↦ some (n ∷ bytes) ]
]

-- What was written is read back.
read-letters :
    (m n : ℕ) (bs : Bytes)
    → read 0 (write bs) ≡ some bs
    → read n (letters m (write bs)) ≡ some ((n + m) ∷ bs)
read-letters zero n bs h =
    ap (λ (r : Option Bytes). elim r [ none ↦ none | some bytes ↦ some (n ∷ bytes) ]) h
    ∙ ap (λ (k : ℕ). some (k ∷ bs)) (omega arith)
read-letters (suc m) n bs h =
    read-letters m (suc n) bs h ∙ ap (λ (k : ℕ). some (k ∷ bs)) (omega arith)

pub read-write : (bs : Bytes) → read 0 (write bs) ≡ some bs
read-write [] = refl
read-write (b ∷ bs) =
    read-letters b 0 bs (read-write bs) ∙ ap (λ (k : ℕ). some (k ∷ bs)) (omega arith)

-- Keeps the list in the order of insertion, and refuses a key that is there.
abbrev pub has_pin : Bytes → List ComponentPin → Bool
has_pin key [] = false
has_pin key (pin ∷ pins) = if bytes_eq pin.spec_hash key then true else has_pin key pins

abbrev pub find_output : Bytes → List UpstreamOutput → Option UpstreamOutput
find_output key [] = none
find_output key (output ∷ outputs) =
    if bytes_eq output.component_spec_hash key then some output else find_output key outputs

abbrev pub insert_output : UpstreamOutput → List UpstreamOutput → Option (List UpstreamOutput)
insert_output output outputs = elim (find_output output.component_spec_hash outputs) [
  | none ↦ some (outputs ++ output ∷ [])
  | some _ ↦ none
]

abbrev pub insert_pin : ComponentPin → List ComponentPin → Option (List ComponentPin)
insert_pin pin pins = if has_pin pin.spec_hash pins then none else some (pins ++ pin ∷ [])

abbrev pub sql : String
sql = "create table items (id bigint primary key);"

abbrev pub target : TargetContext
target = record {
  stack = "local";
  project = "henosis-local";
  database = "postgres";
  schema = "catalog";
}

-- The digest of a byte string is its length.
abbrev pub digest : Bytes → Bytes
digest bytes = length bytes ∷ []

abbrev pub sql_digest : String
sql_digest = "sha256:aaaaaaaaaaaaaaaaaaaaaaaaaaaaaaaaaaaaaaaaaaab"

abbrev pub migration : Migration
migration = record {
  id = "202607130001_create_items";
  checksum = sql_digest;
  sql = sql;
  inputs = [];
}

abbrev pub context : ComponentContext
context = record {
  api_version = Context.api_version;
  resource_id = "catalog";
  target = target;
  migrations = migration ∷ [];
  api = record { expose = true; anon_access = Context.read };
}

abbrev pub env : External
env = record {
  sha256 = digest;
  blake3 = digest;
  hex_encode = write;
  hex_decode = read 0;
  parse_value = λ bytes. ok (text (write bytes));
  value_bytes = λ value. elim value [ text s ↦ as_bytes s | _ ↦ [] ];
  value_text = λ value. "null";
  value_get = λ value key. some value;
  parse_context = λ bytes. ok context;
  binding_value = λ binding. text binding.resource_id;
  operation_bytes = λ operation. [];
  payload_bytes = λ payload. as_bytes payload.observed_digest;
  observed_bytes = λ observed. as_bytes observed.identity.database;
  spec_bytes = λ spec. ok (3 ∷ []);
  decode_view = λ view. ok view;
  insert_pin = insert_pin;
  insert_output = insert_output;
  get_output = find_output;
}

abbrev pub spec_hash : Bytes
spec_hash = 1 ∷ []

abbrev pub pin : ComponentPin
pin = record { spec_hash = spec_hash; name = "catalog"; context = context }

abbrev pub desired : DesiredSlice
desired = record {
  graph_id = 3 ∷ 3 ∷ [];
  generation = 4;
  sequence = 9;
  components = pin ∷ [];
  upstream_outputs = [];
}

abbrev pub journal : JournalSnapshot
journal = record { tail = 0; bindings = []; operations = [] }

abbrev pub observed : ObservedTarget
observed = record {
  identity = record { database = "postgres"; database_oid = "5"; server_version = "170006" };
  metadata_exists = false;
  schemas = [];
  migrations = [];
  exposed_schemas = "public" ∷ [];
  anon_read = ("catalog", false) ∷ [];
}

-- The target after the whole plan was applied.
abbrev pub converged : ObservedTarget
converged = record {
  identity = record { database = "postgres"; database_oid = "5"; server_version = "170006" };
  metadata_exists = true;
  schemas = "catalog" ∷ [];
  migrations =
      record {
        resource_id = "catalog";
        migration_id = "202607130001_create_items";
        checksum = sql_digest;
      }
      ∷ [];
  exposed_schemas = "catalog" ∷ "public" ∷ [];
  anon_read = ("catalog", true) ∷ [];
}

abbrev pub binding : Binding
binding = record {
  graph_id = "aaabaaab";
  resource_id = "catalog";
  project = "henosis-local";
  database = "postgres";
  schema = "catalog";
}

abbrev pub bound_journal : JournalSnapshot
bound_journal = record { tail = 4; bindings = ("catalog", binding) ∷ []; operations = [] }

abbrev pub plan_context : PlanContext
plan_context = record {
  journal_tail_after_plan = 1;
  connector_build = "test-build";
  api_url = "http://localhost:4484";
  database_url_ref = "docker-secret://db";
  anon_key_ref = "docker-secret://anon";
}
