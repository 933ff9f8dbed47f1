-- ===== src/Review.antt =====
-- The review artifacts (crates/reconciler/src/review.rs): the private plan, its two review views and
-- their files. Paths are texts, and a file system is a map from paths to bytes.
mod Tests
pub mod Redaction
pub mod Roundtrip
use Prim.Native.Char.{code}
use connector_supabase.Common.{
  ℕ, Bool, true, false, not, Option, none, some, String, List, [], ◌∷◌, Bytes, Result, ok, err,
  ◌>>=◌, map, map_err, ok_or, format, ◌==◌, if◌then◌else◌,
}
use connector_supabase.Common.Maps
use connector_supabase.Common.Maps.{Map}
use connector_supabase.Common.Text.{as_bytes}
use connector_supabase.External.{External}
use connector_supabase.Json.{Json}
use connector_supabase.Plan.{
  ExecutionClass, reconciled_object, ordered_transition, Action, create, update, bind, transition,
  DestructiveLevel, non_destructive, PlannedOperation, PlannedOutput, ExecutablePlan,
}
use connector_supabase.Plan.Digest.{verify_digest}
use connector_supabase.Common.{Message}

pub record ReviewArtifacts : Type 0 where
  pub plan_path : String
  pub json_path : String
  pub markdown_path : String

pub data ReviewError : Type 0 where
  io : String → ReviewError
  json : String → ReviewError
  digest : ReviewError

pub record ReviewOperation : Type 0 where
  pub id : String
  pub address : String
  pub component_scopes : List String
  pub execution_class : ExecutionClass
  pub action : Action
  pub before : Json
  pub after : Json
  pub destructive_level : DestructiveLevel
  pub dependencies : List String
  pub preconditions : List Message

pub record ReviewProjection : Type 0 where
  pub api_version : String
  pub plan_id : String
  pub executable_digest : String
  pub connector : String
  pub connector_build : String
  pub policy_version : String
  pub graph_id : String
  pub generation : String
  pub slice_sequence : String
  pub target : String
  pub desired_digest : String
  pub observed_digest : String
  pub journal_tail : String
  pub operations : List ReviewOperation
  pub planned_outputs : List PlannedOutput

unfoldable pub review_operation : PlannedOperation → ReviewOperation
review_operation operation = record {
  id = operation.id;
  address = operation.address;
  component_scopes = operation.component_scopes;
  execution_class = operation.execution_class;
  action = operation.action;
  before = operation.before;
  after = operation.after;
  destructive_level = operation.destructive_level;
  dependencies = operation.dependencies;
  preconditions = operation.preconditions;
}

unfoldable pub projection : ExecutablePlan → ReviewProjection
unfolding review_operation
projection plan = record {
  api_version = plan.api_version;
  plan_id = plan.plan_id;
  executable_digest = plan.plan_id;
  connector = plan.connector;
  connector_build = plan.connector_build;
  policy_version = plan.policy_version;
  graph_id = plan.graph_id;
  generation = plan.generation;
  slice_sequence = plan.slice_sequence;
  target = plan.target;
  desired_digest = plan.desired_digest;
  observed_digest = plan.observed_digest;
  journal_tail = plan.journal_tail;
  operations = map review_operation plan.operations;
  planned_outputs = plan.planned_outputs;
}

-- `{:?}` of the enums.
abbrev pub action_name : Action → String
action_name create = "Create"
action_name update = "Update"
action_name bind = "Bind"
action_name transition = "Transition"

abbrev pub class_name : ExecutionClass → String
class_name reconciled_object = "ReconciledObject"
class_name ordered_transition = "OrderedTransition"

abbrev pub level_name : DestructiveLevel → String
level_name non_destructive = "NonDestructive"

abbrev pub rows : List PlannedOperation → String
rows [] = ""
rows (operation ∷ operations) = format (
    "| `"
    ∷ action_name operation.action
    ∷ "` | `"
    ∷ class_name operation.execution_class
    ∷ "` | `"
    ∷ operation.address
    ∷ "` | `"
    ∷ level_name operation.destructive_level
    ∷ "` |\n"
    ∷ rows operations
    ∷ [])

-- The document, with the pretty-printed outputs.
unfoldable pub markdown : (List PlannedOutput → String) → ExecutablePlan → String
markdown outputs_pretty plan = format (
    "# Supabase plan\n\n- Plan: `"
    ∷ plan.plan_id
    ∷ "`\n- Graph: `"
    ∷ plan.graph_id
    ∷ "` generation `"
    ∷ plan.generation
    ∷ "` / slice `"
    ∷ plan.slice_sequence
    ∷ "`\n- Target: `"
    ∷ plan.target
    ∷ "`\n- Desired: `"
    ∷ plan.desired_digest
    ∷ "`\n- Observed: `"
    ∷ plan.observed_digest
    ∷ "`\n- Journal tail fence: `"
    ∷ plan.journal_tail
    ∷ "`\n\n| Action | Class | Address | Safety |\n|---|---|---|---|\n"
    ∷ rows plan.operations
    ∷ "\n## Planned outputs\n\n```json\n"
    ∷ outputs_pretty plan.planned_outputs
    ∷ "\n```\n"
    ∷ [])

-- `str::replace(':', "-")`.
unfoldable pub replace_colons : String → String
replace_colons String.[] = String.[]
replace_colons (String.◌∷◌ c s) =
    if code c == b':' then String.◌∷◌ "-" (replace_colons s) else String.◌∷◌ c (replace_colons s)

-- What the artifacts use of serde_json and of the file system. A write can fail before the file is
-- replaced, or after it, when the directory is synced.
pub record Disk : Type 0 where
  pub plan_bytes : ExecutablePlan → Result Bytes String
  pub parse_plan : Bytes → Result ExecutablePlan String
  pub projection_bytes : ReviewProjection → Result Bytes String
  pub outputs_pretty : List PlannedOutput → String
  pub create_error : String → Option String
  pub write_error : Map Bytes → String → Option String
  pub sync_error : Map Bytes → String → Option String
  pub read_error : Map Bytes → String → Option String
  pub not_found : String

abbrev pub File : Type 0
File = Map Bytes

-- `?` on a failure that may be there, with the files as they are.
abbrev pub unless : Option String → Result Unit ReviewError
unless none = ok tt
unless (some error) = err (io error)

-- A call on the files: what was written before a failure stays.
abbrev pub Write : Type 0 → Type 0
Write A = File → Result A ReviewError × File

unfoldable pub proceed :
    {A B : Type 0} → (A → Write B) → Result A ReviewError × File → Result B ReviewError × File
proceed f (ok a, files) = f a files
proceed f (err e, files) = (err e, files)

abbrev pub and_then : {A B : Type 0} → Write A → (A → Write B) → Write B
and_then first rest files = proceed rest (first files)

abbrev pub plain : {A : Type 0} → Result A ReviewError → Write A
plain r files = (r, files)

abbrev pub paths : String → ExecutablePlan → ReviewArtifacts
paths state_dir plan =
    let token = replace_colons plan.plan_id in
    record {
      plan_path = format (state_dir ∷ "/plans/" ∷ token ∷ ".json" ∷ []);
      json_path = format (state_dir ∷ "/reviews/" ∷ token ∷ "/plan.json" ∷ []);
      markdown_path = format (state_dir ∷ "/reviews/" ∷ token ∷ "/plan.md" ∷ []);
    }

module _ (disk : Disk) where
  abbrev pub write_with : Option String → Option String → String → Bytes → Write Unit
  write_with none sync path bytes files = (unless sync, Maps.insert path bytes files)
  write_with (some error) sync path bytes files = (err (io error), files)

  unfoldable pub atomic_write : String → Bytes → Write Unit
  atomic_write path bytes files =
      write_with (disk.write_error files path) (disk.sync_error files path) path bytes files

  module _ (env : External) where
    abbrev pub write_all : String → ExecutablePlan → Write ReviewArtifacts
    write_all state_dir plan =
        and_then (plain (unless (disk.create_error (format (state_dir ∷ "/plans" ∷ []))))) (λ _.
          and_then
            (plain (
              unless (
                disk.create_error
                  (format (state_dir ∷ "/reviews/" ∷ replace_colons plan.plan_id ∷ [])))))
            (λ _. and_then (plain (map_err json (disk.plan_bytes plan))) (λ encoded.
              and_then (atomic_write (paths state_dir plan).plan_path encoded) (λ _.
                and_then (plain (map_err json (disk.projection_bytes (projection plan))))
                  (λ projected.
                    and_then (atomic_write (paths state_dir plan).json_path projected) (λ _.
                      and_then
                        (atomic_write (paths state_dir plan).markdown_path
                          (as_bytes (markdown disk.outputs_pretty plan)))
                        (λ _. plain (ok (paths state_dir plan)))))))))

    unfoldable pub persist : String → ExecutablePlan → Write ReviewArtifacts
    persist state_dir plan =
        if not (verify_digest env plan) then plain (err digest) else write_all state_dir plan

    abbrev pub read_with : Option String → Option Bytes → Result Bytes ReviewError
    read_with (some error) bytes = err (io error)
    read_with none none = err (io disk.not_found)
    read_with none (some bytes) = ok bytes

    abbrev pub verified : ExecutablePlan → Result ExecutablePlan ReviewError
    verified plan = if verify_digest env plan then ok plan else err digest

    unfoldable pub load : String → File → Result ExecutablePlan ReviewError
    load path files = read_with (disk.read_error files path) (Maps.get path files) >>= λ bytes.
        map_err json (disk.parse_plan bytes) >>= verified
