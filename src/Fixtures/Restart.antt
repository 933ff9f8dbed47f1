-- ===== src/Fixtures/Restart.antt =====
-- A controller that restarts with one retained level, where only the core answers.
use connector_supabase.Common.{false, none, some, [], ◌∷◌, Bytes, ok, err, suc, length, refl}
use connector_supabase.Fixtures
use connector_supabase.Fixtures.Messages.{env, slice, desired}
use connector_supabase.Reconciler.{graph_file, other_file, Checkpoint, World, Outside}
use connector_supabase.Reconciler.Retired.{one_file-IsFiled, IsFiled}
use connector_supabase.Slice.Digest.{desired_digest}
use connector_supabase.Target.{unavailable}

-- Only the core answers.
abbrev pub outside : Outside
outside = record {
  journal_load = λ trace. ok Fixtures.journal;
  journal_append = λ trace tail event. ok (suc tail);
  observe = λ trace wanted. err (unavailable "down");
  apply = λ trace wanted p operation. err (unavailable "down");
  report = λ trace request. err "unavailable";
  fetch_slice = λ trace request. ok (some slice);
  graph_entries = λ trace. ok (ok (graph_file desired.graph_id) ∷ ok other_file ∷ []);
  persist = λ trace p. err "disk full";
  load_plan = λ trace path. err "missing";
  read_error = λ trace graph_id. none;
  write_error = λ trace checkpoint. none;
  sync_error = λ trace checkpoint. none;
  now_v7 = λ trace. length trace ∷ [];
  publication_uuid = λ outputs. 5 ∷ [];
  fault_text = λ fault. "fault";
  parse_error = λ text. "invalid digit found in string";
  evidence_uri = λ tail. "s2://basin/stream";
  connector_build = "test-build";
  api_url = "http://localhost:4484";
  database_url_ref = "docker-secret://db";
  anon_key_ref = "docker-secret://anon";
}

abbrev pub checkpoint : Checkpoint
checkpoint = record {
  graph_id = desired.graph_id;
  generation = desired.generation;
  sequence = desired.sequence;
  desired_digest = desired_digest env desired;
  current_plan = none;
  last_report = none;
  retired = false;
}

abbrev pub restarted : World
restarted = record { checkpoints = (desired.graph_id, checkpoint) ∷ []; desired = []; trace = [] }

pub every-IsFiled : (g : Bytes) → IsFiled g restarted
every-IsFiled g = one_file-IsFiled checkpoint restarted g refl
