-- ===== src/Review/Tests.antt =====
-- The review artifacts at concrete inputs.
use connector_supabase.Common.{none, [], ◌∷◌, ◌≡◌, refl, ok}
use connector_supabase.Common.Text
use connector_supabase.Target.Digest
use connector_supabase.Fixtures.{env, desired, observed, bound_journal, plan_context}
use connector_supabase.Plan.{ExecutablePlan, ensure_metadata}
use connector_supabase.Plan.Build.{draft_of, plan_of}
use connector_supabase.Plan.Digest.{refresh_id, verify_digest}
use connector_supabase.Review.{
  Disk, projection, markdown, paths, persist, load, atomic_write, proceed,
}
use connector_supabase.Review.Redaction.{with_payloads, projection-redacted}
use connector_supabase.Review.Roundtrip.{load-persist}

abbrev plan : ExecutablePlan
plan =
    refresh_id env
      (plan_of env desired observed plan_context (draft_of env desired bound_journal observed))

-- A disk that never fails, for one plan.
abbrev disk : Disk
disk = record {
  plan_bytes = λ p. ok (7 ∷ []);
  parse_plan = λ bytes. ok plan;
  projection_bytes = λ view. ok (8 ∷ []);
  outputs_pretty = λ outputs. "[]";
  create_error = λ path. none;
  write_error = λ files path. none;
  sync_error = λ files path. none;
  read_error = λ files path. none;
  not_found = "No such file or directory (os error 2)";
}

persisted : (persist disk env "state" plan []).0 ≡ ok (paths "state" plan)
unfolding persist atomic_write proceed refresh_id draft_of verify_digest Text.as_bytes
    Digest.observed_digest
persisted = refl

load-persist_example :
    load disk env (paths "state" plan).plan_path (persist disk env "state" plan []).1 ≡ ok plan
load-persist_example =
    load-persist disk env "state" plan [] (paths "state" plan) (λ bytes encoded. refl) persisted
      refl

projection-redacted_example :
    (projection (record plan {
      operations = with_payloads (λ planned. ensure_metadata) plan.operations;
      notices = [];
    })
      ≡ projection plan)
    × (markdown disk.outputs_pretty (record plan {
      operations = with_payloads (λ planned. ensure_metadata) plan.operations;
      notices = [];
    })
        ≡ markdown disk.outputs_pretty plan)
projection-redacted_example =
    projection-redacted disk.outputs_pretty (λ planned. ensure_metadata) [] plan
