-- ===== src/Reconciler/RunTests.antt =====
-- Restarts of the controller at concrete inputs.
use connector_supabase.Common.{[], ◌∷◌, ◌≡◌, refl, All, ok}
use connector_supabase.Common.Sets.{insert}
use connector_supabase.Common.Text
use connector_supabase.Context.Boundary.{from_bytes, validate_boundary}
use connector_supabase.Context.Ids.{validate_logical_id, validate_schema}
use connector_supabase.Fixtures.Messages.{env, desired}
use connector_supabase.Fixtures.Restart.{outside, restarted, every-IsFiled}
use connector_supabase.Reconciler.{graph_file, other_file}
use connector_supabase.Reconciler.Monad.{proceed}
use connector_supabase.Reconciler.Resume.{
  fetch_slice, read_listed, resume_level, resume_entries, resume,
}
use connector_supabase.Reconciler.Resumed.{IsResumed, resume-IsResumed}
use connector_supabase.Reconciler.Store.{load, schedule}
use connector_supabase.Slice.Digest
use connector_supabase.Slice.Digest.{desired_digest}
use connector_supabase.Common.Words
use connector_supabase.Slice.Parse.{
  exact_bytes, check_dependencies, parse_component, add_component, add_components, add_outputs,
  from_view, from_recovered,
}

resumed : (resume env outside restarted).0 ≡ ok 1
unfolding resume resume_entries read_listed load proceed resume_level fetch_slice from_recovered
    from_view exact_bytes add_components parse_component check_dependencies add_component
    add_outputs from_bytes validate_boundary validate_logical_id validate_schema insert
    Text.as_bytes schedule desired_digest Digest.desired_bytes Digest.component_bytes
    Digest.output_bytes Words.to_be_bytes
resumed = refl

resume-IsResumed_example :
    All
      (IsResumed env outside (resume env outside restarted).1)
      (ok (graph_file desired.graph_id) ∷ ok other_file ∷ [])
resume-IsResumed_example =
    resume-IsResumed env outside restarted (ok (graph_file desired.graph_id) ∷ ok other_file ∷ []) 1
      every-IsFiled refl resumed
