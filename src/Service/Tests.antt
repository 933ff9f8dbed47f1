-- ===== src/Service/Tests.antt =====
-- The service at concrete requests.
use connector_supabase.Common.{none, some, [], ◌∷◌, ◌≡◌, refl, err, lit}
use connector_supabase.Fixtures.Messages.{env, slice}
use connector_supabase.Fixtures.Restart.{outside, restarted}
use connector_supabase.Reconciler.Level.{accept}
use connector_supabase.Reconciler.Monad.{proceed}
use connector_supabase.Service.{refuse, connect_error, reconcile_slice}
use connector_supabase.Service.Codes.{IsCoded, reconcile_slice-IsCoded}
use connector_supabase.Slice.Parse.{from_request}

reconcile_slice-IsCoded_example :
    IsCoded env restarted
      (from_request env (some slice))
      (reconcile_slice env outside (some slice) restarted)
reconcile_slice-IsCoded_example = reconcile_slice-IsCoded env restarted outside (some slice)

no_slice :
    reconcile_slice env outside none restarted
    ≡ (err (refuse (lit "invalid slice: " ∷ lit "slice is required" ∷ [])), restarted)
unfolding reconcile_slice accept proceed from_request connect_error
no_slice = refl
