-- ===== src/Target/Configured.antt =====
-- The postcondition of `ConfigureApi` in target.rs, at an observation of what `execute` writes.
use connector_supabase.Common.{
  Bool, true, false, ◌&&◌, some, String, List, [], ◌∷◌, ◌≡◌, refl, sym, ap, ◌∙◌, ok, ok-injective,
  All, all,
}
use connector_supabase.Common.Sets.{collect, set_eq_refl}
use connector_supabase.Context.{is_read}
use connector_supabase.Plan.{ApiPolicy, configure_api}
use connector_supabase.Slice.{DesiredSlice}
use connector_supabase.Target.{ObservedTarget}
use connector_supabase.Target.Exposed.{IsName, parse_exposed-join}
use connector_supabase.Target.Observe.{Client, exposed_query, parse_exposed, observe_with}
use connector_supabase.Target.Observed.{
  is_wanted, readable, IsObservation, observe_with-IsObservation,
}
use connector_supabase.Target.Satisfied.{granted, policy_holds, operation_satisfied}
use connector_supabase.Target.Sql.{join}

module _ (client : Client) (desired : DesiredSlice) where
  -- The database grants to anon what the policy of a component's schema asks for.
  abbrev pub IsGranted : ApiPolicy → Type 0
  IsGranted policy =
      (is_wanted policy.schema desired.components ≡ true)
      × (readable client policy.schema ≡ (policy.expose && is_read policy.anon_access))

  granted-same : (b : Bool) → granted b (some b) ≡ true
  granted-same true = refl
  granted-same false = refl

  all-policy_holds :
      (observed : ObservedTarget) (policies : List ApiPolicy)
      → IsObservation client desired observed
      → All IsGranted policies
      → all (policy_holds observed) policies ≡ true
  all-policy_holds observed [] o h = refl
  all-policy_holds observed (policy ∷ policies) o h =
      rw
        (
          o.anon_read policy.schema,
          h.0.0,
          h.0.1,
          granted-same (policy.expose && is_read policy.anon_access),
        )
        (all-policy_holds observed policies o h.1)

  -- Where the setting is the one that ConfigureApi writes for the names, no name is empty, has a comma
  -- or begins or ends with a blank, and each policy is of a component's schema and granted as it asks, an
  -- observation satisfies the operation: it is not planned or applied once more.
  pub operation_satisfied-observe_with :
      (observed : ObservedTarget) (names : List String) (policies : List ApiPolicy)
      → observe_with client desired ≡ ok observed
      → client.query_text exposed_query ≡ ok (join names)
      → All IsName names
      → All IsGranted policies
      → operation_satisfied (configure_api names policies) observed ≡ true
  unfolding operation_satisfied
  operation_satisfied-observe_with observed names policies h e n g =
      let o = observe_with-IsObservation client desired observed h in
      let (configured, (answer, exposed)) = o.exposed in
      let same =
        exposed ∙ ap parse_exposed (ok-injective (sym answer ∙ e)) ∙ parse_exposed-join names n in
      rw (same, set_eq_refl (collect names)) (all-policy_holds observed policies o g)
