-- ===== src/Reconciler/Planned.antt =====
-- A plan of `build_plan` in plan.rs before the checks that `reconcile_once` of reconciler.rs makes when
-- it loads the plan again.
use text.Mathlib.TextLemmas.{append_cancel_left, append_cancel_right}
use connector_supabase.Common.{
  ℕ, ◌<◌, some, List, [], ◌∷◌, ◌≡◌, ◌↔◌, sym, ◌∙◌, ap, Bytes, ok, refl, ok-injective, format,
}
use connector_supabase.Common.Decimal.{u64_limit, to_string, parse_u64, parse_u64-to_string}
use connector_supabase.Context.Admitted.{refused_iff, or_iff, differs_iff}
use connector_supabase.External.{External}
use connector_supabase.Journal.{JournalSnapshot}
use connector_supabase.Plan.{PlanDiagnostic, ExecutablePlan, PlanContext}
use connector_supabase.Plan.Build.{desired_digest_text, draft_of, plan_of, finish, build_plan}
use connector_supabase.Plan.Digest.{refresh_id}
use connector_supabase.Plan.Draft.{Draft}
use connector_supabase.Plan.Identity.{some-injective}
use connector_supabase.Reconciler.{Outside}
use connector_supabase.Reconciler.Apply.{parsed_tail, validate_plan_identity}
use connector_supabase.Slice.{DesiredSlice}
use connector_supabase.Slice.Digest.{desired_digest}
use connector_supabase.Target.{ObservedTarget}

-- Two slices that are one level of one graph, with the same contents by their digest.
pub record IsSameLevel (env : External) (desired other : DesiredSlice) : Type 0 where
  pub graph_id : desired.graph_id ≡ other.graph_id
  pub generation : desired.generation ≡ other.generation
  pub sequence : desired.sequence ≡ other.sequence
  pub digest : desired_digest env desired ≡ desired_digest env other

-- What the checks of the apply phase find in a plan that was made for a slice, after the journal will
-- have the tail: the tail is read back from it, and another slice is taken for its own only at its level.
pub record IsPlanOf (env : External) (outside : Outside) (desired : DesiredSlice) (tail : ℕ)
    (plan : ExecutablePlan) (other : DesiredSlice) : Type 0 where
  pub fence : parsed_tail outside plan.journal_tail ≡ ok tail
  pub identity : (validate_plan_identity env plan other ≡ ok tt) ↔ IsSameLevel env desired other

to_string-injective : (m n : ℕ) → m < u64_limit → n < u64_limit → to_string m ≡ to_string n → m ≡ n
to_string-injective m n h k e =
    some-injective (sym (parse_u64-to_string m h) ∙ ap parse_u64 e ∙ parse_u64-to_string n k)

module _ (env : External) (hex : (x : Bytes) → env.hex_decode (env.hex_encode x) ≡ some x) where
  hex_encode-injective : (x y : Bytes) → env.hex_encode x ≡ env.hex_encode y → x ≡ y
  hex_encode-injective x y e = some-injective (sym (hex x) ∙ ap env.hex_decode e ∙ hex y)

  desired_digest_text-eq :
      (desired other : DesiredSlice)
      → desired_digest_text env desired ≡ desired_digest_text env other
      → desired_digest env desired ≡ desired_digest env other
  desired_digest_text-eq desired other e =
      hex_encode-injective _ _ (append_cancel_right _ _ "" (append_cancel_left "blake3:" _ _ e))

  module _ (outside : Outside) (desired other : DesiredSlice) (observed : ObservedTarget)
      (context : PlanContext) where
    -- The checks of a plan that was made from any operations.
    plan_of-IsPlanOf :
        (draft : Draft)
        → desired.generation < u64_limit
        → other.generation < u64_limit
        → desired.sequence < u64_limit
        → other.sequence < u64_limit
        → context.journal_tail_after_plan < u64_limit
        → IsPlanOf env outside desired context.journal_tail_after_plan
            (refresh_id env (plan_of env desired observed context draft))
            other
    unfolding validate_plan_identity refresh_id
    plan_of-IsPlanOf draft g g' s s' t = record {
      fence = rw (parse_u64-to_string context.journal_tail_after_plan t) refl;
      identity = (
        λ e.
            let a = (or_iff _ _).0 ((refused_iff _ _).0 e) in
            let b = (or_iff _ _).0 a.1 in
            let c = (or_iff _ _).0 b.1 in
            record {
              graph_id = hex_encode-injective _ _ ((differs_iff _ _).0 a.0);
              generation = to_string-injective _ _ g g' ((differs_iff _ _).0 b.0);
              sequence = to_string-injective _ _ s s' ((differs_iff _ _).0 c.0);
              digest = desired_digest_text-eq desired other ((differs_iff _ _).0 c.1);
            },
        λ h. (refused_iff _ _).1 (
            (or_iff _ _).1 (
              (differs_iff _ _).1 (ap env.hex_encode h.graph_id),
              (or_iff _ _).1 (
                (differs_iff _ _).1 (ap to_string h.generation),
                (or_iff _ _).1 (
                  (differs_iff _ _).1 (ap to_string h.sequence),
                  (differs_iff _ _).1
                      (ap (λ digest. format ("blake3:" ∷ env.hex_encode digest ∷ [])) h.digest),
                ),
              ),
            )),
      );
    }

    finish-IsPlanOf :
        (draft : Draft) (diagnostics : List PlanDiagnostic) {plan : ExecutablePlan}
        → IsPlanOf env outside desired context.journal_tail_after_plan
            (refresh_id env (plan_of env desired observed context draft))
            other
        → finish env desired observed context draft diagnostics ≡ ok plan
        → IsPlanOf env outside desired context.journal_tail_after_plan plan other
    finish-IsPlanOf draft [] p h = rw (sym (ok-injective h)) p
    finish-IsPlanOf draft (d ∷ ds) p h = cc

    -- Where hexadecimal digits can be read back and the numbers are below 2^64, the apply phase reads
    -- from a plan that build_plan returned exactly the tail that the journal will have after the plan,
    -- and the identity check takes the plan for a slice exactly where that slice has the graph id, the
    -- generation, the sequence and the desired digest of the slice that the plan was made for.
    pub build_plan-IsPlanOf :
        (journal : JournalSnapshot) {plan : ExecutablePlan}
        → desired.generation < u64_limit
        → other.generation < u64_limit
        → desired.sequence < u64_limit
        → other.sequence < u64_limit
        → context.journal_tail_after_plan < u64_limit
        → build_plan env desired journal observed context ≡ ok plan
        → IsPlanOf env outside desired context.journal_tail_after_plan plan other
    unfolding build_plan
    build_plan-IsPlanOf journal g g' s s' t h =
        finish-IsPlanOf (draft_of env desired journal observed) _
          (plan_of-IsPlanOf (draft_of env desired journal observed) g g' s s' t) h
