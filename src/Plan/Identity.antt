-- ===== src/Plan/Identity.antt =====
-- The identity of a plan: what `build_plan` returns verifies, and two plans that verify under one
-- identity are the same plan, unless they show a collision of SHA-256.
use text.Mathlib.TextLemmas.{append_cancel_left, append_cancel_right}
use connector_supabase.Common.{
  true, Option, none, some, List, [], ◌∷◌, ◌≡◌, ◌⊎◌, inl, inr, sym, ◌∙◌, ap, Bytes, ok, eq_iff,
  eq_refl, ok-injective,
}
use connector_supabase.Common.Digests.{Collision, digest_cases}
use connector_supabase.External.{External}
use connector_supabase.Journal.{JournalSnapshot}
use connector_supabase.Plan.{PlanPayload, PlanDiagnostic, ExecutablePlan, PlanContext}
use connector_supabase.Plan.Build.{draft_of, finish, build_plan}
use connector_supabase.Plan.Digest.{payload, payload_id, verify_digest, refresh_id}
use connector_supabase.Plan.Draft.{Draft}
use connector_supabase.Slice.{DesiredSlice}
use connector_supabase.Target.{ObservedTarget}

abbrev unwrap_or {ℓ} : {A : Type ℓ} → A → Option A → A
unwrap_or default none = default
unwrap_or default (some x) = x

pub some-injective {ℓ} : {A : Type ℓ} {x y : A} → some x ≡ some y → x ≡ y
some-injective {x = x} e = ap (unwrap_or x) e

module _ (env : External) where
  verify_digest-refresh_id :
      (plan : ExecutablePlan) → verify_digest env (refresh_id env plan) ≡ true
  unfolding verify_digest refresh_id
  verify_digest-refresh_id plan = eq_refl (payload_id env (payload plan))

  finish-verify_digest :
      (desired : DesiredSlice) (observed : ObservedTarget) (context : PlanContext) (draft : Draft)
      (diagnostics : List PlanDiagnostic) {plan : ExecutablePlan}
      → finish env desired observed context draft diagnostics ≡ ok plan
      → verify_digest env plan ≡ true
  finish-verify_digest desired observed context draft [] h =
      rw (sym (ok-injective h)) (verify_digest-refresh_id _)
  finish-verify_digest desired observed context draft (d ∷ ds) h = cc

  -- A plan that `build_plan` returns passes the check that `load` and `persist` make.
  pub build_plan-verify_digest :
      (desired : DesiredSlice) (journal : JournalSnapshot) (observed : ObservedTarget)
      (context : PlanContext) {plan : ExecutablePlan}
      → build_plan env desired journal observed context ≡ ok plan
      → verify_digest env plan ≡ true
  unfolding build_plan
  build_plan-verify_digest desired journal observed context h =
      finish-verify_digest desired observed context (draft_of env desired journal observed) _ h

  verified :
      (plan : ExecutablePlan)
      → verify_digest env plan ≡ true
      → plan.plan_id ≡ payload_id env (payload plan)
  unfolding verify_digest
  verified plan h = (eq_iff plan.plan_id (payload_id env (payload plan))).0 h

plan_of_payload : (p q : ExecutablePlan) → p.plan_id ≡ q.plan_id → payload p ≡ payload q → p ≡ q
unfolding payload
plan_of_payload p q i e = λ j. record {
  plan_id = i j;
  api_version = (e j).api_version;
  connector = (e j).connector;
  connector_build = (e j).connector_build;
  policy_version = (e j).policy_version;
  graph_id = (e j).graph_id;
  generation = (e j).generation;
  slice_sequence = (e j).slice_sequence;
  target = (e j).target;
  desired_digest = (e j).desired_digest;
  observed_digest = (e j).observed_digest;
  journal_tail = (e j).journal_tail;
  operations = (e j).operations;
  planned_outputs = (e j).planned_outputs;
  notices = (e j).notices;
}

-- Where the hexadecimal digits and the JSON of the two plans can be read back, two plans that both
-- verify under one `plan_id` are equal in every field, the executable operations included, or there
-- are two byte strings with one SHA-256 digest.
pub verify_digest-eq :
    (env : External)
    → (hex : (x : Bytes) → env.hex_decode (env.hex_encode x) ≡ some x)
    → (parse : Bytes → Option PlanPayload) → (p q : ExecutablePlan)
    → parse (env.payload_bytes (payload p)) ≡ some (payload p)
    → parse (env.payload_bytes (payload q)) ≡ some (payload q)
    → verify_digest env p ≡ true
    → verify_digest env q ≡ true
    → p.plan_id ≡ q.plan_id
    → (p ≡ q) ⊎ Collision env.sha256
verify_digest-eq env hex parse p q rp rq hp hq e =
    let ids = sym (verified env p hp) ∙ e ∙ verified env q hq in
    let texts = append_cancel_right _ _ "" (append_cancel_left "sha256:" _ _ ids) in
    let digests = some-injective (sym (hex _) ∙ ap env.hex_decode texts ∙ hex _) in
    elim (digest_cases env.sha256 (env.payload_bytes (payload p)) (env.payload_bytes (payload q))
      digests) [
        | inl same ↦ inl (plan_of_payload p q e (some-injective (sym rp ∙ ap parse same ∙ rq)))
        | inr collision ↦ inr collision
      ]
