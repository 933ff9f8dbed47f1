-- ===== src/Plan/Settled.antt =====
-- The exposure that `build_plan` of plan.rs proposes settles at the target.
use connector_supabase.Common.{
  Bool, true, false, ◌&&◌, ◌||◌, String, List, [], ◌∷◌, ◌≡◌, ◌⊎◌, inl, inr, refl, sym, ◌∙◌, subst,
  arith, All, All-map, map, ok, str_eq, eq_iff, eq_refl,
}
use connector_supabase.Common.Sets.{StringSet, contains}
use connector_supabase.Common.Text
use connector_supabase.Context.{is_read}
use connector_supabase.Context.Admitted.{validate_boundary-ok_iff}
use connector_supabase.Context.Boundary.{validate_boundary}
use connector_supabase.Journal.{JournalSnapshot}
use connector_supabase.Plan.{configure_api}
use connector_supabase.Plan.Build.{exposed_schemas, policies, policy_of}
use connector_supabase.Plan.Exposure.{exposed_by, contains-exposed_schemas}
use connector_supabase.Slice.{ComponentPin, DesiredSlice}
use connector_supabase.Target.{ObservedTarget}
use connector_supabase.Target.Configured.{IsGranted, operation_satisfied-observe_with}
use connector_supabase.Target.Exposed.{IsName}
use connector_supabase.Target.Names.{is_logical_id-IsName, parse_exposed-names}
use connector_supabase.Target.Observe.{Client, exposed_query, observe_with}
use connector_supabase.Target.Observed.{is_wanted, readable, observe_with-IsObservation}
use connector_supabase.Target.Satisfied.{operation_satisfied}
use connector_supabase.Target.Sql.{join}

-- The context of the component passes the check of the boundary.
abbrev pub IsBounded : ComponentPin → Type 0
IsBounded component = validate_boundary component.context ≡ ok tt

-- The database grants to anon what the context of the component asks for.
abbrev pub IsServed : Client → ComponentPin → Type 0
IsServed client component =
    readable client component.context.target.schema
    ≡ (component.context.api.expose && is_read component.context.api.anon_access)

either : (a b : Bool) → (a || b) ≡ true → (a ≡ true) ⊎ (b ≡ true)
either true b h = inl refl
either false b h = inr h

all_of :
    (P : String → Type 0) (set : StringSet)
    → ((x : String) → contains x set ≡ true → P x)
    → All P set
all_of P [] h = tt
all_of P (y ∷ set) h = (h y (rw (eq_refl y) refl), all_of P set (λ x e. h x (ground (arith, e))))

one_of :
    (P : String → Type 0) (x : String) (set : StringSet) → All P set → contains x set ≡ true → P x
one_of P x [] h e = cc
one_of P x (y ∷ set) h e = elim (either (str_eq x y) (contains x set) e) [
  | inl same ↦ subst P (sym ((eq_iff x y).0 same)) h.0
  | inr later ↦ one_of P x set h.1 later
]

-- A schema that a component exposes is a name.
exposed_by-IsName :
    (schema : String) (components : List ComponentPin)
    → All IsBounded components
    → exposed_by schema components ≡ true
    → IsName schema
exposed_by-IsName schema [] h e = cc
exposed_by-IsName schema (component ∷ components) h e =
    elim (either (component.context.api.expose && str_eq schema component.context.target.schema) _
      e) [
        | inl own ↦
            subst IsName
              (sym ((eq_iff schema component.context.target.schema).0 (ground (arith, own))))
              (is_logical_id-IsName component.context.target.schema
                ((validate_boundary-ok_iff component.context).0 h.0).schema)
        | inr later ↦ exposed_by-IsName schema components h.1 later
      ]

public-IsName : IsName "public"
unfolding Text.trim
public-IsName = (refl, (refl, refl))

exposed_schemas-names :
    (desired : DesiredSlice) (journal : JournalSnapshot) (client : Client)
    (observed : ObservedTarget)
    → All IsBounded desired.components
    → observe_with client desired ≡ ok observed
    → All IsName (exposed_schemas desired journal observed)
exposed_schemas-names desired journal client observed bounded h = all_of IsName _ (λ schema e.
    elim (either (exposed_by schema desired.components) _
      (sym (contains-exposed_schemas desired journal observed schema) ∙ e)) [
        | inl own ↦ exposed_by-IsName schema desired.components bounded own
        | inr others ↦ elim (either (str_eq schema "public") _ others) [
          | inl same ↦ subst IsName (sym ((eq_iff schema "public").0 same)) public-IsName
          | inr read ↦
              let (configured, (_, set)) =
                (observe_with-IsObservation client desired observed h).exposed in
              one_of IsName schema observed.exposed_schemas
                (subst (All IsName) (sym set) (parse_exposed-names configured))
                (ground (arith, read))
        ]
      ])

wanted :
    (components : List ComponentPin)
    → All (λ (p : ComponentPin). is_wanted p.context.target.schema components ≡ true) components
wanted [] = tt
wanted (component ∷ components) = (
  rw (eq_refl component.context.target.schema) refl,
  All-map _ _ components (λ p e. ground (arith, e)) (wanted components),
)

granted :
    (client : Client) (desired : DesiredSlice) (components : List ComponentPin)
    → All
        (λ (p : ComponentPin). is_wanted p.context.target.schema desired.components ≡ true)
        components
    → All (IsServed client) components
    → All (IsGranted client desired) (map policy_of components)
granted client desired [] h k = tt
granted client desired (p ∷ components) h k =
    ((h.0, k.0), granted client desired components h.1 k.1)

-- Where the contexts of the slice pass the check of the boundary, the plan was made at an
-- observation, and a later one finds the setting that the proposed ConfigureApi writes and the
-- grants that the contexts ask for, the later one satisfies that ConfigureApi.
pub configure_api-settles :
    (desired : DesiredSlice) (journal : JournalSnapshot) (earlier later : Client)
    (before after : ObservedTarget)
    → All IsBounded desired.components
    → observe_with earlier desired ≡ ok before
    → observe_with later desired ≡ ok after
    → later.query_text exposed_query ≡ ok (join (exposed_schemas desired journal before))
    → All (IsServed later) desired.components
    → operation_satisfied
        (configure_api (exposed_schemas desired journal before) (policies desired))
        after
      ≡ true
configure_api-settles desired journal earlier later before after bounded h k written served =
    operation_satisfied-observe_with later desired after (exposed_schemas desired journal before)
      (policies desired) k written (exposed_schemas-names desired journal earlier before bounded h)
      (granted later desired desired.components (wanted desired.components) served)
