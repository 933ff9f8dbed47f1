-- ===== src/Target/Observed.antt =====
-- What an observation of target.rs says: each fact is the answer of its query.
use connector_supabase.Common.{
  Bool, true, false, ◌&&◌, ◌||◌, none, some, String, List, [], ◌∷◌, ◌≡◌, refl, sym, ap, subst, ◌∙◌,
  arith, inl, inr, eq_iff, Result, ok, err, >>=-eq-ok, ok-injective, map_err, map_err-eq-ok, str_eq,
  any, map, Bool-cases, if◌then◌else◌,
}
use connector_supabase.Common.Maps
use connector_supabase.Common.Sets.{StringSet, contains, contains-insert}
use connector_supabase.Slice.{ComponentPin, DesiredSlice}
use connector_supabase.Target.{ObservedTarget, ObservedMigration}
use connector_supabase.Target.Observe.{
  Client, identity_query, metadata_query, schema_query, access_query, receipts_query, exposed_query,
  receipt_of, parse_exposed, Seen, access_of, with_schema, observe_component, observe_components,
  receipts_if, observe_with,
}
use connector_supabase.Target.Provider.{PgError, provider_or_unavailable}

-- A truth value that was answered.
abbrev pub answered : Result Bool PgError → Bool
answered (ok answer) = answer
answered (err error) = false

-- A schema that a component has.
abbrev pub is_wanted : String → List ComponentPin → Bool
is_wanted schema components =
    any (λ (component : ComponentPin). str_eq schema component.context.target.schema) components

or_false : (b : Bool) → b ≡ (b || false)
or_false true = refl
or_false false = refl

either :
    {A : Type 0} (a b : Bool) (x y : A)
    → (if b then x else (if a || false then x else y)) ≡ (if a || b then x else y)
either true true x y = refl
either true false x y = refl
either false true x y = refl
either false false x y = refl

module _ (client : Client) where
  abbrev pub exists : String → Bool
  exists schema = answered (client.query_truth schema_query (schema ∷ []))

  abbrev pub readable : String → Bool
  readable schema = exists schema && answered (client.query_truth access_query (schema ∷ []))

  -- One fact for each query.
  pub record IsObservation (desired : DesiredSlice) (observed : ObservedTarget) : Type 0 where
    pub identity :
        client.query_texts identity_query
        ≡ ok (
          observed.identity.database,
          (observed.identity.database_oid, observed.identity.server_version),
        )
    pub metadata : client.query_truth metadata_query [] ≡ ok observed.metadata_exists
    pub schemas :
        (schema : String)
        → contains schema observed.schemas ≡ (is_wanted schema desired.components && exists schema)
    pub anon_read :
        (schema : String)
        → Maps.get schema observed.anon_read
          ≡ (if is_wanted schema desired.components then some (readable schema) else none)
    pub no_ledger : observed.metadata_exists ≡ false → observed.migrations ≡ []
    pub ledger :
        observed.metadata_exists ≡ true
        → (rows : List (String × (String × String))) × ((client.query_rows receipts_query ≡ ok rows)
            × (observed.migrations ≡ map receipt_of rows))
    pub exposed :
        (configured : String) × ((client.query_text exposed_query ≡ ok configured)
          × (observed.exposed_schemas ≡ parse_exposed configured))

  -- What the loop has seen, after some components.
  abbrev Grows : List ComponentPin → Seen → Seen → Type 0
  Grows components seen next =
      (schema : String)
      → (contains schema next.schemas
          ≡ (is_wanted schema components && exists schema || contains schema seen.schemas))
        × (Maps.get schema next.anon_read ≡ (
            if is_wanted schema components
            then some (readable schema)
            else Maps.get schema seen.anon_read))

  contains-with_schema :
      (b : Bool) (s schema : String) (set : StringSet)
      → contains s (with_schema client b schema set) ≡ (str_eq s schema && b || contains s set)
  contains-with_schema true s schema set = ground (arith, contains-insert s schema set)
  contains-with_schema false s schema set = ground arith

  access_of-readable :
      (schema : String) (b access : Bool)
      → exists schema ≡ b
      → access_of client schema b ≡ ok access
      → access ≡ readable schema
  access_of-readable schema true access e h =
      rw
        (e, map_err-eq-ok provider_or_unavailable (client.query_truth access_query (schema ∷ [])) h)
        refl
  access_of-readable schema false access e h = rw e (sym (ok-injective h))

  -- A fact at the schema of a component is one at an equal text.
  at_schema :
      {A : Type 0} (f : String → A) (s schema : String) (y : A)
      → (if str_eq s schema then f schema else y) ≡ (if str_eq s schema then f s else y)
  at_schema f s schema y = elim (Bool-cases (str_eq s schema)) [
    | inl e ↦ rw e (ap f (sym ((eq_iff s schema).0 e)))
    | inr e ↦ rw e refl
  ]

  contains-seen :
      (s schema : String) (set : StringSet)
      → contains s (with_schema client (exists schema) schema set)
        ≡ ((str_eq s schema || false) && exists s || contains s set)
  contains-seen s schema set = elim (Bool-cases (str_eq s schema)) [
    | inl e ↦ ground (
      arith,
      contains-with_schema (exists schema) s schema set,
      ap exists ((eq_iff s schema).0 e),
    )
    | inr e ↦ ground (arith, contains-with_schema (exists schema) s schema set)
  ]

  get-seen :
      (s schema : String) (map : Maps.Map Bool)
      → Maps.get s (Maps.insert schema (readable schema) map)
        ≡ (if str_eq s schema || false then some (readable s) else Maps.get s map)
  get-seen s schema map =
      Maps.get-insert schema s (readable schema) map
      ∙ at_schema (λ x. some (readable x)) s schema (Maps.get s map)
      ∙ ap (λ b. if b then some (readable s) else Maps.get s map) (or_false (str_eq s schema))

  observe_component-Grows :
      (seen next : Seen) (component : ComponentPin)
      → observe_component client seen component ≡ ok next
      → Grows (component ∷ []) seen next
  unfolding observe_component
  observe_component-Grows seen next component h s =
      let schema = component.context.target.schema in
      let (b, (e, h₁)) =
        >>=-eq-ok (map_err provider_or_unavailable (client.query_truth schema_query (schema ∷ [])))
          _ h in
      let (access, (e', h₂)) = >>=-eq-ok (access_of client schema b) _ h₁ in
      let known =
        ap answered (
          map_err-eq-ok provider_or_unavailable (client.query_truth schema_query (schema ∷ []))
            e) in
      subst
        (λ (n : Seen).
          (contains s n.schemas
            ≡ (is_wanted s (component ∷ []) && exists s || contains s seen.schemas))
          × (Maps.get s n.anon_read ≡ (
              if is_wanted s (component ∷ [])
              then some (readable s)
              else Maps.get s seen.anon_read)))
        (ok-injective h₂)
        (
          subst
              (λ x.
                contains s (with_schema client x schema seen.schemas)
                ≡ ((str_eq s schema || false) && exists s || contains s seen.schemas))
              known (contains-seen s schema seen.schemas),
          subst
              (λ x. Maps.get s (Maps.insert schema x seen.anon_read) ≡ (
                if str_eq s schema || false then some (readable s) else Maps.get s seen.anon_read))
              (sym (access_of-readable schema b access known e'))
              (get-seen s schema seen.anon_read),
        )

  observe_components-Grows :
      (seen next : Seen) (components : List ComponentPin)
      → observe_components client seen components ≡ ok next
      → Grows components seen next
  unfolding observe_components
  observe_components-Grows seen next [] h s = (
    ap (λ (n : Seen). contains s n.schemas) (sym (ok-injective h)),
    ap (λ (n : Seen). Maps.get s n.anon_read) (sym (ok-injective h)),
  )
  observe_components-Grows seen next (component ∷ components) h s =
      let (middle, (e, h₁)) = >>=-eq-ok (observe_component client seen component) _ h in
      let first = observe_component-Grows seen middle component e s in
      let rest = observe_components-Grows middle next components h₁ s in
      (
        ground (arith, first.0, rest.0),
        rest.1
            ∙ ap (λ o. if is_wanted s components then some (readable s) else o) first.1
            ∙ either (str_eq s component.context.target.schema) (is_wanted s components) _ _,
      )

  receipts_if-answer :
      (m : Bool) (migrations : List ObservedMigration)
      → receipts_if client m ≡ ok migrations
      → (m ≡ false → migrations ≡ [])
        × (m ≡ true
            → (rows : List (String × (String × String))) × ((client.query_rows receipts_query
                  ≡ ok rows)
                × (migrations ≡ map receipt_of rows)))
  receipts_if-answer false migrations h = (λ _. sym (ok-injective h), λ e. cc)
  receipts_if-answer true migrations h =
      let (rows, (e, h₁)) =
        >>=-eq-ok (map_err provider_or_unavailable (client.query_rows receipts_query)) _ h in
      (
        λ e'. cc,
        λ _. (
          rows,
          (
            map_err-eq-ok provider_or_unavailable (client.query_rows receipts_query) e,
            sym (ok-injective h₁),
          ),
        ),
      )

  -- An observation holds exactly what its queries answered: the identity is the database, its oid and
  -- the server's version, in this order; the ledger exists as was answered; a schema is in it exactly when a component
  -- has it and it exists; the access of anon is known for exactly the schemas of the components, and is
  -- that of an existing schema; the migrations are the rows of the ledger, in their order, and none
  -- where there is no ledger; and the exposed schemas are the names of the setting.
  pub observe_with-IsObservation :
      (desired : DesiredSlice) (observed : ObservedTarget)
      → observe_with client desired ≡ ok observed
      → IsObservation desired observed
  unfolding observe_with
  observe_with-IsObservation desired observed h =
      let (row, (e₁, h₁)) =
        >>=-eq-ok (map_err provider_or_unavailable (client.query_texts identity_query)) _ h in
      let (m, (e₂, h₂)) =
        >>=-eq-ok (map_err provider_or_unavailable (client.query_truth metadata_query [])) _ h₁ in
      let (seen, (e₃, h₃)) =
        >>=-eq-ok
          (observe_components client (record { schemas = []; anon_read = [] }) desired.components) _
          h₂ in
      let (migrations, (e₄, h₄)) = >>=-eq-ok (receipts_if client m) _ h₃ in
      let (configured, (e₅, h₅)) =
        >>=-eq-ok (map_err provider_or_unavailable (client.query_text exposed_query)) _ h₄ in
      let grown =
        observe_components-Grows (record { schemas = []; anon_read = [] }) seen desired.components
          e₃ in
      subst (IsObservation desired) (ok-injective h₅) (record {
        identity = map_err-eq-ok provider_or_unavailable (client.query_texts identity_query) e₁;
        metadata = map_err-eq-ok provider_or_unavailable (client.query_truth metadata_query []) e₂;
        schemas = λ s. (grown s).0 ∙ sym (or_false _);
        anon_read = λ s. (grown s).1;
        no_ledger = (receipts_if-answer m migrations e₄).0;
        ledger = (receipts_if-answer m migrations e₄).1;
        exposed = (
          configured,
          (map_err-eq-ok provider_or_unavailable (client.query_text exposed_query) e₅, refl),
        );
      })
