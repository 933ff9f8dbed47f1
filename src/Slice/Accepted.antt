-- ===== src/Slice/Accepted.antt =====
-- What a slice that `from_view` of slice.rs accepts is like.
use connector_supabase.Common.{
  Bool, true, false, not, eq_refl, some, String, List, [], ◌∷◌, ◌++◌, ◌≡◌, refl, sym, ap, subst,
  ◌<◌, arith, eq_iff, ok, >>=-eq-ok, ok-injective, ok_or, length, All, All-map,
}
use connector_supabase.Common.Sets.{StringSet, contains, insert, contains-insert}
use connector_supabase.Context.{TargetContext}
use connector_supabase.External.{External}
use connector_supabase.Slice.{
  ComponentPin, DesiredSlice, RegisteredComponentSpecView, GraphSliceView,
}
use connector_supabase.Slice.Parse.{
  is_connector, exact_bytes, positive, is_other_target, Seen, nothing_seen, parse_component,
  add_component, add_components, add_outputs, from_view,
}
use connector_supabase.Slice.Checks.{
  Admitted, refuse_if-eq-ok, ok_or-eq-ok, exact_bytes-length, positive-lt, parse_component-Admitted,
}
use connector_supabase.Slice.Apart.{target_of, Apart, Level, All-insert, insert-Level}

abbrev pub IsLevel : DesiredSlice → Type 0
IsLevel desired =
    (length desired.graph_id ≡ 16)
    × ((0 < desired.generation) × (Level desired.components × All Admitted desired.components))

-- What the sets of the loop know of a component that it inserted.
abbrev Recorded : Seen → ComponentPin → Type 0
Recorded seen p =
    (contains p.name seen.names ≡ true)
    × ((contains p.context.resource_id seen.resource_ids ≡ true)
        × ((contains p.context.target.schema seen.schemas ≡ true)
            × (seen.target ≡ some (target_of p.context.target))))

abbrev IsSound : Seen → Type 0
IsSound seen =
    Level seen.components × (All (Recorded seen) seen.components × All Admitted seen.components)

contains-insert_self : (x : String) (s : StringSet) → contains x (insert x s) ≡ true
contains-insert_self x s = rw (contains-insert x x s, eq_refl x) refl

contains-insert_other :
    (x y : String) (s : StringSet) → contains x s ≡ true → contains x (insert y s) ≡ true
contains-insert_other x y s h = ground (arith, contains-insert x y s)

is_other_target-target_of :
    (seen current : TargetContext)
    → is_other_target (some (target_of seen)) current ≡ false
    → target_of seen ≡ target_of current
is_other_target-target_of seen current h = ground (
  arith,
  eq_iff seen.stack current.stack,
  eq_iff seen.project current.project,
  eq_iff seen.database current.database,
)

absurd : {A : Type 0} {b : Bool} → b ≡ false → b ≡ true → A
absurd n y = cc

-- A component whose name, id and schema the sets do not have is apart from one that they have.
unseen-Apart :
    (seen : Seen) (pin p : ComponentPin)
    → contains pin.name seen.names ≡ false
    → contains pin.context.resource_id seen.resource_ids ≡ false
    → contains pin.context.target.schema seen.schemas ≡ false
    → is_other_target seen.target pin.context.target ≡ false
    → Recorded seen p
    → Apart pin p
unseen-Apart seen pin p n i s t r = (
  λ e. absurd (subst (λ x. contains x seen.names ≡ false) e n) r.0,
  (
    λ e. absurd (subst (λ x. contains x seen.resource_ids ≡ false) e i) r.1.0,
    (
      λ e. absurd (subst (λ x. contains x seen.schemas ≡ false) e s) r.1.1.0,
      sym (
          is_other_target-target_of p.context.target pin.context.target
            (subst (λ o. is_other_target o pin.context.target ≡ false) r.1.1.1 t)),
    ),
  ),
)

-- The sets after the insertion of a component.
abbrev after : Seen → ComponentPin → List ComponentPin → Seen
after seen pin components = record {
  components = components;
  names = insert pin.name seen.names;
  resource_ids = insert pin.context.resource_id seen.resource_ids;
  schemas = insert pin.context.target.schema seen.schemas;
  target = some (target_of pin.context.target);
}

Recorded-after :
    (seen : Seen) (pin p : ComponentPin) (components : List ComponentPin)
    → Apart pin p
    → Recorded seen p
    → Recorded (after seen pin components) p
Recorded-after seen pin p components a r = (
  contains-insert_other p.name pin.name seen.names r.0,
  (
    contains-insert_other p.context.resource_id pin.context.resource_id seen.resource_ids r.1.0,
    (
      contains-insert_other p.context.target.schema pin.context.target.schema seen.schemas r.1.1.0,
      ap some a.1.1.1,
    ),
  ),
)

-- The documented behaviour of an insertion into an ordered map: nothing but the new item comes in.
abbrev pub IsInsertion : External → Type 0
IsInsertion env =
    (pin : ComponentPin) (pins pins' : List ComponentPin)
    → env.insert_pin pin pins ≡ some pins'
    → (front : List ComponentPin) × ((back : List ComponentPin) × ((pins ≡ front ++ back)
          × (pins' ≡ front ++ pin ∷ back)))

module _ (env : External) (inserts : IsInsertion env) where
  All-inserted :
      (Q : ComponentPin → Type 0) (pin : ComponentPin) (pins pins' : List ComponentPin)
      → env.insert_pin pin pins ≡ some pins'
      → Q pin
      → All Q pins
      → All Q pins'
  All-inserted Q pin pins pins' inserted q h =
      let (front, (back, (before, now))) = inserts pin pins pins' inserted in
      subst (All Q) (sym now) (All-insert Q pin front back q (subst (All Q) before h))

  inserted-Level :
      (pin : ComponentPin) (pins pins' : List ComponentPin)
      → env.insert_pin pin pins ≡ some pins'
      → All (Apart pin) pins
      → Level pins
      → Level pins'
  inserted-Level pin pins pins' inserted a h =
      let (front, (back, (before, now))) = inserts pin pins pins' inserted in
      subst Level (sym now)
        (insert-Level pin front back (subst (All (Apart pin)) before a) (subst Level before h))

  kept_records :
      (seen : Seen) (pin : ComponentPin) (components pins : List ComponentPin)
      → All (Apart pin) pins
      → All (Recorded seen) pins
      → All (Recorded (after seen pin components)) pins
  kept_records seen pin components [] a h = tt
  kept_records seen pin components (p ∷ pins) a h =
      (Recorded-after seen pin p components a.0 h.0, kept_records seen pin components pins a.1 h.1)

  after-IsSound :
      (seen : Seen) (pin : ComponentPin) (components : List ComponentPin)
      → Admitted pin
      → All (Apart pin) seen.components
      → env.insert_pin pin seen.components ≡ some components
      → IsSound seen
      → IsSound (after seen pin components)
  after-IsSound seen pin components admitted apart inserted sound = (
    inserted-Level pin seen.components components inserted apart sound.0,
    (
      All-inserted (Recorded (after seen pin components)) pin seen.components components inserted
          (
            contains-insert_self pin.name seen.names,
            (
              contains-insert_self pin.context.resource_id seen.resource_ids,
              (contains-insert_self pin.context.target.schema seen.schemas, refl),
            ),
          )
          (kept_records seen pin components seen.components apart sound.1.0),
      All-inserted Admitted pin seen.components components inserted admitted sound.1.1,
    ),
  )

  add_component-IsSound :
      (seen : Seen) (pin : ComponentPin) (seen' : Seen)
      → Admitted pin
      → IsSound seen
      → add_component env seen pin ≡ ok seen'
      → IsSound seen'
  unfolding add_component
  add_component-IsSound seen pin seen' admitted sound h =
      let (n, h₁) = refuse_if-eq-ok (contains pin.name seen.names) _ _ h in
      let (i, h₂) = refuse_if-eq-ok (contains pin.context.resource_id seen.resource_ids) _ _ h₁ in
      let (s, h₃) = refuse_if-eq-ok (contains pin.context.target.schema seen.schemas) _ _ h₂ in
      let (t, h₄) = refuse_if-eq-ok (is_other_target seen.target pin.context.target) _ _ h₃ in
      let (components, (e, h₅)) = >>=-eq-ok (ok_or (env.insert_pin pin seen.components) _) _ h₄ in
      subst IsSound (ok-injective h₅) (
        after-IsSound seen pin components admitted
          (All-map (Recorded seen) (Apart pin) seen.components
            (λ p. unseen-Apart seen pin p n i s t) sound.1.0)
          (ok_or-eq-ok (env.insert_pin pin seen.components) _ e) sound)

  add_components-IsSound :
      (seen : Seen) (components : List RegisteredComponentSpecView) (seen' : Seen)
      → IsSound seen
      → add_components env seen components ≡ ok seen'
      → IsSound seen'
  unfolding add_components
  add_components-IsSound seen [] seen' sound h = subst IsSound (ok-injective h) sound
  add_components-IsSound seen (registered ∷ rest) seen' sound h =
      let (pin, (e, h₁)) = >>=-eq-ok (parse_component env registered) _ h in
      let (next, (e', h₂)) = >>=-eq-ok (add_component env seen pin) _ h₁ in
      add_components-IsSound next rest seen'
        (add_component-IsSound seen pin next (parse_component-Admitted env registered pin e) sound
          e')
        h₂

  -- Where an insertion into the ordered map adds just the new component, a slice that `from_view`
  -- accepts has a graph id of 16 bytes and a generation above zero; its components differ in name,
  -- in resource id and in schema, and select the same stack, project and database; and each has a
  -- hash of 32 bytes and a context that `validate_boundary` admits.
  pub from_view-IsLevel :
      (slice : GraphSliceView) (desired : DesiredSlice)
      → from_view env slice ≡ ok desired
      → IsLevel desired
  unfolding from_view
  from_view-IsLevel slice desired h =
      let (graph_id, (e₁, h₁)) = >>=-eq-ok (exact_bytes 16 slice.graph_id "slice.graph_id") _ h in
      let (generation, (e₂, h₂)) = >>=-eq-ok (ok_or (positive slice.generation) _) _ h₁ in
      let (sequence, (e₃, h₃)) = >>=-eq-ok (ok_or slice.sequence _) _ h₂ in
      let (e₄, h₄) = refuse_if-eq-ok (not (is_connector slice.connector)) _ _ h₃ in
      let (seen, (e₅, h₅)) = >>=-eq-ok (add_components env nothing_seen slice.components) _ h₄ in
      let (outputs, (e₆, h₆)) = >>=-eq-ok (add_outputs env [] slice.upstream_outputs) _ h₅ in
      let sound = add_components-IsSound nothing_seen slice.components seen (tt, (tt, tt)) e₅ in
      subst IsLevel (ok-injective h₆) (
        exact_bytes-length 16 slice.graph_id "slice.graph_id" graph_id e₁,
        (
          positive-lt slice.generation generation (ok_or-eq-ok (positive slice.generation) _ e₂),
          (sound.0, sound.1.1),
        ),
      )
