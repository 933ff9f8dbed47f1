-- ===== src/Slice/Tests.antt =====
-- The slice of slice.rs at concrete messages.
use connector_supabase.Common.{
  sym, Bool, true, false, Option, none, some, List, [], ◌∷◌, ◌++◌, ◌≡◌, ◌⊎◌, arith, refl, ok,
  if◌then◌else◌,
}
use connector_supabase.Common.Text
use connector_supabase.Common.Sets.{insert}
use connector_supabase.Context.Boundary.{validate_boundary}
use connector_supabase.Context.Ids.{validate_logical_id, validate_schema}
use connector_supabase.Fixtures
use connector_supabase.Slice.{ComponentPin, DesiredSlice}
use connector_supabase.Slice.Binding.{IsTyped, SameDesired, desired_digest-SameDesired}
use connector_supabase.Slice.Digest.{desired_bytes, desired_digest}
use connector_supabase.Common.Digests.{Collision}
use connector_supabase.Slice.Parse.{
  exact_bytes, check_dependencies, parse_component, add_component, add_components, add_outputs,
  from_view,
}
use connector_supabase.Slice.Accepted.{IsInsertion, IsLevel, from_view-IsLevel}
use connector_supabase.Context.Boundary.{from_bytes}
use connector_supabase.Fixtures.Messages.{env, slice, desired}

accepted : from_view env slice ≡ ok desired
unfolding from_view exact_bytes add_components parse_component check_dependencies add_component
    add_outputs from_bytes validate_boundary validate_logical_id validate_schema insert
    Text.as_bytes
accepted = refl

append_nil : (pins : List ComponentPin) → pins ≡ pins ++ []
append_nil [] = refl
append_nil (p ∷ pins) = cc (append_nil pins)

unrefused :
    (refused : Bool) (pins pins' : List ComponentPin)
    → ◌≡◌ {A = Option (List ComponentPin)} (if refused then none else some pins) (some pins')
    → pins ≡ pins'
unrefused true pins pins' h = cc
unrefused false pins pins' h = cc

inserts : IsInsertion env
inserts pin pins pins' h =
    (pins, ([], (append_nil pins, sym (unrefused (Fixtures.has_pin pin.spec_hash pins) _ pins' h))))

from_view-IsLevel_example : IsLevel desired
from_view-IsLevel_example = from_view-IsLevel env inserts slice desired accepted

-- The same level at a later sequence of the core.
abbrev later : DesiredSlice
later = record desired { sequence = 10 }

desired-IsTyped : IsTyped desired
desired-IsTyped = record {
  graph_id = refl;
  generation = omega arith;
  components = (refl, (refl, tt));
  upstream_outputs = tt;
}

later-IsTyped : IsTyped later
later-IsTyped = record {
  graph_id = refl;
  generation = omega arith;
  components = (refl, (refl, tt));
  upstream_outputs = tt;
}

unchanged : desired_digest env desired ≡ desired_digest env later
unfolding desired_digest desired_bytes
unchanged = refl

desired_digest-SameDesired_example : SameDesired desired later ⊎ Collision env.blake3
desired_digest-SameDesired_example =
    desired_digest-SameDesired env desired later desired-IsTyped later-IsTyped refl unchanged
