-- ===== src/Slice/Checks.antt =====
-- The checks of slice.rs on one field and on one component: what holds where they go on.
use connector_supabase.Common.{
  ℕ, Bool, true, false, not, Option, none, some, String, [], ◌∷◌, ◌≡◌, refl, ap, subst, ◌<◌, arith,
  Bytes, Result, ok, ◌>>◌, shown, bytes_eq, >>=-eq-ok, ok-injective, ok_or, map_err, map_err-eq-ok,
  length,
}
use connector_supabase.Context.{TargetContext, ComponentContext, ContextError}
use connector_supabase.Context
use connector_supabase.Context.Boundary.{validate_boundary, from_bytes}
use connector_supabase.External.{External}
use connector_supabase.Slice.{
  ComponentPin, SliceError, RegisteredComponentSpecView, invalid, context,
}
use connector_supabase.Slice.Parse.{
  non_empty, is_connector, check_dependencies, refuse_if, or_no_bytes, try_into, exact_bytes,
  positive, parse_component,
}

abbrev pub Admitted : ComponentPin → Type 0
Admitted p = (length p.spec_hash ≡ 32) × (validate_boundary p.context ≡ ok tt)

-- A chain that goes on after a refusal.
pub refuse_if-eq-ok :
    {A : Type 0} (refused : Bool) (e : SliceError) (k : Result A SliceError) {x : A}
    → (refuse_if refused e >> k) ≡ ok x
    → (refused ≡ false) × (k ≡ ok x)
refuse_if-eq-ok true e k h = cc
refuse_if-eq-ok false e k h = (refl, h)

pub try_into-length :
    (n : ℕ) (value : Option Bytes) (bytes : Bytes)
    → try_into n value ≡ some bytes
    → length bytes ≡ n
try_into-length n none bytes h = cc
try_into-length n (some value) bytes h = ground arith

pub ok_or-eq-ok :
    {A : Type 0} (value : Option A) (e : SliceError) {x : A} → ok_or value e ≡ ok x → value ≡ some x
ok_or-eq-ok none e h = cc
ok_or-eq-ok (some y) e h = ap some (ok-injective h)

pub exact_bytes-length :
    (n : ℕ) (value : Option Bytes) (name : String) (bytes : Bytes)
    → exact_bytes n value name ≡ ok bytes
    → length bytes ≡ n
unfolding exact_bytes
exact_bytes-length n value name bytes h =
    try_into-length n value bytes (ok_or-eq-ok (try_into n value) _ h)

pub positive-lt : (value : Option ℕ) (n : ℕ) → positive value ≡ some n → 0 < n
positive-lt none n h = cc
positive-lt (some value) n h = ground arith

pub from_bytes-validated :
    (env : External) (bytes : Bytes) (admitted : ComponentContext)
    → from_bytes env bytes ≡ ok admitted
    → validate_boundary admitted ≡ ok tt
unfolding from_bytes
from_bytes-validated env bytes admitted h =
    let (value, (_, h₁)) = >>=-eq-ok (map_err Context.json (env.parse_context bytes)) _ h in
    let (done, (v, e)) = >>=-eq-ok (validate_boundary value) _ h₁ in
    subst (λ c. validate_boundary c ≡ ok tt) (ok-injective e) v

pub parse_component-Admitted :
    (env : External) (component : RegisteredComponentSpecView) (pin : ComponentPin)
    → parse_component env component ≡ ok pin
    → Admitted pin
unfolding parse_component
parse_component-Admitted env component pin h =
    let (spec_hash, (e₁, h₁)) = >>=-eq-ok (exact_bytes 32 component.hash "component.hash") _ h in
    let (spec, (e₂, h₂)) = >>=-eq-ok (ok_or component.spec _) _ h₁ in
    let (encoded, (e₃, h₃)) =
      >>=-eq-ok (map_err (λ error. invalid (shown error ∷ [])) (env.spec_bytes spec)) _ h₂ in
    let (e₄, h₄) = refuse_if-eq-ok (not (bytes_eq (env.blake3 encoded) spec_hash)) _ _ h₃ in
    let (name, (e₅, h₅)) = >>=-eq-ok (ok_or (non_empty spec.name) _) _ h₄ in
    let (e₆, h₆) = refuse_if-eq-ok (not (is_connector spec.connector)) _ _ h₅ in
    let (done, (e₇, h₇)) = >>=-eq-ok (check_dependencies env name [] spec.depends_on) _ h₆ in
    let (value, (e₈, h₈)) =
      >>=-eq-ok (map_err (context name) (from_bytes env (or_no_bytes spec.connector_context))) _
        h₇ in
    subst Admitted (ok-injective h₈) (
      exact_bytes-length 32 component.hash "component.hash" spec_hash e₁,
      from_bytes-validated env _ value (map_err-eq-ok (context name) _ e₈),
    )
