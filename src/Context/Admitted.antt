-- ===== src/Context/Admitted.antt =====
-- Which contexts `validate_boundary` of context.rs admits.
use text.Mathlib.Text.{starts_with}
use connector_supabase.Common.{
  Bool, true, false, ◌||◌, not, ◌≡◌, ◌↔◌, refl, String, arith, Result, ok, err, ◌>>◌, str_eq,
  eq_iff, if◌then◌else◌,
}
use connector_supabase.Common.Sets.{contains}
use connector_supabase.Context.{ComponentContext, ContextError, api_version}
use connector_supabase.Context.Boundary.{refuse_if, validate_boundary}
use connector_supabase.Context.Ids.{is_logical_id, reserved, validate_logical_id, validate_schema}

-- What a context must have before the slice is accepted.
pub record IsAdmitted (self : ComponentContext) : Type 0 where
  pub version : self.api_version ≡ api_version
  pub resource_id : is_logical_id self.resource_id ≡ true
  pub stack : self.target.stack ≡ "local"
  pub project : self.target.project ≡ "henosis-local"
  pub database : self.target.database ≡ "postgres"
  pub schema : is_logical_id self.target.schema ≡ true
  pub not_system : starts_with self.target.schema "pg_" ≡ false
  pub not_reserved : contains self.target.schema reserved ≡ false

chain_iff :
    {E : Type 0} (m k : Result (Unit {0}) E) → ((m >> k) ≡ ok tt) ↔ ((m ≡ ok tt) × (k ≡ ok tt))
chain_iff (ok tt) k = (λ e. (refl, e), λ h. h.1)
chain_iff (err e) k = (λ h. cc, λ h. cc (h.0))

refuse_if-ok : (b : Bool) (error : ContextError) → (refuse_if b error ≡ ok tt) ↔ (b ≡ false)
refuse_if-ok true error = (λ e. cc, λ e. cc)
refuse_if-ok false error = (λ e. refl, λ e. refl)

checked_iff :
    {E : Type 0} (b : Bool) (error : E)
    → (◌≡◌ {A = Result (Unit {0}) E} (if b then ok tt else err error) (ok tt)) ↔ (b ≡ true)
checked_iff true error = (λ e. refl, λ e. refl)
checked_iff false error = (λ e. cc, λ e. cc)

pub refused_iff :
    {E : Type 0} (b : Bool) (error : E)
    → (◌≡◌ {A = Result (Unit {0}) E} (if b then err error else ok tt) (ok tt)) ↔ (b ≡ false)
refused_iff true error = (λ e. cc, λ e. cc)
refused_iff false error = (λ e. refl, λ e. refl)

pub validate_logical_id-ok :
    (value name : String) → (validate_logical_id value name ≡ ok tt) ↔ (is_logical_id value ≡ true)
unfolding validate_logical_id
validate_logical_id-ok value name = checked_iff (is_logical_id value) _

pub or_iff : (a b : Bool) → ((a || b) ≡ false) ↔ ((a ≡ false) × (b ≡ false))
or_iff a b = ground arith

validate_schema-ok :
    (value : String)
    → (validate_schema value ≡ ok tt) ↔ (
        (is_logical_id value ≡ true)
        × ((starts_with value "pg_" ≡ false) × (contains value reserved ≡ false)))
unfolding validate_schema
validate_schema-ok value =
    let whole = chain_iff (validate_logical_id value "target.schema") _ in
    let rest = refused_iff (starts_with value "pg_" || contains value reserved) _ in
    (
      λ e.
          let a = whole.0 e in
          ((validate_logical_id-ok value _).0 a.0, (or_iff _ _).0 (rest.0 a.1)),
      λ h. whole.1 ((validate_logical_id-ok value _).1 h.0, rest.1 ((or_iff _ _).1 h.1)),
    )

pub differs_iff : (x y : String) → (not (str_eq x y) ≡ false) ↔ (x ≡ y)
differs_iff x y = ground (arith, eq_iff x y)

-- `validate_boundary` admits a context exactly when it has the version of the format, the one
-- supported stack, project and database, a resource id and a schema of the form
-- [a-z][a-z0-9_-]{0,62}, and a schema that neither begins with pg_ nor is reserved.
pub validate_boundary-ok_iff :
    (self : ComponentContext) → (validate_boundary self ≡ ok tt) ↔ IsAdmitted self
unfolding validate_boundary
validate_boundary-ok_iff self = (
  λ e.
      let a = (chain_iff _ _).0 e in
      let b = (chain_iff _ _).0 a.1 in
      let c = (chain_iff _ _).0 b.1 in
      let d = (chain_iff _ _).0 c.1 in
      let f = (chain_iff _ _).0 d.1 in
      let s = (validate_schema-ok self.target.schema).0 f.1 in
      record {
        version = (differs_iff _ _).0 ((refuse_if-ok _ _).0 a.0);
        resource_id = (validate_logical_id-ok _ _).0 b.0;
        stack = (differs_iff _ _).0 ((refuse_if-ok _ _).0 c.0);
        project = (differs_iff _ _).0 ((refuse_if-ok _ _).0 d.0);
        database = (differs_iff _ _).0 ((refuse_if-ok _ _).0 f.0);
        schema = s.0;
        not_system = s.1.0;
        not_reserved = s.1.1;
      },
  λ h. (chain_iff _ _).1 (
    (refuse_if-ok _ _).1 ((differs_iff _ _).1 h.version),
    (chain_iff _ _).1 (
      (validate_logical_id-ok _ _).1 h.resource_id,
      (chain_iff _ _).1 (
        (refuse_if-ok _ _).1 ((differs_iff _ _).1 h.stack),
        (chain_iff _ _).1 (
          (refuse_if-ok _ _).1 ((differs_iff _ _).1 h.project),
          (chain_iff _ _).1 (
            (refuse_if-ok _ _).1 ((differs_iff _ _).1 h.database),
            (validate_schema-ok self.target.schema).1 (h.schema, (h.not_system, h.not_reserved)),
          ),
        ),
      ),
    ),
  ),
)
