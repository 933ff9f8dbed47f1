-- ===== src/Context/Boundary.antt =====
-- `ComponentContext::from_bytes` and `validate_boundary` of context.rs.
use connector_supabase.Common.{
  Bool, true, false, not, [], ◌∷◌, Bytes, Result, ok, err, lit, debug, ◌>>=◌, ◌>>◌, map_err, str_eq,
}
use connector_supabase.Context.{ComponentContext, ContextError, json, invalid, api_version}
use connector_supabase.Context.Ids.{validate_logical_id, validate_schema}
use connector_supabase.External.{External}

-- An early return with an error where the test holds.
abbrev pub refuse_if : Bool → ContextError → Result Unit ContextError
refuse_if true error = err error
refuse_if false error = ok tt

unfoldable pub validate_boundary : ComponentContext → Result Unit ContextError
validate_boundary self = do
  refuse_if (not (str_eq self.api_version api_version)) (
      invalid (
        lit "unsupported apiVersion "
        ∷ debug self.api_version
        ∷ lit "; expected "
        ∷ debug api_version
        ∷ []))
  validate_logical_id self.resource_id "resourceId"
  refuse_if (not (str_eq self.target.stack "local"))
      (invalid (lit "target.stack must be the configured v1 stack \"local\"" ∷ []))
  refuse_if (not (str_eq self.target.project "henosis-local"))
      (invalid (lit "target.project must be the self-hosted v1 project \"henosis-local\"" ∷ []))
  refuse_if (not (str_eq self.target.database "postgres"))
      (invalid (lit "target.database must be the v1 database \"postgres\"" ∷ []))
  validate_schema self.target.schema

module _ (env : External) where
  unfoldable pub from_bytes : Bytes → Result ComponentContext ContextError
  from_bytes bytes = do
    value ← map_err json (env.parse_context bytes)
    validate_boundary value
    ok value
