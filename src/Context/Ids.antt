-- ===== src/Context/Ids.antt =====
-- The identity rules of context.rs: `validate_logical_id`, `validate_schema`, `is_input_name` and
-- `is_migration_id`, over the bytes of the text as in the source.
use text.Mathlib.Text.{starts_with}
use connector_supabase.Common.{
  ℕ, Bool, false, ◌&&◌, ◌||◌, not, String, List, [], ◌∷◌, Bytes, Result, ok, err, lit, shown, debug,
  ◌>>◌, ◌==◌, leb, length, all, if◌then◌else◌,
}
use connector_supabase.Common.Sets.{contains}
use connector_supabase.Common.Text.{as_bytes, is_empty, is_lowercase, is_digit}
use connector_supabase.Context.{ContextError, invalid}

-- A test of `value.as_bytes()[0]`, which the source reads only where the text is not empty.
abbrev pub first_byte : (ℕ → Bool) → Bytes → Bool
first_byte p [] = false
first_byte p (b ∷ bs) = p b

abbrev pub is_logical_byte : ℕ → Bool
is_logical_byte byte = is_lowercase byte || is_digit byte || (byte == b'_' || byte == b'-')

abbrev pub is_input_byte : ℕ → Bool
is_input_byte byte = is_lowercase byte || is_digit byte || byte == b'_'

unfoldable pub is_logical_id : String → Bool
is_logical_id value =
    not (is_empty value)
    && leb (length (as_bytes value)) 63
    && first_byte is_lowercase (as_bytes value)
    && all is_logical_byte (as_bytes value)

unfoldable pub validate_logical_id : String → String → Result Unit ContextError
unfolding is_logical_id
validate_logical_id value name =
    if is_logical_id value
    then ok tt
    else err (invalid (shown name ∷ lit " must match [a-z][a-z0-9_-]{0,62}" ∷ []))

abbrev pub reserved : List String
reserved =
    "auth" ∷ "extensions" ∷ "graphql" ∷ "graphql_public" ∷ "henosis_connector"
    ∷ "information_schema" ∷ "pg_catalog" ∷ "public" ∷ "realtime" ∷ "storage" ∷ "supabase_functions"
    ∷ "vault" ∷ []

unfoldable pub validate_schema : String → Result Unit ContextError
unfolding validate_logical_id
validate_schema value = do
  validate_logical_id value "target.schema"
  if starts_with value "pg_" || contains value reserved
      then err (invalid (lit "target.schema " ∷ debug value ∷ lit " is reserved" ∷ []))
      else ok tt

unfoldable pub is_input_name : String → Bool
is_input_name value =
    not (is_empty value)
    && leb (length (as_bytes value)) 63
    && first_byte is_lowercase (as_bytes value)
    && all is_input_byte (as_bytes value)

unfoldable pub is_migration_id : String → Bool
is_migration_id value =
    not (is_empty value)
    && leb (length (as_bytes value)) 96
    && first_byte (λ byte. is_lowercase byte || is_digit byte) (as_bytes value)
    && all is_logical_byte (as_bytes value)
