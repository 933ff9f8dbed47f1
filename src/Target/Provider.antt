-- ===== src/Target/Provider.antt =====
-- `unavailable` and `provider_or_unavailable` of target.rs: what a failure of the PostgreSQL client
-- becomes.
use connector_supabase.Common.{Option, none, some, String, List, [], ◌∷◌, ◌++◌, format}
use connector_supabase.Target.{TargetError, unavailable, provider}

-- What the server says of an error: `tokio_postgres::error::DbError`. The position is in its debug
-- format.
pub record DbError : Type 0 where
  pub severity : String
  pub code : String
  pub message : String
  pub detail : Option String
  pub hint : Option String
  pub position : Option String
  pub where_ : Option String

-- `tokio_postgres::Error`: its display, and the server's error where there is one.
pub record PgError : Type 0 where
  pub display : String
  pub as_db_error : Option DbError

-- A line that is there only if the field is.
abbrev pub line_of : String → Option String → List String
line_of name none = []
line_of name (some text) = format (name ∷ ": " ∷ text ∷ []) ∷ []

-- `lines.join("\n")`.
unfoldable pub join_lines : List String → String
join_lines [] = ""
join_lines (line ∷ []) = line
join_lines (line ∷ next ∷ lines) = format (line ∷ "\n" ∷ join_lines (next ∷ lines) ∷ [])

abbrev pub lines_of : DbError → List String
lines_of database =
    format ("severity: " ∷ database.severity ∷ [])
    ∷ format ("code: " ∷ database.code ∷ [])
    ∷ format ("message: " ∷ database.message ∷ [])
    ∷ (line_of "detail" database.detail
        ++ (line_of "hint" database.hint
            ++ (line_of "position" database.position ++ line_of "where" database.where_)))

abbrev pub provider_of : String → Option DbError → TargetError
provider_of display none = unavailable display
provider_of display (some database) = provider (record {
  code = format ("supabase.postgres." ∷ database.code ∷ []);
  detail = join_lines (lines_of database);
  help = database.hint;
})

unfoldable pub provider_or_unavailable : PgError → TargetError
provider_or_unavailable error = provider_of error.display error.as_db_error
