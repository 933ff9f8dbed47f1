-- ===== src/Context/Sql.antt =====
-- The conservative SQL scanner of context.rs: `forbidden_sql_verb`.
use connector_supabase.Common.{
  ℕ, Bool, false, ◌&&◌, ◌||◌, not, Option, some, String, List, [], ◌∷◌, ◌==◌, map, any, filter,
  find, bytes_eq, if◌then◌else◌,
}
use connector_supabase.Common.Text.{codes, split, is_alphanumeric, is_empty, to_ascii_uppercase}

abbrev pub forbidden : List String
forbidden =
    "ALTER" ∷ "CALL" ∷ "COPY" ∷ "DELETE" ∷ "DO" ∷ "DROP" ∷ "MERGE" ∷ "REVOKE" ∷ "TRUNCATE"
    ∷ "UPDATE" ∷ []

-- What separates two words.
abbrev pub is_separator : ℕ → Bool
is_separator character = not (is_alphanumeric character) && not (character == b'_')

-- `str::to_ascii_uppercase`, as the code points of the result.
abbrev pub upper : String → List ℕ
upper word = map to_ascii_uppercase (codes word)

-- The words of the text in upper case.
unfoldable pub tokens : String → List (List ℕ)
unfolding split
tokens sql = map upper (filter (λ token. not (is_empty token)) (split is_separator sql))

-- Whether a window of three words is CREATE OR REPLACE.
abbrev pub create_or_replace : List (List ℕ) → Bool
create_or_replace (a ∷ b ∷ c ∷ rest) =
    bytes_eq a (codes "CREATE") && bytes_eq b (codes "OR") && bytes_eq c (codes "REPLACE")
    || create_or_replace (b ∷ c ∷ rest)
create_or_replace _ = false

abbrev pub scan : List (List ℕ) → Option String
scan words =
    if create_or_replace words
    then some "CREATE OR REPLACE"
    else find (λ verb. any (λ token. bytes_eq token (codes verb)) words) forbidden

unfoldable pub forbidden_sql_verb : String → Option String
unfolding tokens
forbidden_sql_verb sql = scan (tokens sql)
