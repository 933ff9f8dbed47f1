-- ===== src/Context/Documented.antt =====
-- `validate_boundary` of context.rs against docs/component-context-v1.md, which states the identities
-- as patterns of letters.
use Prim.Native.Char.{code}
use text.Mathlib.Text.{starts_with}
use connector_supabase.Common.{
  ℕ, zero, suc, Bool, true, false, ◌&&◌, ◌||◌, String, [], ◌∷◌, ◌++◌, ◌≡◌, ◌↔◌, refl, sym, ap, ◌∙◌,
  arith, ok, ◌==◌, leb, length, all, Bytes, Bool-cases, inl, inr,
}
use connector_supabase.Common.Sets.{contains}
use connector_supabase.Common.Text.{as_bytes, encode_utf8, is_lowercase, is_digit}
use connector_supabase.Context.{ComponentContext}
use connector_supabase.Context.Admitted.{validate_boundary-ok_iff}
use connector_supabase.Context.Boundary.{validate_boundary}
use connector_supabase.Context.Ids.{first_byte, is_logical_byte, is_logical_id, reserved}

-- The letters [a-z0-9_] and [a-z0-9_-].
abbrev pub is_schema_letter : ℕ → Bool
is_schema_letter c = is_lowercase c || is_digit c || c == b'_'

abbrev pub is_id_letter : ℕ → Bool
is_id_letter c = is_schema_letter c || c == b'-'

-- At most so many of the letters, to the end of the text.
abbrev up_to : (ℕ → Bool) → ℕ → String → Bool
up_to letter n String.[] = true
up_to letter zero (String.◌∷◌ c s) = false
up_to letter (suc n) (String.◌∷◌ c s) = letter (code c) && up_to letter n s

-- The pattern [a-z] and then up to 62 of the letters.
abbrev pub matches : (ℕ → Bool) → String → Bool
matches letter String.[] = false
matches letter (String.◌∷◌ c s) = is_lowercase (code c) && up_to letter 62 s

abbrev pub has_hyphen : String → Bool
has_hyphen String.[] = false
has_hyphen (String.◌∷◌ c s) = code c == b'-' || has_hyphen s

-- What the document asks of a context.
pub record IsDocumented (self : ComponentContext) : Type 0 where
  pub version : self.api_version ≡ "henosis.dev/supabase-component-context/v1"
  pub resource_id : matches is_id_letter self.resource_id ≡ true
  pub stack : self.target.stack ≡ "local"
  pub project : self.target.project ≡ "henosis-local"
  pub database : self.target.database ≡ "postgres"
  pub schema : matches is_schema_letter self.target.schema ≡ true
  pub not_system : starts_with self.target.schema "pg_" ≡ false
  pub not_reserved : contains self.target.schema reserved ≡ false

single : (n : ℕ) → is_id_letter n ≡ true → encode_utf8 n ≡ n ∷ []
unfolding encode_utf8
single n h = ground arith

single_lowercase : (n : ℕ) → is_lowercase n ≡ true → encode_utf8 n ≡ n ∷ []
unfolding encode_utf8
single_lowercase n h = ground arith

foreign :
    (n : ℕ) (bytes : Bytes)
    → is_id_letter n ≡ false
    → all is_logical_byte (encode_utf8 n ++ bytes) ≡ false
unfolding encode_utf8
foreign n bytes h = ground arith

foreign_first :
    (n : ℕ) (bytes : Bytes)
    → is_lowercase n ≡ false
    → first_byte is_lowercase (encode_utf8 n ++ bytes) ≡ false
unfolding encode_utf8
foreign_first n bytes h = ground arith

logical : (n : ℕ) → is_id_letter n ≡ true → is_logical_byte n ≡ true
logical n h = ground arith

too_long : (len : ℕ) (rest : Bool) → (leb (suc len) 0 && rest) ≡ false
too_long len rest = ground arith

-- One byte more, which is a letter.
one_more :
    (n : ℕ) (len : ℕ) (own rest : Bool)
    → own ≡ true
    → (leb (suc len) (suc n) && (own && rest)) ≡ (leb len n && rest)
one_more n len own rest h = ground arith

-- The bound and the letters, over the bytes and over the text.
all-up_to :
    (n : ℕ) (s : String)
    → (leb (length (as_bytes s)) n && all is_logical_byte (as_bytes s)) ≡ up_to is_id_letter n s
unfolding as_bytes
all-up_to n String.[] = ground arith
all-up_to zero (String.◌∷◌ c s) = elim (Bool-cases (is_id_letter (code c))) [
  | inl e ↦
      rw (single (code c) e)
        (too_long (length (as_bytes s)) (all is_logical_byte (code c ∷ as_bytes s)))
  | inr e ↦ rw (foreign (code c) (as_bytes s) e) (ground arith)
]
all-up_to (suc n) (String.◌∷◌ c s) = elim (Bool-cases (is_id_letter (code c))) [
  | inl e ↦ rw (single (code c) e) (
      one_more n (length (as_bytes s)) (is_logical_byte (code c)) (all is_logical_byte (as_bytes s))
        (logical (code c) e)
      ∙ all-up_to n s
      ∙ sym (ap (λ own. own && up_to is_id_letter n s) e))
  | inr e ↦ rw (foreign (code c) (as_bytes s) e, e) (ground arith)
]

logical_first :
    (c : ℕ) (len : ℕ) (rest : Bool)
    → is_lowercase c ≡ true
    → (leb (suc len) 63 && is_lowercase c && (is_logical_byte c && rest))
      ≡ (is_lowercase c && (leb len 62 && rest))
logical_first c len rest h = ground arith

matches-is_logical_id : (s : String) → is_logical_id s ≡ matches is_id_letter s
unfolding is_logical_id as_bytes
matches-is_logical_id String.[] = refl
matches-is_logical_id (String.◌∷◌ c s) = elim (Bool-cases (is_lowercase (code c))) [
  | inl e ↦ rw (single_lowercase (code c) e) (
      logical_first (code c) (length (as_bytes s)) (all is_logical_byte (as_bytes s)) e
      ∙ ap (λ rest. is_lowercase (code c) && rest) (all-up_to 62 s))
  | inr e ↦ rw (foreign_first (code c) (as_bytes s) e, e) (ground arith)
]

up_to-has_hyphen :
    (n : ℕ) (s : String)
    → has_hyphen s ≡ false
    → up_to is_id_letter n s ≡ up_to is_schema_letter n s
up_to-has_hyphen n String.[] h = refl
up_to-has_hyphen zero (String.◌∷◌ c s) h = refl
up_to-has_hyphen (suc n) (String.◌∷◌ c s) h =
    rw (up_to-has_hyphen n s (ground arith)) (ground arith)

matches-has_hyphen :
    (s : String) → has_hyphen s ≡ false → matches is_id_letter s ≡ matches is_schema_letter s
matches-has_hyphen String.[] h = refl
matches-has_hyphen (String.◌∷◌ c s) h = rw (up_to-has_hyphen 62 s (ground arith)) refl

-- Where the schema has no hyphen, validate_boundary admits a context exactly when it is as the document
-- says: the version of the format, the one supported stack, project and database, a resource id that
-- matches [a-z][a-z0-9_-]{0,62}, and a schema that matches [a-z][a-z0-9_]{0,62}, does not begin with
-- pg_, and is not reserved.
pub validate_boundary-IsDocumented :
    (self : ComponentContext)
    → has_hyphen self.target.schema ≡ false
    → (validate_boundary self ≡ ok tt) ↔ IsDocumented self
validate_boundary-IsDocumented self h =
    let schema =
      matches-is_logical_id self.target.schema ∙ matches-has_hyphen self.target.schema h in
    let admitted = validate_boundary-ok_iff self in
    (
      λ e.
          let a = admitted.0 e in
          record {
            version = a.version;
            resource_id = sym (matches-is_logical_id self.resource_id) ∙ a.resource_id;
            stack = a.stack;
            project = a.project;
            database = a.database;
            schema = sym schema ∙ a.schema;
            not_system = a.not_system;
            not_reserved = a.not_reserved;
          },
      λ d. admitted.1 (record {
        version = d.version;
        resource_id = matches-is_logical_id self.resource_id ∙ d.resource_id;
        stack = d.stack;
        project = d.project;
        database = d.database;
        schema = schema ∙ d.schema;
        not_system = d.not_system;
        not_reserved = d.not_reserved;
      }),
    )
