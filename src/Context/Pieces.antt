-- ===== src/Context/Pieces.antt =====
-- The pieces between the separators of a text, as `forbidden_sql_verb` of context.rs splits it.
use Prim.Native.Char.{code}
use connector_supabase.Common.{
  ℕ, true, false, String, List, [], ◌∷◌, ◌≡◌, refl, ◌==◌, arith, if◌then◌else◌, Bool-cases, inl,
  inr,
}
use connector_supabase.Common.Text.{split, push_char, is_uppercase, to_ascii_uppercase}
use connector_supabase.Context.Sql.{is_separator}

-- The text up to the first separator, and what is between the later ones.
abbrev pub first : String → String
first String.[] = String.[]
first (String.◌∷◌ c s) = if is_separator (code c) then String.[] else String.◌∷◌ c (first s)

abbrev pub later : String → List String
later String.[] = []
later (String.◌∷◌ c s) = if is_separator (code c) then first s ∷ later s else later s

pub split-first : (s : String) → split is_separator s ≡ first s ∷ later s
unfolding split push_char
split-first String.[] = refl
split-first (String.◌∷◌ c s) = elim (Bool-cases (is_separator (code c))) [
  | inl e ↦ rw (e, split-first s) refl
  | inr e ↦ rw (e, split-first s) refl
]

-- A separator is no letter of a word.
pub apart :
    (c x : ℕ) → is_separator c ≡ true → is_uppercase x ≡ true → (to_ascii_uppercase c == x) ≡ false
apart c x h k = ground arith
