-- ===== src/Target/Exposed.antt =====
-- The setting of the exposed schemas: what `execute` of target.rs writes, `observe_with` reads back.
use Prim.Native.Char.{Char, code}
use Prim.Native.String.{◌++◌ as append}
use text.Mathlib.TextLemmas.{append-nil}
use connector_supabase.Common.{
  ℕ, Bool, true, false, not, String, List, [], ◌∷◌, ◌≡◌, refl, sym, ap, ◌∙◌, arith, map, filter,
  All, all, ◌==◌,
}
use connector_supabase.Common.Sets.{collect}
use connector_supabase.Common.Text.{codes, is_empty, push_char, split, trim}
use connector_supabase.Target.Observe.{parse_exposed}
use connector_supabase.Target.Quoting.{cons-append, nil-append}
use connector_supabase.Target.Sql.{join}

abbrev pub is_comma : ℕ → Bool
is_comma c = c == b','

-- A text that stands in the setting as one name.
abbrev pub IsName : String → Type 0
IsName s = (is_empty s ≡ false) × ((all (λ c. not (is_comma c)) (codes s) ≡ true) × (trim s ≡ s))

no_comma :
    (c : Char) (s : String)
    → all (λ x. not (is_comma x)) (codes (String.◌∷◌ c s)) ≡ true
    → (is_comma (code c) ≡ false) × (all (λ x. not (is_comma x)) (codes s) ≡ true)
no_comma c s h = ground arith

split-cons :
    (c : Char) (s : String)
    → is_comma (code c) ≡ false
    → split is_comma (String.◌∷◌ c s) ≡ push_char c (split is_comma s)
unfolding split
split-cons c s e = rw e refl

-- A name, and what follows it.
split_name :
    (s : String) (rest : List String) (t : String)
    → all (λ c. not (is_comma c)) (codes s) ≡ true
    → split is_comma t ≡ "" ∷ rest
    → split is_comma (append s t) ≡ s ∷ rest
unfolding push_char
split_name String.[] rest t h e = ap (split is_comma) (nil-append t) ∙ e
split_name (String.◌∷◌ c s) rest t h e =
    let (own, others) = no_comma c s h in
    ap (split is_comma) (cons-append c s t)
    ∙ split-cons c (append s t) own
    ∙ ap (push_char c) (split_name s rest t others e)

split_comma : (t : String) → split is_comma (append "," t) ≡ "" ∷ split is_comma t
unfolding split
split_comma t = ap (split is_comma) (cons-append "," "" t ∙ ap (String.◌∷◌ ",") (nil-append t))

split_empty : split is_comma "" ≡ "" ∷ []
unfolding split
split_empty = refl

split-join :
    (name : String) (names : List String)
    → All IsName (name ∷ names)
    → split is_comma (join (name ∷ names)) ≡ name ∷ names
unfolding join
split-join name [] h =
    ap (split is_comma) (sym (append-nil name)) ∙ split_name name [] "" h.0.1.0 split_empty
split-join name (next ∷ names) h =
    split_name name (next ∷ names) (append "," (append (join (next ∷ names)) "")) h.0.1.0 (
      split_comma (append (join (next ∷ names)) "")
      ∙ ap (λ l. "" ∷ l)
          (ap (split is_comma) (append-nil (join (next ∷ names))) ∙ split-join next names h.1))

map-trim : (names : List String) → All IsName names → map trim names ≡ names
map-trim [] h = refl
map-trim (name ∷ names) h = cc (h.0.1.1, map-trim names h.1)

filter_names :
    (names : List String) → All IsName names → filter (λ value. not (is_empty value)) names ≡ names
filter_names [] h = refl
filter_names (name ∷ names) h = rw (h.0.0, filter_names names h.1) refl

-- Names without a comma, without blanks at their ends, and not empty, that are joined into the setting
-- are read back from it as the set of these names.
pub parse_exposed-join :
    (names : List String) → All IsName names → parse_exposed (join names) ≡ collect names
unfolding parse_exposed split join trim collect
parse_exposed-join [] h = refl
parse_exposed-join (name ∷ names) h =
    ap (λ l. collect (filter (λ value. not (is_empty value)) (map trim l)))
      (split-join name names h)
    ∙ ap (λ l. collect (filter (λ value. not (is_empty value)) l)) (map-trim (name ∷ names) h)
    ∙ ap collect (filter_names (name ∷ names) h)
