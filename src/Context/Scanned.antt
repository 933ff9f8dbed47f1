-- ===== src/Context/Scanned.antt =====
-- The scanner `forbidden_sql_verb` of context.rs against one that reads the text in place.
use Prim.Native.Char.{code}
use connector_supabase.Common.{
  ℕ, Bool, true, false, ◌&&◌, ◌||◌, not, some, String, List, [], ◌∷◌, ◌≡◌, refl, sym, ap, ap₂, ◌∙◌,
  ◌==◌, map, any, all, All, filter, find, bytes_eq, arith, if◌then◌else◌, Bool-cases, inl, inr,
}
use connector_supabase.Common.Text.{codes, split, is_uppercase, is_empty, to_ascii_uppercase}
use connector_supabase.Context.Sql.{
  forbidden, is_separator, upper, tokens, create_or_replace, forbidden_sql_verb,
}
use connector_supabase.Context.Pieces.{first, later, split-first, apart}
use connector_supabase.Context.Phrases.{IsWord, stands_phrase, create_or_replace-stands}

-- Whether the text begins with the word, in any case, and the word ends there.
abbrev begins : List ℕ → String → Bool
begins [] String.[] = true
begins [] (String.◌∷◌ c s) = is_separator (code c)
begins (x ∷ word) String.[] = false
begins (x ∷ word) (String.◌∷◌ c s) = to_ascii_uppercase (code c) == x && begins word s

-- Whether the word stands in the text, where a word may begin here or not.
abbrev stands_from : List ℕ → Bool → String → Bool
stands_from word here String.[] = false
stands_from word here (String.◌∷◌ c s) =
    here && begins word (String.◌∷◌ c s) || stands_from word (is_separator (code c)) s

-- Whether the word stands in the text, in any case, between separators or the ends of the text.
abbrev pub stands : String → String → Bool
stands word sql = stands_from (codes word) true sql

begins-first :
    (word : List ℕ) (s : String)
    → all is_uppercase word ≡ true
    → begins word s ≡ bytes_eq (upper (first s)) word
begins-first [] String.[] h = refl
begins-first [] (String.◌∷◌ c s) h = elim (Bool-cases (is_separator (code c))) [
  | inl e ↦ rw e refl
  | inr e ↦ rw e refl
]
begins-first (x ∷ word) String.[] h = refl
begins-first (x ∷ word) (String.◌∷◌ c s) h = elim (Bool-cases (is_separator (code c))) [
  | inl e ↦ rw (e, apart (code c) x e (ground arith)) refl
  | inr e ↦ rw (e, begins-first word s (ground arith)) refl
]

module _ (x : ℕ) (word : List ℕ) (letters : all is_uppercase (x ∷ word) ≡ true) where
  abbrev among : List String → Bool
  among texts = any (λ text. bytes_eq (upper text) (x ∷ word)) texts

  stands_from-texts :
      (here : Bool) (s : String)
      → stands_from (x ∷ word) here s ≡ among (if here then first s ∷ later s else later s)
  stands_from-texts true String.[] = refl
  stands_from-texts false String.[] = refl
  stands_from-texts true (String.◌∷◌ c s) =
      ap₂ ◌||◌ (begins-first (x ∷ word) (String.◌∷◌ c s) letters)
        (stands_from-texts (is_separator (code c)) s)
  stands_from-texts false (String.◌∷◌ c s) = stands_from-texts (is_separator (code c)) s

  -- The words that are not empty are those that count.
  among-filter :
      (texts : List String)
      → any
          (λ token. bytes_eq token (x ∷ word))
          (map upper (filter (λ token. not (is_empty token)) texts))
        ≡ among texts
  among-filter [] = refl
  among-filter (String.[] ∷ texts) = among-filter texts
  among-filter (String.◌∷◌ c s ∷ texts) =
      ap (λ b. bytes_eq (upper (String.◌∷◌ c s)) (x ∷ word) || b) (among-filter texts)

  any-tokens :
      (sql : String)
      → any (λ token. bytes_eq token (x ∷ word)) (tokens sql) ≡ stands_from (x ∷ word) true sql
  unfolding tokens
  any-tokens sql =
      among-filter (split is_separator sql)
      ∙ ap among (split-first sql)
      ∙ sym (stands_from-texts true sql)

any-stands :
    (sql : String) (word : List ℕ)
    → IsWord word
    → any (λ token. bytes_eq token word) (tokens sql) ≡ stands_from word true sql
any-stands sql [] h = absurd h
any-stands sql (x ∷ word) h = any-tokens x word h sql

find-stands :
    (sql : String) (verbs : List String)
    → All (λ verb. IsWord (codes verb)) verbs
    → find (λ verb. any (λ token. bytes_eq token (codes verb)) (tokens sql)) verbs
      ≡ find (λ verb. stands verb sql) verbs
find-stands sql [] h = refl
find-stands sql (verb ∷ verbs) h =
    rw (any-stands sql (codes verb) h.0, find-stands sql verbs h.1) refl

forbidden-IsWord : All (λ verb. IsWord (codes verb)) forbidden
forbidden-IsWord =
    (refl, (refl, (refl, (refl, (refl, (refl, (refl, (refl, (refl, (refl, tt))))))))))

-- forbidden_sql_verb answers what a scanner of the text in place finds, which reads letters of either
-- case as one and keeps no list of words: CREATE OR REPLACE where these three words stand in the text
-- one after the other, with separators alone between them, and else the first of the ten verbs that
-- stands in the text, each word between separators or the ends of the text.
pub forbidden_sql_verb-stands :
    (sql : String)
    → forbidden_sql_verb sql ≡ (
        if stands_phrase "CREATE" ("OR" ∷ "REPLACE" ∷ []) sql
        then some "CREATE OR REPLACE"
        else find (λ verb. stands verb sql) forbidden)
unfolding forbidden_sql_verb
forbidden_sql_verb-stands sql =
    ap (λ found. if create_or_replace (tokens sql) then some "CREATE OR REPLACE" else found)
      (find-stands sql forbidden forbidden-IsWord)
    ∙ ap
        (λ (b : Bool).
          if b then some "CREATE OR REPLACE" else find (λ verb. stands verb sql) forbidden)
        (create_or_replace-stands sql)
