-- ===== src/Context/Phrases.antt =====
-- Words one after the other: CREATE OR REPLACE in `forbidden_sql_verb` of context.rs against a scanner
-- that reads the text in place.
use Prim.Native.Char.{Char, code}
use connector_supabase.Common.{
  ℕ, Bool, true, false, ◌&&◌, ◌||◌, not, String, List, [], ◌∷◌, ◌≡◌, refl, sym, ap, ◌∙◌, ◌==◌, map,
  all, All, filter, bytes_eq, arith, if◌then◌else◌, Bool-cases, inl, inr,
}
use connector_supabase.Common.Text.{codes, split, is_uppercase, is_empty, to_ascii_uppercase}
use connector_supabase.Context.Sql.{is_separator, upper, tokens, create_or_replace}
use connector_supabase.Context.Pieces.{first, later, split-first, apart}

abbrev is_nil : {A : Type 0} → List A → Bool
is_nil [] = true
is_nil (x ∷ xs) = false

-- Whether the text begins with the rest of a word, in any case, which ends there, and the later words
-- follow it, each after one separator or more. In a gap separators are passed over first.
abbrev follows : List ℕ → List (List ℕ) → Bool → String → Bool
follows word words gap String.[] = is_nil word && is_nil words
follows (x ∷ word) words false (String.◌∷◌ c s) =
    to_ascii_uppercase (code c) == x && follows word words false s
follows (x ∷ word) words true (String.◌∷◌ c s) =
    if is_separator (code c)
    then follows (x ∷ word) words true s
    else to_ascii_uppercase (code c) == x && follows word words false s
follows [] [] gap (String.◌∷◌ c s) = is_separator (code c)
follows [] (next ∷ words) gap (String.◌∷◌ c s) = is_separator (code c) && follows next words true s

-- Whether the words stand in the text, where a word may begin here or not.
abbrev stands_from : List ℕ → List (List ℕ) → Bool → String → Bool
stands_from word words here String.[] = false
stands_from word words here (String.◌∷◌ c s) =
    here && follows word words false (String.◌∷◌ c s)
    || stands_from word words (is_separator (code c)) s

-- Whether the words stand in the text one after the other, in any case, with separators alone between
-- them, and between separators or the ends of the text.
abbrev pub stands_phrase : String → List String → String → Bool
stands_phrase word words sql = stands_from (codes word) (map codes words) true sql

-- The words of the pieces that are not empty.
abbrev words_of : List String → List (List ℕ)
words_of texts = map upper (filter (λ token. not (is_empty token)) texts)

abbrev leads : List (List ℕ) → List (List ℕ) → Bool
leads [] tokens = true
leads (word ∷ words) [] = false
leads (word ∷ words) (token ∷ tokens) = bytes_eq token word && leads words tokens

abbrev somewhere : List (List ℕ) → List (List ℕ) → Bool
somewhere words [] = false
somewhere words (token ∷ tokens) = leads words (token ∷ tokens) || somewhere words tokens

-- A word of one upper-case letter or more.
abbrev pub IsWord : List ℕ → Type 0
IsWord [] = ⊥
IsWord (x ∷ word) = all is_uppercase (x ∷ word) ≡ true

abbrev Upper : List ℕ → Type 0
Upper word = all is_uppercase word ≡ true

-- What a scan from here says of the pieces, in a word and in a gap.
abbrev InWord : String → Type 0
InWord s =
    (word : List ℕ) (words : List (List ℕ))
    → Upper word
    → All IsWord words
    → follows word words false s
      ≡ (bytes_eq (upper (first s)) word && leads words (words_of (later s)))

abbrev InGap : String → Type 0
InGap s =
    (word : List ℕ) (words : List (List ℕ))
    → IsWord word
    → All IsWord words
    → follows word words true s ≡ leads (word ∷ words) (words_of (first s ∷ later s))

and_assoc : (a b c : Bool) → (a && (b && c)) ≡ ((a && b) && c)
and_assoc a b c = ground arith

letters : (x : ℕ) (word : List ℕ) → Upper (x ∷ word) → (is_uppercase x ≡ true) × Upper word
letters x word h = ground arith

-- At a separator a word ends.
word_at-separator :
    (c : Char) (s : String) → is_separator (code c) ≡ true → InGap s → InWord (String.◌∷◌ c s)
word_at-separator c s e gap [] [] h k = rw e refl
word_at-separator c s e gap [] ([] ∷ words) h k = absurd k.0
word_at-separator c s e gap [] ((x ∷ next) ∷ words) h k = rw e (gap (x ∷ next) words k.0 k.1)
word_at-separator c s e gap (x ∷ word) words h k =
    rw (e, apart (code c) x e (letters x word h).0) refl

gap_at-separator :
    (c : Char) (s : String) → is_separator (code c) ≡ true → InGap s → InGap (String.◌∷◌ c s)
gap_at-separator c s e gap [] words h k = absurd h
gap_at-separator c s e gap (x ∷ word) words h k = rw e (gap (x ∷ word) words h k)

-- A letter of the word, and the rest of it.
letter :
    (c : Char) (s : String)
    → InWord s
    → (x : ℕ) (word : List ℕ) (words : List (List ℕ)) → Upper (x ∷ word)
    → All IsWord words
    → (to_ascii_uppercase (code c) == x && follows word words false s) ≡ (
        (to_ascii_uppercase (code c) == x && bytes_eq (upper (first s)) word)
        && leads words (words_of (later s)))
letter c s inside x word words h k =
    ap (λ b. to_ascii_uppercase (code c) == x && b) (inside word words (letters x word h).1 k)
    ∙ and_assoc (to_ascii_uppercase (code c) == x) (bytes_eq (upper (first s)) word)
        (leads words (words_of (later s)))

word_at-letter :
    (c : Char) (s : String) → is_separator (code c) ≡ false → InWord s → InWord (String.◌∷◌ c s)
word_at-letter c s e inside [] [] h k = rw e refl
word_at-letter c s e inside [] (next ∷ words) h k = rw e refl
word_at-letter c s e inside (x ∷ word) words h k = rw e (letter c s inside x word words h k)

gap_at-letter :
    (c : Char) (s : String) → is_separator (code c) ≡ false → InWord s → InGap (String.◌∷◌ c s)
gap_at-letter c s e inside [] words h k = absurd h
gap_at-letter c s e inside (x ∷ word) words h k = rw e (letter c s inside x word words h k)

nothing_left : InWord String.[]
nothing_left [] [] h k = refl
nothing_left [] (next ∷ words) h k = refl
nothing_left (x ∷ word) words h k = refl

no_gap_left : InGap String.[]
no_gap_left [] words h k = absurd h
no_gap_left (x ∷ word) words h k = refl

scanned : (s : String) → InWord s × InGap s
scanned String.[] = (nothing_left, no_gap_left)
scanned (String.◌∷◌ c s) = elim (Bool-cases (is_separator (code c))) [
  | inl e ↦ (word_at-separator c s e (scanned s).1, gap_at-separator c s e (scanned s).1)
  | inr e ↦ (word_at-letter c s e (scanned s).0, gap_at-letter c s e (scanned s).0)
]

module _ (x : ℕ) (word : List ℕ) (words : List (List ℕ)) (h : IsWord (x ∷ word))
    (k : All IsWord words) where
  abbrev pieces : Bool → String → List (List ℕ)
  pieces here s = words_of (if here then first s ∷ later s else later s)

  -- Where the words may begin at this character.
  begin_here :
      (c : Char) (s : String)
      → (follows (x ∷ word) words false (String.◌∷◌ c s)
          || somewhere ((x ∷ word) ∷ words) (pieces (is_separator (code c)) s))
        ≡ somewhere ((x ∷ word) ∷ words) (pieces true (String.◌∷◌ c s))
  begin_here c s = elim (Bool-cases (is_separator (code c))) [
    | inl e ↦ rw (e, apart (code c) x e (letters x word h).0) refl
    | inr e ↦ rw e (
        ap (λ b. b || somewhere ((x ∷ word) ∷ words) (words_of (later s)))
          (letter c s (scanned s).0 x word words h k))
  ]

  stands_from-pieces :
      (here : Bool) (s : String)
      → stands_from (x ∷ word) words here s ≡ somewhere ((x ∷ word) ∷ words) (pieces here s)
  stands_from-pieces true String.[] = refl
  stands_from-pieces false String.[] = refl
  stands_from-pieces true (String.◌∷◌ c s) =
      ap (λ b. follows (x ∷ word) words false (String.◌∷◌ c s) || b)
        (stands_from-pieces (is_separator (code c)) s)
      ∙ begin_here c s
  stands_from-pieces false (String.◌∷◌ c s) = stands_from-pieces (is_separator (code c)) s

three : (a b c r : Bool) → (((a && b) && c) || r) ≡ ((a && (b && (c && true))) || r)
three a b c r = ground arith

abbrev phrase : List (List ℕ)
phrase = codes "CREATE" ∷ codes "OR" ∷ codes "REPLACE" ∷ []

create_or_replace-somewhere :
    (words : List (List ℕ)) → create_or_replace words ≡ somewhere phrase words
create_or_replace-somewhere [] = refl
create_or_replace-somewhere (a ∷ []) = ground arith
create_or_replace-somewhere (a ∷ b ∷ []) = ground arith
create_or_replace-somewhere (a ∷ b ∷ c ∷ rest) =
    three (bytes_eq a (codes "CREATE")) (bytes_eq b (codes "OR")) (bytes_eq c (codes "REPLACE"))
      (create_or_replace (b ∷ c ∷ rest))
    ∙ ap (λ r. leads phrase (a ∷ b ∷ c ∷ rest) || r) (create_or_replace-somewhere (b ∷ c ∷ rest))

pub create_or_replace-stands :
    (sql : String)
    → create_or_replace (tokens sql) ≡ stands_phrase "CREATE" ("OR" ∷ "REPLACE" ∷ []) sql
unfolding tokens
create_or_replace-stands sql =
    create_or_replace-somewhere (words_of (split is_separator sql))
    ∙ ap (λ texts. somewhere phrase (words_of texts)) (split-first sql)
    ∙ sym (stands_from-pieces _ _ _ refl (refl, (refl, tt)) true sql)
