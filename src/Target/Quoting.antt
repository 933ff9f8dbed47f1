-- ===== src/Target/Quoting.antt =====
-- A quoted text of target.rs is read back by PostgreSQL's rule as the text that was quoted.
use Prim.Native.String.{◌++◌ as append}
use Prim.Native.String.append.{nil, cons}
use Prim.Native.Char.{Char, code}
use text.Mathlib.TextLemmas.{append_assoc}
use connector_supabase.Common.{
  ℕ, Bool, true, false, Option, none, some, String, ◌≡◌, refl, ◌∙◌, ap, inl, inr, arith, ◌==◌,
  Bool-cases, if◌then◌else◌,
}
use connector_supabase.Target.Sql.{doubled, quote_identifier, quote_literal}

abbrev pub prefix : Char → Option (String × String) → Option (String × String)
prefix c none = none
prefix c (some (text, rest)) = some (String.◌∷◌ c text, rest)

-- PostgreSQL's rule, after the opening quote: two quotes stand for one, and one quote ends the text.
-- What is left is the rest of the statement. The option is a quote that was just read.
abbrev pub read_quoted : ℕ → Option Char → String → Option (String × String)
read_quoted quote none String.[] = none
read_quoted quote none (String.◌∷◌ c s) =
    if code c == quote then read_quoted quote (some c) s else prefix c (read_quoted quote none s)
read_quoted quote (some c) String.[] = some ("", "")
read_quoted quote (some c) (String.◌∷◌ d s) =
    if code d == quote then prefix c (read_quoted quote none s) else some ("", String.◌∷◌ d s)

-- The rest of a statement does not begin with the quote.
abbrev pub is_clear : ℕ → String → Bool
is_clear quote String.[] = true
is_clear quote (String.◌∷◌ c s) = if code c == quote then false else true

pub cons-append : (c : Char) (s t : String) → append (String.◌∷◌ c s) t ≡ String.◌∷◌ c (append s t)
cons-append c s t = λ i. cons c s t i

pub nil-append : (t : String) → append String.[] t ≡ t
nil-append t = λ i. nil t i

ended :
    (quote : ℕ) (c : Char) (rest : String)
    → is_clear quote rest ≡ true
    → read_quoted quote (some c) rest ≡ some ("", rest)
ended quote c String.[] h = refl
ended quote c (String.◌∷◌ d s) h = ground (arith, h)

one :
    (quote : ℕ) (c : Char) (s : String)
    → (code c == quote) ≡ true
    → read_quoted quote none (String.◌∷◌ c s) ≡ read_quoted quote (some c) s
one quote c s e = rw e refl

twice :
    (quote : ℕ) (c : Char) (s : String)
    → (code c == quote) ≡ true
    → read_quoted quote none (String.◌∷◌ c (String.◌∷◌ c s)) ≡ prefix c (read_quoted quote none s)
twice quote c s e = rw e refl

plain :
    (quote : ℕ) (c : Char) (s : String)
    → (code c == quote) ≡ false
    → read_quoted quote none (String.◌∷◌ c s) ≡ prefix c (read_quoted quote none s)
plain quote c s e = rw e refl

read_quoted-doubled :
    (quote : ℕ) (q : Char) (value rest : String)
    → (code q == quote) ≡ true
    → is_clear quote rest ≡ true
    → read_quoted quote none (append (doubled quote value) (String.◌∷◌ q rest)) ≡ some (value, rest)
unfolding doubled
read_quoted-doubled quote q String.[] rest e h =
    ap (read_quoted quote none) (nil-append (String.◌∷◌ q rest))
    ∙ one quote q rest e
    ∙ ended quote q rest h
read_quoted-doubled quote q (String.◌∷◌ c s) rest e h =
    let rec = read_quoted-doubled quote q s rest e h in
    elim (Bool-cases (code c == quote)) [
      | inl b ↦ rw b (
          ap (read_quoted quote none) (
            cons-append c (String.◌∷◌ c (doubled quote s)) (String.◌∷◌ q rest)
            ∙ ap (String.◌∷◌ c) (cons-append c (doubled quote s) (String.◌∷◌ q rest)))
          ∙ twice quote c _ b
          ∙ ap (prefix c) rec)
      | inr b ↦ rw b (
          ap (read_quoted quote none) (cons-append c (doubled quote s) (String.◌∷◌ q rest))
          ∙ plain quote c _ b
          ∙ ap (prefix c) rec)
    ]

wrapped :
    (q : Char) (text rest : String)
    → append (append (String.◌∷◌ q "") (append text (append (String.◌∷◌ q "") ""))) rest
      ≡ String.◌∷◌ q (append text (String.◌∷◌ q rest))
wrapped q text rest =
    let single = λ (t : String). cons-append q "" t ∙ ap (String.◌∷◌ q) (nil-append t) in
    ap (λ t. append t rest)
      (single (append text (append (String.◌∷◌ q "") ""))
        ∙ ap (λ t. String.◌∷◌ q (append text t)) (single ""))
    ∙ cons-append q (append text (String.◌∷◌ q "")) rest
    ∙ ap (String.◌∷◌ q) (append_assoc text (String.◌∷◌ q "") rest ∙ ap (append text) (single rest))

-- A quoted text from its opening quote.
abbrev pub read_opened : ℕ → String → Option (String × String)
read_opened quote String.[] = none
read_opened quote (String.◌∷◌ c s) = if code c == quote then read_quoted quote none s else none

-- An identifier or a literal that stands in a statement is read back as exactly the text that was
-- quoted, whatever it holds (quotes, semicolons, blanks), and what is left is exactly the rest of
-- the statement, if that does not begin with the quote: no text breaks out of its quotes.
pub read_opened-quote :
    (value rest : String)
    → is_clear b'"' rest ≡ true
    → is_clear 39 rest ≡ true
    → (read_opened b'"' (append (quote_identifier value) rest) ≡ some (value, rest))
      × (read_opened 39 (append (quote_literal value) rest) ≡ some (value, rest))
unfolding quote_identifier quote_literal
read_opened-quote value rest h k = (
  ap (read_opened b'"') (wrapped "\"" (doubled b'"' value) rest)
      ∙ read_quoted-doubled b'"' "\"" value rest refl h,
  ap (read_opened 39) (wrapped "'" (doubled 39 value) rest)
      ∙ read_quoted-doubled 39 "'" value rest refl k,
)
