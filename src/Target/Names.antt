-- ===== src/Target/Names.antt =====
-- Which texts are names of exposed schemas: the schemas that context.rs admits, and what
-- `observe_with` of target.rs reads from the setting.
use Prim.Native.Char.{Char, code}
use connector_supabase.Common.{
  ℕ, Bool, true, false, ◌&&◌, not, String, List, [], ◌∷◌, ◌++◌, ◌≡◌, refl, arith, map, filter, All,
  all, Bytes, Bool-cases, inl, inr, if_keeps, str_eq, leb, length, if◌then◌else◌,
}
use connector_supabase.Common.Sets.{StringSet, insert, collect}
use connector_supabase.Common.Text.{
  as_bytes, encode_utf8, is_empty, is_whitespace, push_char, split, str_lt, trim,
}
use connector_supabase.Common.Text.Trim.{Each, IsUnspaced, Each-trim, trim-all, trim-trim}
use connector_supabase.Context.Ids.{first_byte, is_logical_byte, is_logical_id}
use connector_supabase.Target.Exposed.{is_comma, IsName}
use connector_supabase.Target.Observe.{parse_exposed}

abbrev unseparated : ℕ → Bool
unseparated c = not (is_comma c)

encoded :
    (n : ℕ) (bytes : Bytes)
    → all is_logical_byte (encode_utf8 n ++ bytes) ≡ true
    → (is_logical_byte n ≡ true) × (all is_logical_byte bytes ≡ true)
unfolding encode_utf8
encoded n bytes h = ground arith

plain : (n : ℕ) → is_logical_byte n ≡ true → (unseparated n ≡ true) × (not (is_whitespace n) ≡ true)
unfolding is_whitespace
plain n h = ground arith

both : (a b : Bool) → a ≡ true → b ≡ true → (a && b) ≡ true
both a b h k = ground arith

logical_text :
    (s : String) → all is_logical_byte (as_bytes s) ≡ true → Each unseparated s × IsUnspaced s
unfolding as_bytes
logical_text String.[] h = (refl, refl)
logical_text (String.◌∷◌ c s) h =
    let (own, rest) = encoded (code c) (as_bytes s) h in
    let (comma, blank) = plain (code c) own in
    let (commas, blanks) = logical_text s rest in (both _ _ comma commas, both _ _ blank blanks)

four : (a b c d : Bool) → (not a && b && c && d) ≡ true → (a ≡ false) × (d ≡ true)
four a b c d h = ground arith

-- A schema that a context may have is a name.
pub is_logical_id-IsName : (s : String) → is_logical_id s ≡ true → IsName s
unfolding is_logical_id
is_logical_id-IsName s h =
    let (filled, bytes) =
      four (is_empty s) (leb (length (as_bytes s)) 63) (first_byte _ (as_bytes s)) _ h in
    let (commas, blanks) = logical_text s bytes in (filled, (commas, trim-all s blanks))

All-push_char :
    (c : Char) (l : List String)
    → unseparated (code c) ≡ true
    → All (Each unseparated) l
    → All (Each unseparated) (push_char c l)
unfolding push_char
All-push_char c [] h k = (both _ _ h refl, tt)
All-push_char c (s ∷ l) h k = (both _ _ h k.0, k.1)

split-unseparated : (s : String) → All (Each unseparated) (split is_comma s)
unfolding split
split-unseparated String.[] = (refl, tt)
split-unseparated (String.◌∷◌ c s) = elim (Bool-cases (is_comma (code c))) [
  | inl e ↦ rw e (refl, split-unseparated s)
  | inr e ↦ rw e (All-push_char c (split is_comma s) (rw e refl) (split-unseparated s))
]

kept-names :
    (l : List String)
    → All (Each unseparated) l
    → All IsName (filter (λ value. not (is_empty value)) (map trim l))
kept-names [] h = tt
kept-names (s ∷ l) h = elim (Bool-cases (is_empty (trim s))) [
  | inl e ↦ rw e (kept-names l h.1)
  | inr e ↦ rw e ((e, (Each-trim unseparated s h.0, trim-trim s)), kept-names l h.1)
]

All-insert : (P : String → Type 0) (x : String) (s : StringSet) → P x → All P s → All P (insert x s)
unfolding insert
All-insert P x [] h k = (h, tt)
All-insert P x (y ∷ s) h k =
    if_keeps (All P) (str_eq x y) (y ∷ s) (if str_lt x y then x ∷ y ∷ s else y ∷ insert x s)
      (λ _. k)
      (λ _.
        if_keeps (All P) (str_lt x y) (x ∷ y ∷ s) (y ∷ insert x s) (λ _. (h, k))
          (λ _. (k.0, All-insert P x s h k.1)))

All-collect : (P : String → Type 0) (l : List String) → All P l → All P (collect l)
unfolding collect
All-collect P [] h = tt
All-collect P (x ∷ l) h = All-insert P x (collect l) h.0 (All-collect P l h.1)

-- What is read from the setting are names.
pub parse_exposed-names : (configured : String) → All IsName (parse_exposed configured)
unfolding parse_exposed
parse_exposed-names configured =
    All-collect IsName _ (kept-names (split is_comma configured) (split-unseparated configured))
