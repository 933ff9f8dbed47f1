-- ===== src/Common/Text/Trim.antt =====
-- What `str::trim` leaves.
use Prim.Native.Char.{Char, code}
use Prim.Native.String.{String}
use mathlib.Core.Bool.{Bool, true, false, ◌&&◌, not}
use mathlib.Core.Logic.{inl, inr}
use mathlib.Core.Path.{◌≡◌, refl, ap, ◌∙◌}
use native.Mathlib.Omega.{arith}
use Prim.Native.Nat.{ℕ}
use connector_supabase.Common.Lists.{all}
use connector_supabase.Common.Tests.{Bool-cases, if_keeps}
use connector_supabase.Common.Text.{codes, is_empty, is_whitespace, trim_start, trim_end, trim}

and_false : (b : Bool) → (b && false) ≡ false
and_false b = ground arith

trim_end-trim_end : (s : String) → trim_end (trim_end s) ≡ trim_end s
unfolding trim_end
trim_end-trim_end String.[] = refl
trim_end-trim_end (String.◌∷◌ c s) =
    elim (Bool-cases (is_empty (trim_end s) && is_whitespace (code c))) [
      | inl e ↦ rw e refl
      | inr e ↦ rw (e, trim_end-trim_end s, e) refl
    ]

-- A text that does not begin with a blank still does not.
led :
    (c : Char) (s : String)
    → is_whitespace (code c) ≡ false
    → trim_start (trim_end (String.◌∷◌ c s)) ≡ trim_end (String.◌∷◌ c s)
unfolding trim_start trim_end
led c s e = rw (e, and_false (is_empty (trim_end s)), e) refl

trim_start-trim : (s : String) → trim_start (trim_end (trim_start s)) ≡ trim_end (trim_start s)
unfolding trim_start trim_end
trim_start-trim String.[] = refl
trim_start-trim (String.◌∷◌ c s) = elim (Bool-cases (is_whitespace (code c))) [
  | inl e ↦ rw e (trim_start-trim s)
  | inr e ↦ rw e (led c s e)
]

pub trim-trim : (s : String) → trim (trim s) ≡ trim s
unfolding trim
trim-trim s = ap trim_end (trim_start-trim s) ∙ trim_end-trim_end (trim_start s)

abbrev pub IsUnspaced : String → Type 0
IsUnspaced s = all (λ c. not (is_whitespace c)) (codes s) ≡ true

first_unspaced : (b r : Bool) → (not b && r) ≡ true → (b ≡ false) × (r ≡ true)
first_unspaced b r h = ground arith

-- A text without blanks is left as it is.
trim_end-all : (s : String) → IsUnspaced s → trim_end s ≡ s
unfolding trim_end
trim_end-all String.[] h = refl
trim_end-all (String.◌∷◌ c s) h =
    let (own, rest) = first_unspaced (is_whitespace (code c)) _ h in
    rw (own, and_false (is_empty (trim_end s)), trim_end-all s rest) refl

pub trim-all : (s : String) → IsUnspaced s → trim s ≡ s
unfolding trim trim_start
trim-all String.[] h = trim_end-all String.[] h
trim-all (String.◌∷◌ c s) h =
    let (own, rest) = first_unspaced (is_whitespace (code c)) _ h in
    rw own (trim_end-all (String.◌∷◌ c s) h)

-- What holds of every character of a text holds of those that are left.
module _ (p : ℕ → Bool) where
  abbrev pub Each : String → Type 0
  Each s = all p (codes s) ≡ true

  first_of : (c : Char) (s : String) → Each (String.◌∷◌ c s) → (p (code c) ≡ true) × Each s
  first_of c s h = ground arith

  put_before : (c : Char) (s : String) → p (code c) ≡ true → Each s → Each (String.◌∷◌ c s)
  put_before c s h k = rw (h, k) refl

  Each-trim_end : (s : String) → Each s → Each (trim_end s)
  unfolding trim_end
  Each-trim_end String.[] h = h
  Each-trim_end (String.◌∷◌ c s) h =
      let (own, rest) = first_of c s h in
      if_keeps Each (is_empty (trim_end s) && is_whitespace (code c)) String.[]
        (String.◌∷◌ c (trim_end s)) (λ _. refl)
        (λ _. put_before c (trim_end s) own (Each-trim_end s rest))

  Each-trim_start : (s : String) → Each s → Each (trim_start s)
  unfolding trim_start
  Each-trim_start String.[] h = h
  Each-trim_start (String.◌∷◌ c s) h =
      if_keeps Each (is_whitespace (code c)) (trim_start s) (String.◌∷◌ c s)
        (λ _. Each-trim_start s (first_of c s h).1) (λ _. h)

  pub Each-trim : (s : String) → Each s → Each (trim s)
  unfolding trim
  Each-trim s h = Each-trim_end (trim_start s) (Each-trim_start s h)
