-- ===== src/Common/Text/Order.antt =====
-- The order of texts is total: of two texts that differ, one is below the other.
use Prim.Native.Nat.{ℕ, Ordering, compare as compare_ℕ}
use Prim.Native.Char.{Char, code}
use Prim.Native.String.{String, then, compare}
use Prim.Native.String.compare.{nil-cons, cons-nil, cons-cons}
use mathlib.Core.Path.{◌≡◌, refl, ap, ap₂, sym, ◌∙◌}
use mathlib.Core.Bool.{true, false}
use native.Mathlib.Omega.{arith}
use text.Mathlib.Text.{◌==◌ as str_eq, is_lt}
use connector_supabase.Common.Text.{str_lt}

abbrev flip : Ordering → Ordering
flip Ordering.lt = Ordering.gt
flip Ordering.eq = Ordering.eq
flip Ordering.gt = Ordering.lt

flip-compare_ℕ : (m n : ℕ) → compare_ℕ m n ≡ flip (compare_ℕ n m)
flip-compare_ℕ m n = ground arith

flip-then : (o p : Ordering) → flip (then o p) ≡ then (flip o) (flip p)
flip-then Ordering.lt p = refl
flip-then Ordering.eq p = refl
flip-then Ordering.gt p = refl

compare-nil-cons : (d : Char) (t : String) → compare String.[] (String.◌∷◌ d t) ≡ Ordering.lt
compare-nil-cons d t = λ i. nil-cons d t i

compare-cons-nil : (c : Char) (s : String) → compare (String.◌∷◌ c s) String.[] ≡ Ordering.gt
compare-cons-nil c s = λ i. cons-nil c s i

compare-cons-cons :
    (c d : Char) (s t : String)
    → compare (String.◌∷◌ c s) (String.◌∷◌ d t) ≡ then (compare_ℕ (code c) (code d)) (compare s t)
compare-cons-cons c d s t = λ i. cons-cons c d s t i

flip-compare : (s t : String) → compare s t ≡ flip (compare t s)
flip-compare String.[] String.[] = refl
flip-compare String.[] (String.◌∷◌ d t) = cc (compare-nil-cons d t, ap flip (compare-cons-nil d t))
flip-compare (String.◌∷◌ c s) String.[] = cc (compare-cons-nil c s, ap flip (compare-nil-cons c s))
flip-compare (String.◌∷◌ c s) (String.◌∷◌ d t) =
    compare-cons-cons c d s t
    ∙ ap₂ then (flip-compare_ℕ (code c) (code d)) (flip-compare s t)
    ∙ sym (flip-then (compare_ℕ (code d) (code c)) (compare t s))
    ∙ ap flip (sym (compare-cons-cons d c t s))

pub str_lt-total : (s t : String) → str_eq s t ≡ false → str_lt s t ≡ false → str_lt t s ≡ true
str_lt-total s t e l = ground (arith, flip-compare s t)

-- The first code points decide, or leave it to the rest.
then-lt :
    (c d e : ℕ) (o p q : Ordering)
    → is_lt (then (compare_ℕ c d) o) ≡ true
    → is_lt (then (compare_ℕ d e) p) ≡ true
    → (is_lt o ≡ true → is_lt p ≡ true → is_lt q ≡ true)
    → is_lt (then (compare_ℕ c e) q) ≡ true
then-lt c d e o p q h k rest = ground (arith, rest)

pub str_lt_trans : (s t u : String) → str_lt s t ≡ true → str_lt t u ≡ true → str_lt s u ≡ true
str_lt_trans String.[] String.[] u h k = k
str_lt_trans String.[] (String.◌∷◌ d t) String.[] h k = cc (k, ap is_lt (compare-cons-nil d t))
str_lt_trans String.[] (String.◌∷◌ d t) (String.◌∷◌ e u) h k = ap is_lt (compare-nil-cons e u)
str_lt_trans (String.◌∷◌ c s) String.[] u h k = cc (h, ap is_lt (compare-cons-nil c s))
str_lt_trans (String.◌∷◌ c s) (String.◌∷◌ d t) String.[] h k =
    cc (k, ap is_lt (compare-cons-nil d t))
str_lt_trans (String.◌∷◌ c s) (String.◌∷◌ d t) (String.◌∷◌ e u) h k =
    let p = sym (ap is_lt (compare-cons-cons c d s t)) ∙ h in
    let q = sym (ap is_lt (compare-cons-cons d e t u)) ∙ k in
    ap is_lt (compare-cons-cons c e s u)
    ∙ then-lt (code c) (code d) (code e) (compare s t) (compare t u) (compare s u) p q
        (str_lt_trans s t u)
