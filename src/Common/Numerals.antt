-- ===== src/Common/Numerals.antt =====
-- `str::parse::<u64>` against the plain reading of a decimal numeral.
use Prim.Native.Char.{code}
use Prim.Native.Nat.{ℕ, ◌+◌, ◌-◌, ◌*◌, ◌≤◌, ◌<◌}
use Prim.Native.String.{String}
use mathlib.Core.Bool.{◌&&◌, not}
use mathlib.Core.Logic.{inl, inr}
use mathlib.Core.Option.{Option, none, some}
use mathlib.Core.Path.{◌≡◌, refl, sym}
use native.Mathlib.Omega.{arith}
use connector_supabase.Common.Decimal.{u64_limit, parse_digits, parse_u64}
use connector_supabase.Common.Tests.{ltb, ◌==◌, if◌then◌else◌, Bool-cases, ltb→lt}
use connector_supabase.Common.Text.{is_empty, is_digit}

-- The number that digits denote after a value, of any size.
abbrev pub denoted : ℕ → String → Option ℕ
denoted value String.[] = some value
denoted value (String.◌∷◌ c s) =
    if is_digit (code c) then denoted (value * 10 + (code c - 48)) s else none

-- Numbers below the limit alone.
abbrev pub below : Option ℕ → Option ℕ
below none = none
below (some n) = if ltb n u64_limit then some n else none

-- A numeral, which one plus sign may precede.
abbrev pub numeral : String → Option ℕ
numeral String.[] = none
numeral (String.◌∷◌ c s) =
    if code c == b'+' && not (is_empty s) then denoted 0 s else denoted 0 (String.◌∷◌ c s)

-- What is over the limit stays over it.
too_large : (value : ℕ) (s : String) → u64_limit ≤ value → below (denoted value s) ≡ none
too_large value String.[] h = ground arith
too_large value (String.◌∷◌ c s) h = elim (Bool-cases (is_digit (code c))) [
  | inl e ↦ rw e (too_large (value * 10 + (code c - 48)) s (omega arith))
  | inr e ↦ rw e refl
]

-- A value that reached the limit is refused at once, and its numeral is too large.
refused :
    (next : ℕ) (s : String) (r : Option ℕ)
    → (next < u64_limit → r ≡ below (denoted next s))
    → (if ltb next u64_limit then r else none) ≡ below (denoted next s)
refused next s r h = elim (Bool-cases (ltb next u64_limit)) [
  | inl e ↦ rw e (h (ltb→lt next u64_limit e))
  | inr e ↦ rw e (sym (too_large next s (ground arith)))
]

parse_digits-denoted :
    (value : ℕ) (s : String) → value < u64_limit → parse_digits value s ≡ below (denoted value s)
unfolding parse_digits
parse_digits-denoted value String.[] h = ground arith
parse_digits-denoted value (String.◌∷◌ c s) h = elim (Bool-cases (is_digit (code c))) [
  | inl e ↦ rw e (
      refused (value * 10 + (code c - 48)) s (parse_digits (value * 10 + (code c - 48)) s)
        (λ l. parse_digits-denoted (value * 10 + (code c - 48)) s l))
  | inr e ↦ rw e refl
]

-- parse_u64 reads exactly the decimal numerals, which one plus sign before the digits may precede,
-- of the numbers below 2^64.
pub parse_u64-numeral : (s : String) → parse_u64 s ≡ below (numeral s)
unfolding parse_u64
parse_u64-numeral String.[] = refl
parse_u64-numeral (String.◌∷◌ c s) = elim (Bool-cases (code c == b'+' && not (is_empty s))) [
  | inl e ↦ rw e (parse_digits-denoted 0 s (omega arith))
  | inr e ↦ rw e (parse_digits-denoted 0 (String.◌∷◌ c s) (omega arith))
]
