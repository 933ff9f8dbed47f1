-- ===== src/Common/Digests.antt =====
-- Byte strings that a hasher is fed with: what can be read back from them, and their digests.
use Prim.Native.Nat.{ℕ, ◌+◌, ◌*◌, ◌<◌}
use mathlib.Core.Path.{◌≡◌, refl, sym, ap, ◌∙◌}
use mathlib.Core.Logic.{◌≢◌, ◌⊎◌, inl, inr}
use mathlib.Core.List.{[], ◌∷◌, ◌++◌}
use native.Mathlib.Omega.{arith}
use connector_supabase.Common.Decimal.{u64_limit}
use connector_supabase.Common.Lists.{Bytes, length, bytes_eq, bytes_eq_iff}
use connector_supabase.Common.Tests.{Bool-cases}
use connector_supabase.Common.Words.{to_be_bytes}

-- Two byte strings with one digest.
abbrev pub Collision : (Bytes → Bytes) → Type 0
Collision hash = (x : Bytes) × (y : Bytes) × (x ≢ y) × (hash x ≡ hash y)

-- Equal digests come from equal byte strings, or show a collision.
pub digest_cases : (hash : Bytes → Bytes) (x y : Bytes) → hash x ≡ hash y → (x ≡ y) ⊎ Collision hash
digest_cases hash x y e = elim (Bool-cases (bytes_eq x y)) [
  | inl same ↦ inl ((bytes_eq_iff x y).0 same)
  | inr other ↦ inr (x, y, (λ p. cc (other, (bytes_eq_iff x y).1 p)), e)
]

-- The number whose digits to base 256 follow a value.
abbrev from_digits : ℕ → Bytes → ℕ
from_digits value [] = value
from_digits value (b ∷ bytes) = from_digits (value * 256 + b) bytes

from_digits-to_be_bytes : (n : ℕ) → n < u64_limit → from_digits 0 (to_be_bytes n) ≡ n
unfolding to_be_bytes
from_digits-to_be_bytes n h = omega arith

pub to_be_bytes-injective :
    (m n : ℕ) → m < u64_limit → n < u64_limit → to_be_bytes m ≡ to_be_bytes n → m ≡ n
to_be_bytes-injective m n h k e =
    sym (from_digits-to_be_bytes m h) ∙ ap (from_digits 0) e ∙ from_digits-to_be_bytes n k

pub length-to_be_bytes : (m n : ℕ) → length (to_be_bytes m) ≡ length (to_be_bytes n)
unfolding to_be_bytes
length-to_be_bytes m n = refl

abbrev tail : Bytes → Bytes
tail [] = []
tail (x ∷ xs) = xs

-- Where two texts begin with parts of one length, the parts agree and so do the rests.
pub append-injective :
    (a b : Bytes) {c d : Bytes} → length a ≡ length b → (a ++ c) ≡ (b ++ d) → (a ≡ b) × (c ≡ d)
append-injective [] [] h e = (refl, e)
append-injective [] (y ∷ b) h e = absurd (omega (arith, h))
append-injective (x ∷ a) [] h e = absurd (omega (arith, h))
append-injective (x ∷ a) (y ∷ b) h e =
    let (p, q) = append-injective a b (omega (arith, h)) (ap tail e) in (cc p, q)
