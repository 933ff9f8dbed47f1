-- ===== src/Common/Words.antt =====
-- `u64::to_be_bytes` and `u64::saturating_add`.
use Prim.Native.Nat.{ℕ, zero, suc, ◌+◌, ◌-◌, ◌/◌, ◌%◌, ◌^◌, min}
use mathlib.Core.List.{[], ◌∷◌}
use connector_supabase.Common.Decimal.{u64_limit}
use connector_supabase.Common.Lists.{Bytes}

-- The last `k` digits to base 256, the most significant first.
abbrev pub be_digits : ℕ → ℕ → Bytes
be_digits zero n = []
be_digits (suc k) n = (n / 256 ^ k % 256) ∷ be_digits k n

unfoldable pub to_be_bytes : ℕ → Bytes
to_be_bytes n = be_digits 8 n

abbrev pub saturating_add : ℕ → ℕ → ℕ
saturating_add a b = min (a + b) (u64_limit - 1)
