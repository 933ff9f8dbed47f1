-- ===== src/Common/Text.antt =====
-- The parts of Rust's `str` that the connector uses.
pub mod Order
pub mod Trim
use Prim.Native.Nat.{ℕ, ◌+◌, ◌-◌, ◌/◌, ◌%◌}
use Prim.Native.Char.{Char, code}
use Prim.Native.String.{String, compare}
use mathlib.Core.Path.{◌≡◌, refl}
use mathlib.Core.Bool.{Bool, true, false, ◌&&◌, ◌||◌, not}
use mathlib.Core.List.{List, [], ◌∷◌, ◌++◌, map}
use text.Mathlib.Text.{is_lt}
use native.Mathlib.Omega.{arith}
use connector_supabase.Common.Tests.{ltb, leb, ◌==◌, if◌then◌else◌}
use connector_supabase.Common.Lists.{Bytes}

-- The order of `str`: by bytes, which for UTF-8 is the order by code points.
abbrev pub str_lt : String → String → Bool
str_lt s t = is_lt (compare s t)

abbrev pub codes : String → List ℕ
codes String.[] = []
codes (String.◌∷◌ c s) = code c ∷ codes s

unfoldable pub encode_utf8 : ℕ → Bytes
encode_utf8 c =
    if ltb c 128
    then c ∷ []
    else if ltb c 2048
    then (192 + c / 64) ∷ (128 + c % 64) ∷ []
    else if ltb c 65536
    then (224 + c / 4096) ∷ (128 + c / 64 % 64) ∷ (128 + c % 64) ∷ []
    else (240 + c / 262144) ∷ (128 + c / 4096 % 64) ∷ (128 + c / 64 % 64) ∷ (128 + c % 64) ∷ []

-- `str::as_bytes`.
unfoldable pub as_bytes : String → Bytes
unfolding encode_utf8
as_bytes String.[] = []
as_bytes (String.◌∷◌ c s) = encode_utf8 (code c) ++ as_bytes s

abbrev pub is_empty : String → Bool
is_empty String.[] = true
is_empty (String.◌∷◌ c s) = false

abbrev pub is_lowercase : ℕ → Bool
is_lowercase b = leb b'a' b && leb b b'z'

abbrev pub is_uppercase : ℕ → Bool
is_uppercase b = leb b'A' b && leb b b'Z'

abbrev pub is_digit : ℕ → Bool
is_digit b = leb b'0' b && leb b b'9'

abbrev pub is_alphanumeric : ℕ → Bool
is_alphanumeric b = is_lowercase b || is_uppercase b || is_digit b

abbrev pub to_ascii_uppercase : ℕ → ℕ
to_ascii_uppercase b = if is_lowercase b then b - 32 else b

-- `char::is_whitespace`: the Unicode property White_Space.
unfoldable pub is_whitespace : ℕ → Bool
is_whitespace c =
    leb 9 c && leb c 13
    || c == 32
    || c == 133
    || c == 160
    || c == 5760
    || leb 8192 c && leb c 8202
    || c == 8232
    || c == 8233
    || c == 8239
    || c == 8287
    || c == 12288

trim_start : String → String
trim_start String.[] = String.[]
trim_start (String.◌∷◌ c s) =
    let rest = trim_start s in if is_whitespace (code c) then rest else String.◌∷◌ c s

trim_end : String → String
trim_end String.[] = String.[]
trim_end (String.◌∷◌ c s) =
    let rest = trim_end s in
    if is_empty rest && is_whitespace (code c) then String.[] else String.◌∷◌ c rest

-- `str::trim`.
unfoldable pub trim : String → String
unfolding trim_start trim_end is_whitespace
trim s = trim_end (trim_start s)

unfoldable pub push_char : Char → List String → List String
push_char c [] = (String.◌∷◌ c String.[]) ∷ []
push_char c (t ∷ ts) = String.◌∷◌ c t ∷ ts

-- `str::split` on a character predicate.
unfoldable pub split : (ℕ → Bool) → String → List String
unfolding push_char
split p String.[] = String.[] ∷ []
split p (String.◌∷◌ c s) = if p (code c) then String.[] ∷ split p s else push_char c (split p s)

-- `trim_end_matches` of one character.
unfoldable pub trim_end_matches : ℕ → String → String
trim_end_matches b String.[] = String.[]
trim_end_matches b (String.◌∷◌ c s) =
    let rest = trim_end_matches b s in
    if is_empty rest && code c == b then String.[] else String.◌∷◌ c rest
