-- ===== src/Common/Decimal.antt =====
-- `u64::to_string` and `str::parse::<u64>`.
use Prim.Native.Char.{Char, code}
use Prim.Native.Nat.{ℕ, zero, suc, ◌+◌, ◌-◌, ◌*◌, ◌/◌, ◌%◌, ◌^◌, ◌≤◌, ◌<◌}
use Prim.Native.String.{String}
use mathlib.Core.Bool.{true, ◌&&◌, not}
use mathlib.Core.Logic.{inl, inr}
use mathlib.Core.Option.{Option, none, some}
use mathlib.Core.Path.{◌≡◌, refl, ap, ◌∙◌}
use native.Mathlib.Omega.{arith}
use connector_supabase.Common.Tests.{ltb, ◌==◌, if◌then◌else◌, Bool-cases, ltb→lt}
use connector_supabase.Common.Text.{is_empty, is_digit}

abbrev pub u64_limit : ℕ
u64_limit = 2 ^ 64

digit : ℕ → Char
digit d =
    if d == 0
    then "0"
    else if d == 1
    then "1"
    else if d == 2
    then "2"
    else if d == 3
    then "3"
    else if d == 4
    then "4"
    else if d == 5
    then "5"
    else if d == 6
    then "6"
    else if d == 7
    then "7"
    else if d == 8
    then "8"
    else "9"

show_from : ℕ → ℕ → String → String
show_from zero n rest = rest
show_from (suc f) n rest =
    let more = show_from f (n / 10) (String.◌∷◌ (digit (n % 10)) rest) in
    if ltb n 10 then String.◌∷◌ (digit n) rest else more

-- The fuel is above the number, which falls in every round.
unfoldable pub to_string : ℕ → String
unfolding show_from digit
to_string n = show_from (suc n) n String.[]

unfoldable pub parse_digits : ℕ → String → Option ℕ
parse_digits value String.[] = some value
parse_digits value (String.◌∷◌ c s) =
    let next = value * 10 + (code c - 48) in
    let rest = parse_digits next s in if is_digit (code c) && ltb next u64_limit then rest else none

-- One leading `+` is accepted when digits follow; an empty text and an overflow are refused.
unfoldable pub parse_u64 : String → Option ℕ
unfolding parse_digits
parse_u64 String.[] = none
parse_u64 (String.◌∷◌ c s) =
    if code c == b'+' && not (is_empty s) then parse_digits 0 s else parse_digits 0 (String.◌∷◌ c s)

code-digit : (d : ℕ) → d < 10 → code (digit d) ≡ 48 + d
unfolding digit
code-digit zero h = refl
code-digit (suc zero) h = refl
code-digit (suc (suc zero)) h = refl
code-digit (suc (suc (suc zero))) h = refl
code-digit (suc (suc (suc (suc zero)))) h = refl
code-digit (suc (suc (suc (suc (suc zero))))) h = refl
code-digit (suc (suc (suc (suc (suc (suc zero)))))) h = refl
code-digit (suc (suc (suc (suc (suc (suc (suc zero))))))) h = refl
code-digit (suc (suc (suc (suc (suc (suc (suc (suc zero)))))))) h = refl
code-digit (suc (suc (suc (suc (suc (suc (suc (suc (suc zero))))))))) h = refl
code-digit (suc (suc (suc (suc (suc (suc (suc (suc (suc (suc n)))))))))) h = absurd (omega arith)

is_digit-add : (d : ℕ) → d < 10 → is_digit (48 + d) ≡ true
is_digit-add d h = grind arith

lt→ltb : (a b : ℕ) → a < b → ltb a b ≡ true
lt→ltb a b h = ground arith

add-sub_zero_code : (v d : ℕ) → v + (48 + d - 48) ≡ v + d
add-sub_zero_code v d = omega arith

parse_digits-digit :
    (v d : ℕ) (s : String)
    → d < 10
    → v * 10 + d < u64_limit
    → parse_digits v (String.◌∷◌ (digit d) s) ≡ parse_digits (v * 10 + d) s
unfolding parse_digits
parse_digits-digit v d s h l = rw (
  code-digit d h,
  is_digit-add d h,
  add-sub_zero_code (v * 10) d,
  lt→ltb (v * 10 + d) u64_limit l,
)

-- Reading what was written goes on as if the number had been read already.
parse_digits-show_from :
    (f n : ℕ) (rest : String)
    → n < f
    → n < u64_limit
    → parse_digits 0 (show_from f n rest) ≡ parse_digits n rest
unfolding show_from
parse_digits-show_from zero n rest h l = absurd (omega arith)
parse_digits-show_from (suc f) n rest h l = elim (Bool-cases (ltb n 10)) [
  | inl small ↦ rw small (
      parse_digits-digit 0 n rest (ltb→lt n 10 small) (omega arith)
      ∙ ap (λ m. parse_digits m rest) (omega arith))
  | inr large ↦ rw large (
      parse_digits-show_from f (n / 10) (String.◌∷◌ (digit (n % 10)) rest) (ground arith)
        (omega arith)
      ∙ parse_digits-digit (n / 10) (n % 10) rest (omega arith) (omega arith)
      ∙ ap (λ m. parse_digits m rest) (omega arith))
]

abbrev BeginsWithDigit : String → Type 0
BeginsWithDigit String.[] = ⊥
BeginsWithDigit (String.◌∷◌ c s) = 48 ≤ code c

show_from-BeginsWithDigit : (f n : ℕ) (rest : String) → n < f → BeginsWithDigit (show_from f n rest)
unfolding show_from
show_from-BeginsWithDigit zero n rest h = absurd (omega arith)
show_from-BeginsWithDigit (suc f) n rest h = elim (Bool-cases (ltb n 10)) [
  | inl small ↦ rw (small, code-digit n (ltb→lt n 10 small)) (omega arith)
  | inr large ↦ rw large (show_from-BeginsWithDigit f (n / 10) _ (ground arith))
]

parse_u64-digits : (s : String) → BeginsWithDigit s → parse_u64 s ≡ parse_digits 0 s
unfolding parse_u64
parse_u64-digits String.[] h = absurd h
parse_u64-digits (String.◌∷◌ c s) h = ground arith

-- A `u64` that is written in decimal and read again is the same number.
pub parse_u64-to_string : (n : ℕ) → n < u64_limit → parse_u64 (to_string n) ≡ some n
unfolding to_string parse_digits
parse_u64-to_string n l =
    parse_u64-digits (show_from (suc n) n String.[])
      (show_from-BeginsWithDigit (suc n) n String.[] (omega arith))
    ∙ parse_digits-show_from (suc n) n String.[] (omega arith) l
