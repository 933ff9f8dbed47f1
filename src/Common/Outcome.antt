-- ===== src/Common/Outcome.antt =====
-- Rust's `Result`, its `?` operator as a `do` block, and format strings that stay structured.
use Prim.Native.Nat.{ℕ}
use Prim.Native.String.{String}
use mathlib.Core.Path.{◌≡◌, refl, ap}
use mathlib.Core.Option.{Option, none, some}
use Prim.Native.String.{◌++◌ as append}
use mathlib.Core.List.{List, [], ◌∷◌}

pub data Result (A E : Type 0) : Type 0 where
  ok : A → Result A E
  err : E → Result A E

infixl 5 ◌>>=◌ ◌>>◌
abbrev pub ◌>>=◌ : {A B E : Type 0} → Result A E → (A → Result B E) → Result B E
ok a >>= f = f a
err e >>= f = err e

abbrev pub ◌>>◌ : {B E : Type 0} → Result (Unit {0}) E → Result B E → Result B E
m >> k = m >>= λ _. k

abbrev pub map_err : {A E F : Type 0} → (E → F) → Result A E → Result A F
map_err f (ok a) = ok a
map_err f (err e) = err (f e)

abbrev pub ok_or : {A E : Type 0} → Option A → E → Result A E
ok_or none e = err e
ok_or (some a) e = ok a

-- Inversion of a successful chain.
pub >>=-eq-ok :
    {X Y F : Type 0} {y : Y} (r : Result X F) (g : X → Result Y F)
    → (r >>= g) ≡ ok y
    → (x : X) × ((r ≡ ok x) × (g x ≡ ok y))
>>=-eq-ok (err e) g whole = cc
>>=-eq-ok (ok x) g whole = (x, (refl, whole))

-- The pieces of a `format!` call: literal text, `{}` of a text, `{:?}` of a text, `{}` of a number.
pub data Piece : Type 0 where
  lit : String → Piece
  shown : String → Piece
  debug : String → Piece
  number : ℕ → Piece

-- A formatted message that is kept as its pieces.
abbrev pub Message : Type 0
Message = List Piece

-- A `format!` call whose pieces are all plain texts: one after the other.
abbrev pub format : List String → String
format [] = ""
format (s ∷ l) = append s (format l)

abbrev value_or : {A E : Type 0} → A → Result A E → A
value_or d (ok a) = a
value_or d (err e) = d

pub ok-injective : {A E : Type 0} {a b : A} → ◌≡◌ {A = Result A E} (ok a) (ok b) → a ≡ b
ok-injective {a = a} e = ap (value_or a) e

pub map_err-eq-ok :
    {A E F : Type 0} (f : E → F) (r : Result A E) {x : A} → map_err f r ≡ ok x → r ≡ ok x
map_err-eq-ok f (ok y) h = ap ok (ok-injective h)
map_err-eq-ok f (err e) h = cc
