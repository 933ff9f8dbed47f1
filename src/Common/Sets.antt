-- ===== src/Common/Sets.antt =====
-- Rust's `BTreeSet<String>`: the texts in ascending order, each once.
use Prim.Native.String.{String}
use mathlib.Core.Path.{◌≡◌, refl}
use mathlib.Core.Logic.{◌↔◌, inl, inr}
use mathlib.Core.Bool.{Bool, true, false, ◌&&◌, ◌||◌}
use mathlib.Core.List.{List, [], ◌∷◌}
use native.Mathlib.Omega.{arith}
use text.Mathlib.Text.{◌==◌ as str_eq}
use text.Mathlib.TextEquality.{eq_iff}
use text.Mathlib.TextPositions.{eq_refl}
use connector_supabase.Common.Tests.{if◌then◌else◌, Bool-cases}
use connector_supabase.Common.Text.{str_lt}
use connector_supabase.Common.Text.Order.{str_lt-total}

abbrev pub StringSet : Type 0
StringSet = List String

unfoldable pub insert : String → StringSet → StringSet
insert x [] = x ∷ []
insert x (y ∷ s) = if str_eq x y then y ∷ s else if str_lt x y then x ∷ y ∷ s else y ∷ insert x s

abbrev pub contains : String → StringSet → Bool
contains x [] = false
contains x (y ∷ s) = str_eq x y || contains x s

-- `iter.collect::<BTreeSet<_>>()`.
unfoldable pub collect : List String → StringSet
unfolding insert
collect [] = []
collect (x ∷ xs) = insert x (collect xs)

-- `==` on sets, and on vectors of texts.
abbrev pub set_eq : StringSet → StringSet → Bool
set_eq [] [] = true
set_eq (x ∷ s) (y ∷ t) = str_eq x y && set_eq s t
set_eq _ _ = false

-- The order that the tree keeps.
abbrev pub IsOrdered : StringSet → Type 0
IsOrdered [] = Unit
IsOrdered (x ∷ []) = Unit
IsOrdered (x ∷ y ∷ s) = (str_lt x y ≡ true) × IsOrdered (y ∷ s)

pub set_eq→eq : (s t : StringSet) → set_eq s t ≡ true → s ≡ t
set_eq→eq [] [] h = refl
set_eq→eq (x ∷ s) (y ∷ t) h = ground (arith, eq_iff x y, set_eq→eq s t)
set_eq→eq [] (y ∷ t) h = cc
set_eq→eq (x ∷ s) [] h = cc

pub set_eq_refl : (s : StringSet) → set_eq s s ≡ true
set_eq_refl [] = refl
set_eq_refl (x ∷ s) = ground (arith, eq_refl x, set_eq_refl s)

pub set_eq_iff : (s t : StringSet) → (set_eq s t ≡ true) ↔ (s ≡ t)
set_eq_iff s t = (set_eq→eq s t, λ e. rw e (set_eq_refl t))

pub contains-insert :
    (x y : String) (s : StringSet) → contains x (insert y s) ≡ (str_eq x y || contains x s)
unfolding insert
contains-insert x y [] = ground arith
contains-insert x y (z ∷ s) =
    ground (arith, contains-insert x y s, eq_iff x y, eq_iff y z, eq_iff x z)

pub contains-collect : (x : String) (l : List String) → contains x (collect l) ≡ contains x l
unfolding collect
contains-collect x [] = refl
contains-collect x (y ∷ l) = rw (contains-insert x y (collect l), contains-collect x l)

-- An insertion below the head leaves the head, or a text above it, in front.
insert-IsOrdered_below :
    (x y : String) (s : StringSet)
    → str_lt y x ≡ true
    → IsOrdered (y ∷ s)
    → IsOrdered (y ∷ insert x s)
unfolding insert
insert-IsOrdered_below x y [] l h = (l, tt)
insert-IsOrdered_below x y (z ∷ s) l h = elim (Bool-cases (str_eq x z)) [
  | inl e ↦ rw e h
  | inr e ↦ elim (Bool-cases (str_lt x z)) [
    | inl b ↦ rw (e, b) (l, (b, h.1))
    | inr b ↦ rw (e, b) (h.0, insert-IsOrdered_below x z s (str_lt-total x z e b) h.1)
  ]
]

pub insert-IsOrdered : (x : String) (s : StringSet) → IsOrdered s → IsOrdered (insert x s)
unfolding insert
insert-IsOrdered x [] h = tt
insert-IsOrdered x (y ∷ s) h = elim (Bool-cases (str_eq x y)) [
  | inl e ↦ rw e h
  | inr e ↦ elim (Bool-cases (str_lt x y)) [
    | inl b ↦ rw (e, b) (b, h)
    | inr b ↦ rw (e, b) (insert-IsOrdered_below x y s (str_lt-total x y e b) h)
  ]
]

pub collect-IsOrdered : (l : List String) → IsOrdered (collect l)
unfolding collect
collect-IsOrdered [] = tt
collect-IsOrdered (x ∷ l) = insert-IsOrdered x (collect l) (collect-IsOrdered l)

IsOrdered-tail : (x : String) (s : StringSet) → IsOrdered (x ∷ s) → IsOrdered s
IsOrdered-tail x [] h = tt
IsOrdered-tail x (y ∷ s) h = h.1

str_lt-ne : (x y : String) → str_lt x y ≡ true → str_eq x y ≡ false
str_lt-ne x y h = ground arith

insert_below : (x : String) (s : StringSet) → IsOrdered (x ∷ s) → insert x s ≡ x ∷ s
unfolding insert
insert_below x [] h = refl
insert_below x (y ∷ s) h = rw (str_lt-ne x y h.0, h.0)

-- A set that is listed and collected again is itself.
pub collect_of_IsOrdered : (s : StringSet) → IsOrdered s → collect s ≡ s
unfolding collect
collect_of_IsOrdered [] h = refl
collect_of_IsOrdered (x ∷ s) h =
    rw (collect_of_IsOrdered s (IsOrdered-tail x s h)) (insert_below x s h)
