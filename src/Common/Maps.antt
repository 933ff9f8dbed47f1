-- ===== src/Common/Maps.antt =====
-- Rust's `BTreeMap<String, V>`: the entries in ascending order of their keys.
use Prim.Native.String.{String}
use mathlib.Core.Path.{◌≡◌, refl, subst, sym}
use mathlib.Core.Bool.{Bool, true, false}
use mathlib.Core.Option.{Option, none, some, some-injective}
use mathlib.Core.List.{List, [], ◌∷◌, map}
use native.Mathlib.Omega.{arith}
use text.Mathlib.Text.{◌==◌ as str_eq}
use text.Mathlib.TextEquality.{eq_iff}
use mathlib.Core.Logic.{inl, inr}
use connector_supabase.Common.Lists.{All}
use connector_supabase.Common.Tests.{if◌then◌else◌, if_keeps, Bool-cases}
use connector_supabase.Common.Text.{str_lt}
use connector_supabase.Common.Text.Order.{str_lt-total, str_lt_trans}

abbrev pub Map : Type 0 → Type 0
Map V = List (String × V)

module _ {V : Type 0} where
  abbrev pub get : String → Map V → Option V
  get k [] = none
  get k ((j, v) ∷ m) = if str_eq k j then some v else get k m

  abbrev pub contains_key : String → Map V → Bool
  contains_key k m = elim (get k m) [ none ↦ false | some _ ↦ true ]

  unfoldable pub insert : String → V → Map V → Map V
  insert k v [] = (k, v) ∷ []
  insert k v ((j, w) ∷ m) =
      if str_eq k j
      then (k, v) ∷ m
      else if str_lt k j
      then (k, v) ∷ (j, w) ∷ m
      else (j, w) ∷ insert k v m

  abbrev pub values : Map V → List V
  values = map (λ e. e.1)

  -- `BTreeMap::retain` with a test of the value.
  unfoldable pub retain : (V → Bool) → Map V → Map V
  retain p [] = []
  retain p ((k, v) ∷ m) = if p v then (k, v) ∷ retain p m else retain p m

  -- A write is seen at its key and nowhere else.
  pub get-insert :
      (k j : String) (v : V) (m : Map V)
      → get j (insert k v m) ≡ (if str_eq j k then some v else get j m)
  unfolding insert
  get-insert k j v [] = refl
  get-insert k j v ((i, w) ∷ m) =
      ground (arith, eq_iff k j, eq_iff j k, eq_iff k i, eq_iff j i, get-insert k j v m)

  pub insert-All :
      (P : V → Type 0) (k : String) (v : V) (m : Map V)
      → P v
      → All P (values m)
      → All P (values (insert k v m))
  unfolding insert
  insert-All P k v [] p h = (p, tt)
  insert-All P k v ((j, w) ∷ m) p h =
      if_keeps (λ l. All P (values l)) (str_eq k j) ((k, v) ∷ m) _ (λ _. (p, h.1))
        (λ _.
          if_keeps (λ l. All P (values l)) (str_lt k j) ((k, v) ∷ (j, w) ∷ m) _ (λ _. (p, h))
            (λ _. (h.0, insert-All P k v m p h.1)))

  pub get-All :
      (P : V → Type 0) (k : String) (m : Map V) {v : V} → All P (values m) → get k m ≡ some v → P v
  get-All P k [] h e = cc
  get-All P k ((j, w) ∷ m) h e = elim (Bool-cases (str_eq k j)) [
    | inl s ↦ subst P (some-injective w _ (rw s at e)) h.0
    | inr s ↦ get-All P k m h.1 (rw s at e)
  ]

  -- Every key is above a given one.
  abbrev pub AllAbove : String → Map V → Type 0
  AllAbove k = All (λ e. str_lt k e.0 ≡ true)

  -- The order that the tree keeps.
  abbrev pub IsSorted : Map V → Type 0
  IsSorted [] = Unit
  IsSorted ((k, v) ∷ m) = AllAbove k m × IsSorted m

  AllAbove-trans : (k j : String) (m : Map V) → str_lt k j ≡ true → AllAbove j m → AllAbove k m
  AllAbove-trans k j [] l h = tt
  AllAbove-trans k j ((i, w) ∷ m) l h = (str_lt_trans k j i l h.0, AllAbove-trans k j m l h.1)

  insert-AllAbove :
      (j k : String) (v : V) (m : Map V)
      → str_lt j k ≡ true
      → AllAbove j m
      → AllAbove j (insert k v m)
  unfolding insert
  insert-AllAbove j k v [] l h = (l, tt)
  insert-AllAbove j k v ((i, w) ∷ m) l h =
      if_keeps (AllAbove j) (str_eq k i) ((k, v) ∷ m) _ (λ _. (l, h.1))
        (λ _.
          if_keeps (AllAbove j) (str_lt k i) ((k, v) ∷ (i, w) ∷ m) _ (λ _. (l, h))
            (λ _. (h.0, insert-AllAbove j k v m l h.1)))

  pub insert-IsSorted : (k : String) (v : V) (m : Map V) → IsSorted m → IsSorted (insert k v m)
  unfolding insert
  insert-IsSorted k v [] h = (tt, tt)
  insert-IsSorted k v ((j, w) ∷ m) h =
      if_keeps IsSorted (str_eq k j) ((k, v) ∷ m) _
        (λ e. (subst (λ i. AllAbove i m) (sym ((eq_iff k j).0 e)) h.0, h.1))
        (λ e.
          if_keeps IsSorted (str_lt k j) ((k, v) ∷ (j, w) ∷ m) _
            (λ l. ((l, AllAbove-trans k j m l h.0), h))
            (λ l. (insert-AllAbove j k v m (str_lt-total k j e l) h.0, insert-IsSorted k v m h.1)))

  retain-AllAbove : (k : String) (p : V → Bool) (m : Map V) → AllAbove k m → AllAbove k (retain p m)
  unfolding retain
  retain-AllAbove k p [] h = tt
  retain-AllAbove k p ((j, w) ∷ m) h =
      if_keeps (AllAbove k) (p w) ((j, w) ∷ retain p m) _ (λ _. (h.0, retain-AllAbove k p m h.1))
        (λ _. retain-AllAbove k p m h.1)

  pub retain-IsSorted : (p : V → Bool) (m : Map V) → IsSorted m → IsSorted (retain p m)
  unfolding retain
  retain-IsSorted p [] h = tt
  retain-IsSorted p ((j, w) ∷ m) h =
      if_keeps IsSorted (p w) ((j, w) ∷ retain p m) _
        (λ _. (retain-AllAbove j p m h.0, retain-IsSorted p m h.1)) (λ _. retain-IsSorted p m h.1)

  -- A key below all others is not there.
  get_absent : (k : String) (m : Map V) → AllAbove k m → get k m ≡ none
  get_absent k [] h = refl
  get_absent k ((j, w) ∷ m) h = ground (arith, h.0, get_absent k m h.1)

  -- `Option::filter`.
  abbrev pub keep : (V → Bool) → Option V → Option V
  keep p none = none
  keep p (some v) = if p v then some v else none

  pub get-retain :
      (k : String) (p : V → Bool) (m : Map V) → IsSorted m → get k (retain p m) ≡ keep p (get k m)
  unfolding retain
  get-retain k p [] h = refl
  get-retain k p ((j, w) ∷ m) h = elim (Bool-cases (str_eq k j)) [
    | inl e ↦ elim (Bool-cases (p w)) [
      | inl q ↦ ground (arith, e, q)
      | inr q ↦
          rw (e, q)
            (get_absent k (retain p m)
              (retain-AllAbove k p m (subst (λ i. AllAbove i m) (sym ((eq_iff k j).0 e)) h.0)))
    ]
    | inr e ↦ elim (Bool-cases (p w)) [
      | inl q ↦ ground (arith, e, q, get-retain k p m h.1)
      | inr q ↦ ground (arith, e, q, get-retain k p m h.1)
    ]
  ]
