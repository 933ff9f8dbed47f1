-- ===== src/Reconciler/Levels.antt =====
-- The level of a graph, its generation, sequence and digest, as the calls of reconciler.rs move it.
use connector_supabase.Common.{
  ℕ, ◌≤◌, ◌<◌, Bool, true, false, Option, none, some, String, List, [], ◌∷◌, ◌≡◌, ◌⊎◌, inl, inr,
  refl, sym, subst, ◌∙◌, ap, arith, Bytes, bytes_eq, bytes_eq_iff, Bool-cases,
}
use connector_supabase.Reconciler.{Checkpoint, ReportSnapshot, World}
use connector_supabase.Reconciler.Fence.{retained}
use connector_supabase.Reconciler.Keeps.{IsStable}
use connector_supabase.Reconciler.Retired.{IsFiled}
use connector_supabase.Reconciler.Store.{lookup, lookup-store, remove, store, replace_file}

abbrev pub level_of : Checkpoint → ℕ × (ℕ × Bytes)
level_of c = (c.generation, (c.sequence, c.desired_digest))

-- The level stays, or that of a graph that is not retired gives way to one of a later sequence and no
-- earlier generation; and a retired graph stays retired.
abbrev pub IsNext : Checkpoint → Checkpoint → Type 0
IsNext c d =
    ((level_of d ≡ level_of c)
      ⊎ ((c.retired ≡ false) × ((c.sequence < d.sequence) × (c.generation ≤ d.generation))))
    × (c.retired ≡ true → d.retired ≡ true)

-- The same of what is retained of a graph: a checkpoint is never lost.
abbrev pub Advances : Option Checkpoint → Option Checkpoint → Type 0
Advances none after = Unit
Advances (some c) none = ⊥
Advances (some c) (some d) = IsNext c d

Advances-refl : (o : Option Checkpoint) → Advances o o
Advances-refl none = tt
Advances-refl (some c) = (inl refl, λ r. r)

contrary : {A : Type 0} (b : Bool) → b ≡ true → b ≡ false → A
contrary b t f = cc

IsNext-trans : (c d e : Checkpoint) → IsNext c d → IsNext d e → IsNext c e
IsNext-trans c d e (inl same, r) (inl same', r') = (inl (same' ∙ same), λ x. r' (r x))
IsNext-trans c d e (inl same, r) (inr (live, (s, g)), r') = (
  inr (
    elim (Bool-cases c.retired) [ inl t ↦ contrary d.retired (r t) live | inr f ↦ f ],
    (
      omega (arith, ap (λ (l : ℕ × (ℕ × Bytes)). l.1.0) same, s),
      omega (arith, ap (λ (l : ℕ × (ℕ × Bytes)). l.0) same, g),
    ),
  ),
  λ x. r' (r x),
)
IsNext-trans c d e (inr (live, (s, g)), r) (inl same, r') = (
  inr (
    live,
    (
      omega (arith, ap (λ (l : ℕ × (ℕ × Bytes)). l.1.0) same, s),
      omega (arith, ap (λ (l : ℕ × (ℕ × Bytes)). l.0) same, g),
    ),
  ),
  λ x. r' (r x),
)
IsNext-trans c d e (inr (live, (s, g)), r) (inr (live', (s', g')), r') =
    (inr (live, (omega (arith, s, s'), omega (arith, g, g'))), λ x. r' (r x))

pub Advances-trans : (a b c : Option Checkpoint) → Advances a b → Advances b c → Advances a c
Advances-trans none b c h k = tt
Advances-trans (some x) none c h k = elim h [ ]
Advances-trans (some x) (some y) none h k = k
Advances-trans (some x) (some y) (some z) h k = IsNext-trans x y z h k

lookup-remove :
    {V : Type 0} (g key : Bytes) (entries : List (Bytes × V))
    → bytes_eq g key ≡ false
    → lookup g (remove key entries) ≡ lookup g entries
lookup-remove g key [] h = refl
lookup-remove g key ((k, v) ∷ entries) h = elim (Bool-cases (bytes_eq key k)) [
  | inl e ↦
      let own = (bytes_eq_iff key k).0 e in
      rw (e, subst (λ x. bytes_eq g x ≡ false) own h) (lookup-remove g key entries h)
  | inr e ↦ rw (e, lookup-remove g key entries h) refl
]

pub lookup-store_other :
    {V : Type 0} (g key : Bytes) (value : V) (entries : List (Bytes × V))
    → bytes_eq g key ≡ false
    → lookup g (store key value entries) ≡ lookup g entries
lookup-store_other g key value entries h = rw h (lookup-remove g key entries h)

-- The world holds each checkpoint under its own graph, and has moved on from the first one.
pub record Moved (first world : World) : Type 0 where
  pub filed : (g : Bytes) → IsFiled g world
  pub advances : (g : Bytes) → Advances (retained g first) (retained g world)

-- A checkpoint that may be written.
abbrev pub Follows : World → Checkpoint → Type 0
Follows first c = Advances (retained c.graph_id first) (some c)

pub Moved-refl : (world : World) → ((g : Bytes) → IsFiled g world) → Moved world world
Moved-refl world filed = record { filed = filed; advances = λ g. Advances-refl (retained g world) }

-- What a graph retains after a write.
pub retained-replace_file :
    (P : Option Checkpoint → Type 0) (g : Bytes) (c : Checkpoint) (world : World)
    → (g ≡ c.graph_id → P (some c))
    → P (retained g world)
    → P (retained g (replace_file c world))
retained-replace_file P g c world same other = elim (Bool-cases (bytes_eq g c.graph_id)) [
  | inl e ↦
      let own = (bytes_eq_iff g c.graph_id).0 e in
      subst P
        (sym (
          subst (λ k. lookup k (store c.graph_id c world.checkpoints) ≡ some c) (sym own)
            (lookup-store c.graph_id c world.checkpoints)))
        (same own)
  | inr e ↦ subst P (sym (lookup-store_other g c.graph_id c world.checkpoints e)) other
]

pub own_graph :
    (c d : Checkpoint) → ◌≡◌ {A = Option Checkpoint} (some c) (some d) → d.graph_id ≡ c.graph_id
own_graph c d e =
    ap (λ (o : Option Checkpoint). elim o [ none ↦ c.graph_id | some x ↦ x.graph_id ]) (sym e)

Moved-replace_file :
    (first world : World) (c : Checkpoint)
    → Follows first c
    → Moved first world
    → Moved first (replace_file c world)
Moved-replace_file first world c follows moved = record {
  filed = λ g.
      retained-replace_file (λ o. (d : Checkpoint) → o ≡ some d → d.graph_id ≡ g) g c world
        (λ own d e. own_graph c d e ∙ sym own) (moved.filed g);
  advances = λ g.
      retained-replace_file (Advances (retained g first)) g c world
        (λ own. subst (λ k. Advances (retained k first) (some c)) (sym own) follows)
        (moved.advances g);
}

-- The level does not depend on the report and the plan.
with_any_report :
    (o : Option Checkpoint) (c : Checkpoint) (r : Option ReportSnapshot)
    → Advances o (some c)
    → Advances o (some (record c { last_report = r }))
with_any_report none c r h = tt
with_any_report (some d) c r h = h

with_any_plan :
    (o : Option Checkpoint) (c : Checkpoint) (path : Option String)
    → Advances o (some c)
    → Advances o (some (record c { current_plan = path }))
with_any_plan none c path h = tt
with_any_plan (some d) c path h = h

pub Moved-IsStable : (first : World) → IsStable (Moved first) (Follows first)
Moved-IsStable first = record {
  effect = λ e world o h. record { filed = h.filed; advances = h.advances };
  write = λ c world s h. Moved-replace_file first world c s h;
  report = λ c r s. with_any_report (retained c.graph_id first) c r s;
  plan = λ c path s. with_any_plan (retained c.graph_id first) c path s;
}

-- What a graph retains may be written again.
pub Moved-Follows :
    (first world : World) (g : Bytes) (c : Checkpoint)
    → Moved first world
    → retained g world ≡ some c
    → Follows first c
Moved-Follows first world g c moved h =
    subst (λ k. Advances (retained k first) (some c)) (sym (moved.filed g c h))
      (subst (Advances (retained g first)) h (moved.advances g))
