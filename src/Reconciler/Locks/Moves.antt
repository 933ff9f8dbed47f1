-- ===== src/Reconciler/Locks/Moves.antt =====
-- What one move of a call of reconciler.rs keeps of the locks and of the other calls.
use connector_supabase.Common.{
  ℕ, ◌<◌, Bool, true, false, Option, none, some, List, ◌≡◌, ◌⊎◌, inl, inr, refl, sym, ap, ◌∙◌,
  subst, arith, Bytes, ◌==◌, ==_iff, bytes_eq, bytes_eq_iff, Bool-cases,
}
use mathlib.Core.Option.{some-injective}
use connector_supabase.Reconciler.Levels.{lookup-store_other}
use connector_supabase.Reconciler.Locks.{
  Locks, Call, idle, reads, misses, waits, runs, set, found, or_insert, set_locked, Move, begin,
  read, write, lock, return,
}
use connector_supabase.Reconciler.Store.{lookup, lookup-store, store}

-- What the map and the mutexes say of a call.
abbrev pub Knows : Locks → Call → Type 0
Knows locks (waits g mutex) = lookup g locks.graph_locks ≡ some mutex
Knows locks (runs g mutex) = (lookup g locks.graph_locks ≡ some mutex) × (locks.locked mutex ≡ true)
Knows locks _ = Unit

-- Two calls that run with one mutex.
abbrev pub Clash : Call → Call → Type 0
Clash (runs g mutex) (runs h other) = mutex ≡ other
Clash _ _ = ⊥

-- Each mutex in the map was allocated, for one graph.
pub record Sound (locks : Locks) : Type 0 where
  pub below :
      (g : Bytes) (mutex : ℕ) → lookup g locks.graph_locks ≡ some mutex → mutex < locks.allocated
  pub apart :
      (g h : Bytes) (mutex : ℕ)
      → lookup g locks.graph_locks ≡ some mutex
      → lookup h locks.graph_locks ≡ some mutex
      → g ≡ h

-- What a move keeps: of the call, and of another one.
pub record Kept (locks : Locks) (call : Call) (locks' : Locks) (call' : Call) : Type 0 where
  pub sound : Sound locks'
  pub own : Knows locks' call'
  pub other : (x : Call) → Knows locks x → (Clash call x → ⊥) → Knows locks' x
  pub alone : (x : Call) → Knows locks x → Clash call' x → ⊥

absent : {A : Type 0} (o : Option ℕ) (mutex : ℕ) → o ≡ none → o ≡ some mutex → A
absent o mutex e h = cc

-- What is found after an insertion was inserted, or was there before.
lookup-stored :
    (h g : Bytes) (value mutex : ℕ) (entries : List (Bytes × ℕ))
    → lookup h (store g value entries) ≡ some mutex
    → ((h ≡ g) × (mutex ≡ value)) ⊎ (lookup h entries ≡ some mutex)
lookup-stored h g value mutex entries e = elim (Bool-cases (bytes_eq h g)) [
  | inl same ↦
      let own = (bytes_eq_iff h g).0 same in
      inl (
        own,
        some-injective _ _ (
            sym e
            ∙ subst (λ k. lookup k (store g value entries) ≡ some value) (sym own)
                (lookup-store g value entries)),
      )
  | inr differs ↦ inr (sym (lookup-store_other h g value entries differs) ∙ e)
]

-- A graph that was missed changes nothing for another one.
lookup-kept :
    (h g : Bytes) (value mutex : ℕ) (entries : List (Bytes × ℕ))
    → lookup g entries ≡ none
    → lookup h entries ≡ some mutex
    → lookup h (store g value entries) ≡ some mutex
lookup-kept h g value mutex entries missed e = elim (Bool-cases (bytes_eq h g)) [
  | inl same ↦
      absent (lookup h entries) mutex
        (ap (λ k. lookup k entries) ((bytes_eq_iff h g).0 same) ∙ missed) e
  | inr differs ↦ lookup-store_other h g value entries differs ∙ e
]

too_new : {A : Type 0} (m n : ℕ) → m ≡ n → m < n → A
too_new m n e l = absurd (omega (arith, e, l))

found-Kept :
    (locks : Locks) (g : Bytes) (o : Option ℕ)
    → lookup g locks.graph_locks ≡ o
    → Sound locks
    → Kept locks (reads g) locks (found g o)
found-Kept locks g none e s = record { sound = s; own = tt; other = λ x h c. h; alone = λ x h c. c }
found-Kept locks g (some mutex) e s = record {
  sound = s;
  own = e;
  other = λ x h c. h;
  alone = λ x h c. c;
}

Sound-insert :
    (locks : Locks) (g : Bytes)
    → lookup g locks.graph_locks ≡ none
    → Sound locks
    → Sound (or_insert g locks none).1
Sound-insert locks g e s = record {
  below = λ h mutex p. elim (lookup-stored h g locks.allocated mutex locks.graph_locks p) [
    | inl new ↦ omega (arith, new.1)
    | inr old ↦ omega (arith, s.below h mutex old)
  ];
  apart = λ h k mutex p q. elim (lookup-stored h g locks.allocated mutex locks.graph_locks p) [
    | inl new ↦ elim (lookup-stored k g locks.allocated mutex locks.graph_locks q) [
      | inl new' ↦ new.0 ∙ sym new'.0
      | inr old' ↦ too_new mutex locks.allocated new.1 (s.below k mutex old')
    ]
    | inr old ↦ elim (lookup-stored k g locks.allocated mutex locks.graph_locks q) [
      | inl new' ↦ too_new mutex locks.allocated new'.1 (s.below h mutex old)
      | inr old' ↦ s.apart h k mutex old old'
    ]
  ];
}

Knows-insert :
    (locks : Locks) (g : Bytes)
    → lookup g locks.graph_locks ≡ none
    → (x : Call) → Knows locks x
    → Knows (or_insert g locks none).1 x
Knows-insert locks g e idle h = tt
Knows-insert locks g e (reads k) h = tt
Knows-insert locks g e (misses k) h = tt
Knows-insert locks g e (waits k mutex) h =
    lookup-kept k g locks.allocated mutex locks.graph_locks e h
Knows-insert locks g e (runs k mutex) h =
    (lookup-kept k g locks.allocated mutex locks.graph_locks e h.0, h.1)

or_insert-Kept :
    (locks : Locks) (g : Bytes) (o : Option ℕ)
    → lookup g locks.graph_locks ≡ o
    → Sound locks
    → Kept locks (misses g) (or_insert g locks o).1 (waits g (or_insert g locks o).0)
or_insert-Kept locks g (some mutex) e s = record {
  sound = s;
  own = e;
  other = λ x h c. h;
  alone = λ x h c. c;
}
or_insert-Kept locks g none e s = record {
  sound = Sound-insert locks g e s;
  own = lookup-store g locks.allocated locks.graph_locks;
  other = λ x h c. Knows-insert locks g e x h;
  alone = λ x h c. c;
}

set_same : (f : ℕ → Bool) (i : ℕ) (b : Bool) → set f i b i ≡ b
set_same f i b = ground arith

set-true : (f : ℕ → Bool) (i j : ℕ) → f j ≡ true → set f i true j ≡ true
set-true f i j h = ground (arith, h)

set_other : (f : ℕ → Bool) (i j : ℕ) (b : Bool) → (i ≡ j → ⊥) → f j ≡ true → set f i b j ≡ true
set_other f i j b d h = elim (Bool-cases (i == j)) [
  | inl e ↦ absurd (d ((==_iff i j).0 e))
  | inr e ↦ rw e h
]

Knows-lock :
    (locks : Locks) (mutex : ℕ) (x : Call) → Knows locks x → Knows (set_locked mutex true locks) x
Knows-lock locks mutex idle h = tt
Knows-lock locks mutex (reads k) h = tt
Knows-lock locks mutex (misses k) h = tt
Knows-lock locks mutex (waits k m) h = h
Knows-lock locks mutex (runs k m) h = (h.0, set-true locks.locked mutex m h.1)

Knows-return :
    (locks : Locks) (g : Bytes) (mutex : ℕ) (x : Call)
    → Knows locks x
    → (Clash (runs g mutex) x → ⊥)
    → Knows (set_locked mutex false locks) x
Knows-return locks g mutex idle h c = tt
Knows-return locks g mutex (reads k) h c = tt
Knows-return locks g mutex (misses k) h c = tt
Knows-return locks g mutex (waits k m) h c = h
Knows-return locks g mutex (runs k m) h c = (h.0, set_other locks.locked mutex m false c h.1)

free-alone :
    (locks : Locks) (g : Bytes) (mutex : ℕ) (x : Call)
    → locks.locked mutex ≡ false
    → Knows locks x
    → Clash (runs g mutex) x
    → ⊥
free-alone locks g mutex idle f h c = c
free-alone locks g mutex (reads k) f h c = c
free-alone locks g mutex (misses k) f h c = c
free-alone locks g mutex (waits k m) f h c = c
free-alone locks g mutex (runs k m) f h c = absurd (cc (f, h.1, ap locks.locked c))

pub Move-Kept :
    {locks locks' : Locks} {call call' : Call}
    → Move locks call locks' call'
    → Sound locks
    → Knows locks call
    → Kept locks call locks' call'
Move-Kept (begin g) s k = record { sound = s; own = tt; other = λ x h c. h; alone = λ x h c. c }
Move-Kept {locks} (read g) s k = found-Kept locks g (lookup g locks.graph_locks) refl s
Move-Kept {locks} (write g) s k = or_insert-Kept locks g (lookup g locks.graph_locks) refl s
Move-Kept {locks} (lock g mutex free) s k = record {
  sound = record { below = s.below; apart = s.apart };
  own = (k, set_same locks.locked mutex true);
  other = λ x h c. Knows-lock locks mutex x h;
  alone = λ x h c. free-alone locks g mutex x free h c;
}
Move-Kept {locks} (return g mutex) s k = record {
  sound = record { below = s.below; apart = s.apart };
  own = tt;
  other = λ x h c. Knows-return locks g mutex x h c;
  alone = λ x h c. c;
}
