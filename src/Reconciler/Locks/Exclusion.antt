-- ===== src/Reconciler/Locks/Exclusion.antt =====
-- No two calls on one graph run at once in reconciler.rs.
use connector_supabase.Common.{
  ℕ, some, ◌≡◌, ◌↔◌, inl, inr, sym, ap, ◌∙◌, Bytes, ◌==◌, ==_iff, Bool-cases,
}
use mathlib.Core.Option.{some-injective}
use connector_supabase.Reconciler.Locks.{
  Locks, Call, idle, reads, misses, waits, runs, set, Calls, Turn, turn, Interleaved, start, later,
}
use connector_supabase.Reconciler.Locks.Moves.{Knows, Clash, Sound, Kept, Move-Kept}
use connector_supabase.Reconciler.Store.{lookup}

record Inv (s : Calls) : Type 0 where
  sound : Sound s.locks
  knows : (i : ℕ) → Knows s.locks (s.calls i)
  unique : (i j : ℕ) → Clash (s.calls i) (s.calls j) → i ≡ j

Clash-sym : (x y : Call) → Clash x y → Clash y x
Clash-sym idle y c = absurd c
Clash-sym (reads g) y c = absurd c
Clash-sym (misses g) y c = absurd c
Clash-sym (waits g mutex) y c = absurd c
Clash-sym (runs g mutex) idle c = c
Clash-sym (runs g mutex) (reads h) c = c
Clash-sym (runs g mutex) (misses h) c = c
Clash-sym (runs g mutex) (waits h other) c = c
Clash-sym (runs g mutex) (runs h other) c = sym c

module _ (s : Calls) (inv : Inv s) (i : ℕ) {locks : Locks} {call : Call}
    (kept : Kept s.locks (s.calls i) locks call) where
  knows_after : (j : ℕ) → Knows locks (set s.calls i call j)
  knows_after j = elim (Bool-cases (i == j)) [
    | inl e ↦ rw e (kept.own)
    | inr e ↦
        rw e (kept.other (s.calls j) (inv.knows j) (λ c. cc (e, (==_iff i j).1 (inv.unique i j c))))
  ]

  unique_after : (j k : ℕ) → Clash (set s.calls i call j) (set s.calls i call k) → j ≡ k
  unique_after j k = elim (Bool-cases (i == j)) [
    | inl e ↦ elim (Bool-cases (i == k)) [
      | inl e' ↦ λ c. sym ((==_iff i j).0 e) ∙ (==_iff i k).0 e'
      | inr e' ↦ rw (e, e') (λ c. absurd (kept.alone (s.calls k) (inv.knows k) c))
    ]
    | inr e ↦ elim (Bool-cases (i == k)) [
      | inl e' ↦
          rw (e, e')
            (λ c. absurd (kept.alone (s.calls j) (inv.knows j) (Clash-sym (s.calls j) call c)))
      | inr e' ↦ rw (e, e') (inv.unique j k)
    ]
  ]

Turn-Inv : {s t : Calls} → Turn s t → Inv s → Inv t
Turn-Inv {s} (turn i move) inv =
    let kept = Move-Kept move inv.sound (inv.knows i) in
    record {
      sound = kept.sound;
      knows = knows_after s inv i kept;
      unique = unique_after s inv i kept;
    }

Interleaved-Inv : {s : Calls} → Interleaved s → Inv s
Interleaved-Inv start = record {
  sound = record { below = λ g mutex e. cc; apart = λ g h mutex p q. cc };
  knows = λ i. tt;
  unique = λ i j c. absurd c;
}
Interleaved-Inv (later run move) = Turn-Inv move (Interleaved-Inv run)

-- The call has the mutex for the graph.
abbrev pub Has : Bytes → ℕ → Call → Type 0
Has g mutex (waits h other) = (g ≡ h) × (mutex ≡ other)
Has g mutex (runs h other) = (g ≡ h) × (mutex ≡ other)
Has g mutex _ = ⊥

abbrev pub IsRunning : Call → Type 0
IsRunning (runs g mutex) = Unit
IsRunning _ = ⊥

Has-lookup :
    (locks : Locks) (g : Bytes) (mutex : ℕ) (x : Call)
    → Knows locks x
    → Has g mutex x
    → lookup g locks.graph_locks ≡ some mutex
Has-lookup locks g mutex idle k h = absurd h
Has-lookup locks g mutex (reads k') k h = absurd h
Has-lookup locks g mutex (misses k') k h = absurd h
Has-lookup locks g mutex (waits k' m) k h = rw (h.0, h.1) k
Has-lookup locks g mutex (runs k' m) k h = rw (h.0, h.1) (k.0)

both_run :
    (g h : Bytes) (mutex other : ℕ) (x y : Call)
    → Has g mutex x
    → Has h other y
    → mutex ≡ other
    → IsRunning x
    → IsRunning y
    → Clash x y
both_run g h mutex other idle y p q e r r' = absurd r
both_run g h mutex other (reads k) y p q e r r' = absurd r
both_run g h mutex other (misses k) y p q e r r' = absurd r
both_run g h mutex other (waits k m) y p q e r r' = absurd r
both_run g h mutex other (runs k m) idle p q e r r' = absurd r'
both_run g h mutex other (runs k m) (reads l) p q e r r' = absurd r'
both_run g h mutex other (runs k m) (misses l) p q e r r' = absurd r'
both_run g h mutex other (runs k m) (waits l n) p q e r r' = absurd r'
both_run g h mutex other (runs k m) (runs l n) p q e r r' = sym p.1 ∙ e ∙ q.1

-- However the calls interleave, in the map as in the mutexes, two calls that have a mutex have the
-- same one exactly when they are on one graph, and of the calls on one graph at most one runs.
pub Interleaved-exclusive :
    (s : Calls) (i j : ℕ) (g h : Bytes) (mutex other : ℕ)
    → Interleaved s
    → Has g mutex (s.calls i)
    → Has h other (s.calls j)
    → ((g ≡ h) ↔ (mutex ≡ other)) × (g ≡ h → IsRunning (s.calls i) → IsRunning (s.calls j) → i ≡ j)
Interleaved-exclusive s i j g h mutex other run p q =
    let inv = Interleaved-Inv run in
    let a = Has-lookup s.locks g mutex (s.calls i) (inv.knows i) p in
    let b = Has-lookup s.locks h other (s.calls j) (inv.knows j) q in
    let one =
      λ (e : g ≡ h). some-injective _ _ (sym a ∙ ap (λ k. lookup k s.locks.graph_locks) e ∙ b) in
    (
      (one, λ e. inv.sound.apart g h mutex a (b ∙ ap some (sym e))),
      λ e r r'. inv.unique i j (both_run g h mutex other (s.calls i) (s.calls j) p q (one e) r r'),
    )
