-- ===== src/Reconciler/Locks/Tests.antt =====
-- Two calls on one graph that both miss the lock.
use connector_supabase.Common.{ℕ, [], ◌∷◌, ◌≡◌, ◌↔◌, refl, Bytes}
use connector_supabase.Reconciler.Locks.Exclusion.{IsRunning, Interleaved-exclusive}
use connector_supabase.Reconciler.Locks.{
  Calls, waits, runs, turn, begin, read, write, lock, return, Interleaved, start, later,
}

abbrev graph_id : Bytes
graph_id = 3 ∷ []

-- Both calls find no lock before one of them inserts it; then the first one runs, and the second
-- one waits.
abbrev contended : (s : Calls) × Interleaved s
contended = (
  _,
  later
      (later
        (later
          (later
            (later (later (later start (turn 0 (begin graph_id))) (turn 1 (begin graph_id)))
              (turn 0 (read graph_id)))
            (turn 1 (read graph_id)))
          (turn 0 (write graph_id)))
        (turn 1 (write graph_id)))
      (turn 0 (lock graph_id 0 refl)),
)

second_waits : contended.0.calls 1 ≡ waits graph_id 0
second_waits = refl

Interleaved-exclusive_example :
    ((graph_id ≡ graph_id) ↔ (◌≡◌ {A = ℕ} 0 0))
    × (graph_id ≡ graph_id
        → IsRunning (contended.0.calls 0)
        → IsRunning (contended.0.calls 1)
        → ◌≡◌ {A = ℕ} 0 1)
Interleaved-exclusive_example =
    Interleaved-exclusive contended.0 0 1 graph_id graph_id 0 0 contended.1 (refl, refl)
      (refl, refl)

-- When the first one returns, the second one runs.
abbrev handed : (s : Calls) × Interleaved s
handed = (_, later (later contended.1 (turn 0 (return graph_id 0))) (turn 1 (lock graph_id 0 refl)))

second_runs : handed.0.calls 1 ≡ runs graph_id 0
second_runs = refl
