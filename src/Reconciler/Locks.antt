-- ===== src/Reconciler/Locks.antt =====
-- The lock of a graph in reconciler.rs: `graph_lock`, and the calls of accept, retire and
-- reconcile_once that take it, interleaved in any order.
mod Tests
pub mod Moves
pub mod Exclusion
use connector_supabase.Common.{
  ℕ, suc, Bool, true, false, Option, none, some, List, [], ◌≡◌, Bytes, ◌==◌, if◌then◌else◌,
}
use connector_supabase.Reconciler.Store.{lookup, store}

-- `graph_locks`, with the mutexes that were allocated so far and whether each is locked.
pub record Locks : Type 0 where
  pub graph_locks : List (Bytes × ℕ)
  pub allocated : ℕ
  pub locked : ℕ → Bool

-- Where a call is: before it, under the read lock of the map, past a miss, with the mutex of its
-- graph, and with the guard of it.
pub data Call : Type 0 where
  idle : Call
  reads misses : (graph_id : Bytes) → Call
  waits runs : (graph_id : Bytes) → (mutex : ℕ) → Call

abbrev pub set : {A : Type 0} → (ℕ → A) → ℕ → A → ℕ → A
set f i a j = if i == j then a else f j

-- The read lock of the map: `get`.
abbrev pub found : Bytes → Option ℕ → Call
found graph_id none = misses graph_id
found graph_id (some mutex) = waits graph_id mutex

-- The write lock of the map: `entry(…).or_insert_with(…)`.
abbrev pub or_insert : Bytes → Locks → Option ℕ → ℕ × Locks
or_insert graph_id locks (some mutex) = (mutex, locks)
or_insert graph_id locks none = (
  locks.allocated,
  record locks {
    graph_locks = store graph_id locks.allocated locks.graph_locks;
    allocated = suc locks.allocated;
  },
)

abbrev pub inserted : Bytes → Locks → ℕ × Locks
inserted graph_id locks = or_insert graph_id locks (lookup graph_id locks.graph_locks)

abbrev pub set_locked : ℕ → Bool → Locks → Locks
set_locked mutex b locks = record locks { locked = set locks.locked mutex b }

-- What one call does next. A mutex gives its guard where it is not locked, and the guard is dropped
-- when the call returns.
pub data Move (locks : Locks) : Call → Locks → Call → Type 0 where
  begin : (graph_id : Bytes) → Move locks idle locks (reads graph_id)
  read :
      (graph_id : Bytes)
      → Move locks (reads graph_id) locks (found graph_id (lookup graph_id locks.graph_locks))
  write :
      (graph_id : Bytes)
      → Move locks
          (misses graph_id)
          (inserted graph_id locks).1
          (waits graph_id (inserted graph_id locks).0)
  lock :
      (graph_id : Bytes) (mutex : ℕ)
      → locks.locked mutex ≡ false
      → Move locks (waits graph_id mutex) (set_locked mutex true locks) (runs graph_id mutex)
  return :
      (graph_id : Bytes) (mutex : ℕ)
      → Move locks (runs graph_id mutex) (set_locked mutex false locks) idle

pub record Calls : Type 0 where
  pub locks : Locks
  pub calls : ℕ → Call

-- One call moves.
pub data Turn (s : Calls) : Calls → Type 0 where
  turn :
      (i : ℕ) {locks : Locks} {call : Call}
      → Move s.locks (s.calls i) locks call
      → Turn s (record { locks = locks; calls = set s.calls i call })

-- A new controller.
abbrev pub started : Calls
started = record {
  locks = record { graph_locks = []; allocated = 0; locked = λ mutex. false };
  calls = λ i. idle;
}

pub data Interleaved : Calls → Type 0 where
  start : Interleaved started
  later : {s t : Calls} → Interleaved s → Turn s t → Interleaved t
