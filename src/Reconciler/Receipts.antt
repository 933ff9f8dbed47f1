-- ===== src/Reconciler/Receipts.antt =====
-- The journal calls of reconciler.rs: `journal_snapshot`, `journal_append`, `append_started`,
-- `append_succeeded` and `stale_plan`.
use connector_supabase.Common.{ℕ, Bool, String, [], ◌∷◌, shown, map_err}
use connector_supabase.Journal.{
  JournalSnapshot, JournalEvent, plan_stale, operation_started, operation_succeeded,
}
use connector_supabase.Journal.Stream.{JournalFault}
use connector_supabase.Plan.{ExecutablePlan, PlannedOperation}
use connector_supabase.Reconciler.{ReconcileError, state, journal_loaded, journal_appended, Outside}
use connector_supabase.Reconciler.Monad.{Exec, ◌>>=◌, ◌>>◌, pure, lift, call}

module _ (outside : Outside) where
  abbrev pub fault_state : JournalFault → ReconcileError
  fault_state fault = state (shown (outside.fault_text fault) ∷ [])

  unfoldable pub load_journal : Exec JournalSnapshot
  load_journal = do
    answer ← call outside.journal_load journal_loaded
    lift (map_err fault_state answer)

  unfoldable pub append : ℕ → JournalEvent → Exec ℕ
  append tail event = do
    answer ← call (λ trace. outside.journal_append trace tail event) (journal_appended tail event)
    lift (map_err fault_state answer)

  unfoldable pub append_started : ℕ → ExecutablePlan → PlannedOperation → Exec ℕ
  unfolding append
  append_started tail plan operation =
      append tail (operation_started plan.plan_id operation.id operation.id)

  unfoldable pub append_succeeded : ℕ → ExecutablePlan → PlannedOperation → String → Bool → Exec ℕ
  unfolding append
  append_succeeded tail plan operation observed_digest recovered =
      append tail (operation_succeeded plan.plan_id operation.id observed_digest recovered)

  unfoldable pub stale_plan : JournalSnapshot → ExecutablePlan → String → Exec Unit
  unfolding append
  stale_plan snapshot plan reason = do
    append snapshot.tail (plan_stale plan.plan_id reason)
    pure tt
