-- ===== src/Reconciler/Apply.antt =====
-- The apply phase of `Reconciler::reconcile_once` in reconciler.rs: one operation of a persisted plan.
use connector_supabase.Common.{
  ℕ, Bool, true, false, ◌&&◌, ◌||◌, not, Option, none, some, String, List, [], ◌∷◌, Bytes, Message,
  Result, ok, err, lit, shown, map_err, ok_or, format, str_eq, ◌==◌, if◌then◌else◌,
}
use connector_supabase.Common.Decimal.{to_string, parse_u64}
use connector_supabase.Common.Maps
use connector_supabase.External.{External}
use connector_supabase.Journal.{
  Binding, JournalSnapshot, OperationState, started, binding_established, operation_failed,
}
use connector_supabase.Plan.{
  ExecutablePlan, PlannedOperation, Operation, establish_binding, ensure_metadata, ensure_schema,
  apply_migration, configure_api,
}
use connector_supabase.Plan.Build.{desired_digest_text}
use connector_supabase.Reconciler.{
  ReconcileError, state, Checkpoint, SliceReport, Diagnostic, target_observed, target_applied,
  plan_loaded, Outside,
}
use connector_supabase.Reconciler.Delivery.{publish}
use connector_supabase.Reconciler.Monad.{Exec, ◌>>=◌, ◌>>◌, pure, lift, call}
use connector_supabase.Reconciler.Receipts.{
  load_journal, append, append_started, append_succeeded, stale_plan,
}
use connector_supabase.Reconciler.Reports.{
  diagnostic, failed_report, reconciling_report, operation_report,
}
use connector_supabase.Reconciler.Store.{schedule, no_delay}
use connector_supabase.Slice.{DesiredSlice}
use connector_supabase.Target.{
  ObservedTarget, TargetError, unavailable, provider, ProviderDiagnostic, ApplyResult, applied,
  stale,
}
use connector_supabase.Target.Digest.{observed_digest}
use connector_supabase.Target.Satisfied.{operation_satisfied}

-- `matches!(operation_state, Some(OperationState::Started { plan_id }) if plan_id == …)`.
abbrev pub is_started_by : String → Option OperationState → Bool
is_started_by plan_id (some (started id)) = str_eq id plan_id
is_started_by plan_id _ = false

abbrev pub is_some : Option OperationState → Bool
is_some none = false
is_some (some receipt) = true

-- The display of a target error.
abbrev pub target_message : TargetError → Message
target_message (unavailable detail) = lit "Supabase target unavailable: " ∷ shown detail ∷ []
target_message (provider diagnostic) = shown diagnostic.detail ∷ []

abbrev pub target_state : TargetError → ReconcileError
target_state error = state (target_message error)

abbrev pub parsed_tail : Outside → String → Result ℕ ReconcileError
parsed_tail outside text = ok_or (parse_u64 text) (state (shown (outside.parse_error text) ∷ []))

abbrev pub first_operation : List PlannedOperation → Result PlannedOperation ReconcileError
first_operation [] = err (state (lit "persisted plan has no operation" ∷ []))
first_operation (operation ∷ operations) = ok operation

-- `component_scopes.first().and_then(|hash| hex::decode(hash).ok())`.
abbrev pub first_scope : External → List String → Option Bytes
first_scope env [] = none
first_scope env (scope ∷ scopes) = env.hex_decode scope

abbrev pub journal_advanced : Diagnostic
unfolding diagnostic
journal_advanced =
    diagnostic "supabase.plan.stale"
      (lit "operation journal advanced after this plan was reviewed; a fresh plan is required" ∷ [])
      none (some "No target mutation was attempted.") none

abbrev pub target_changed : Diagnostic
unfolding diagnostic
target_changed =
    diagnostic "supabase.plan.stale"
      (lit "target observation changed before apply; the exact reviewed plan was rejected" ∷ [])
      none (some "A new plan will be derived from current target truth.") none

abbrev pub target_unavailable : String → Diagnostic
unfolding diagnostic
target_unavailable detail =
    diagnostic "supabase.target.unavailable" (shown detail ∷ []) none
      (some "The connector will retry from current target truth.") none

abbrev pub provider_failed : External → PlannedOperation → ProviderDiagnostic → Diagnostic
unfolding diagnostic
provider_failed env operation failure =
    diagnostic failure.code (shown failure.detail ∷ []) (first_scope env operation.component_scopes)
      failure.help none

module _ (env : External) where
  unfoldable pub validate_plan_identity : ExecutablePlan → DesiredSlice → Result Unit ReconcileError
  validate_plan_identity plan desired =
      if not (str_eq plan.graph_id (env.hex_encode desired.graph_id))
        || (not (str_eq plan.generation (to_string desired.generation))
            || (not (str_eq plan.slice_sequence (to_string desired.sequence))
                || not (str_eq plan.desired_digest (desired_digest_text env desired))))
      then err
          (state (lit "persisted executable plan does not describe current desired level" ∷ []))
      else ok tt

module _ (env : External) (outside : Outside) (graph_id : Bytes) (desired : DesiredSlice)
    (checkpoint : Checkpoint) where
  -- The plan is done with: the report is published, and the next pass is scheduled.
  abbrev pub conclude : SliceReport → Exec Unit
  conclude report = do
    publish outside (record checkpoint { current_plan = none }) report none
    schedule graph_id desired.sequence no_delay

  module _ (journal : JournalSnapshot) (plan : ExecutablePlan) (operation : PlannedOperation) where
    abbrev pub start_unless : Option OperationState → ℕ → Exec ℕ
    start_unless none tail = append_started outside tail plan operation
    start_unless (some receipt) tail = pure tail

    unfoldable pub establish : Option OperationState → Binding → Exec Unit
    establish receipt binding = do
      tail ← start_unless receipt journal.tail
      tail' ← append outside tail (binding_established binding)
      append_succeeded outside tail' plan operation plan.observed_digest (is_some receipt)
      conclude (operation_report desired operation plan)

    -- The answer of the target to an operation.
    unfoldable pub settle : Option OperationState → ℕ → Result ApplyResult TargetError → Exec Unit
    settle receipt tail (ok (applied digest)) = do
      append_succeeded outside tail plan operation digest (is_some receipt)
      conclude (operation_report desired operation plan)
    settle receipt tail (ok (stale digest)) = do
      snapshot ← load_journal outside
      stale_plan outside snapshot plan (format ("target-changed:" ∷ digest ∷ []))
      conclude (reconciling_report desired target_changed)
    settle receipt tail (err (provider failure)) = do
      snapshot ← load_journal outside
      append outside snapshot.tail
          (operation_failed plan.plan_id operation.id failure.code failure.detail)
      publish outside (record checkpoint { current_plan = none })
          (failed_report desired (provider_failed env operation failure ∷ [])) none
      pure tt
    settle receipt tail (err (unavailable detail)) = do
      publish outside checkpoint (reconciling_report desired (target_unavailable detail)) none
      schedule graph_id desired.sequence 2000

    unfoldable pub mutate : Option OperationState → Exec Unit
    mutate receipt = do
      tail ← start_unless receipt journal.tail
      answer ←
          call (λ trace. outside.apply trace desired plan operation) (target_applied plan operation)
      settle receipt tail answer

    -- A started operation whose postcondition holds is completed without another mutation.
    unfoldable pub complete : ObservedTarget → Exec Unit
    complete current = do
      append_succeeded outside journal.tail plan operation (observed_digest env current) true
      conclude (operation_report desired operation plan)

    unfoldable pub apply_to_target : Option OperationState → Exec Unit
    apply_to_target receipt = do
      answer ← call (λ trace. outside.observe trace desired) target_observed
      current ← lift (map_err target_state answer)
      if is_started_by plan.plan_id receipt && operation_satisfied operation.operation current
          then complete current
          else mutate receipt

    abbrev pub dispatch : Option OperationState → Operation → Exec Unit
    dispatch receipt (establish_binding binding) = establish receipt binding
    dispatch receipt ensure_metadata = apply_to_target receipt
    dispatch receipt (ensure_schema resource_id schema) = apply_to_target receipt
    dispatch receipt (apply_migration resource_id schema migration inputs) = apply_to_target receipt
    dispatch receipt (configure_api exposed_schemas policies) = apply_to_target receipt

    unfoldable pub reject_stale : Exec Unit
    reject_stale = do
      stale_plan outside journal plan "journal-fence-changed"
      conclude (reconciling_report desired journal_advanced)

    -- The fence: the journal is where the plan left it, or the plan has started the operation.
    unfoldable pub apply_fenced : ℕ → Option OperationState → Exec Unit
    apply_fenced expected_tail receipt =
        if not (journal.tail == expected_tail) && not (is_started_by plan.plan_id receipt)
        then reject_stale
        else dispatch receipt operation.operation

  unfoldable pub apply_plan : JournalSnapshot → String → Exec Unit
  apply_plan journal path = do
    loaded ← call (λ trace. outside.load_plan trace path) (plan_loaded path)
    plan ← lift (map_err (λ error. state (shown error ∷ [])) loaded)
    lift (validate_plan_identity env plan desired)
    operation ← lift (first_operation plan.operations)
    expected_tail ← lift (parsed_tail outside plan.journal_tail)
    apply_fenced journal plan operation expected_tail (Maps.get operation.id journal.operations)
