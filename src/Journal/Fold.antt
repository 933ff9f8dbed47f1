-- ===== src/Journal/Fold.antt =====
-- `JournalSnapshot::apply` of journal.rs, and the fold of a sequence of events.
use connector_supabase.Common.{ℕ, not, List, [], ◌∷◌, str_eq}
use connector_supabase.Common.Maps
use connector_supabase.Journal.{
  Binding, JournalSnapshot, JournalEvent, started, succeeded, failed, plan_created, plan_stale,
  binding_established, operation_started, operation_succeeded, operation_failed, graph_released,
}

-- `JournalSnapshot { tail, ..Default::default() }`.
abbrev pub empty : ℕ → JournalSnapshot
empty tail = record { tail = tail; bindings = []; operations = [] }

unfoldable pub apply : JournalSnapshot → JournalEvent → JournalSnapshot
apply self (binding_established binding) = record self {
  bindings = Maps.insert binding.resource_id binding self.bindings;
}
apply self (operation_started plan_id operation_id idempotency_key) = record self {
  operations = Maps.insert operation_id (started plan_id) self.operations;
}
apply self (operation_succeeded plan_id operation_id observed_digest recovered) = record self {
  operations = Maps.insert operation_id (succeeded plan_id observed_digest) self.operations;
}
apply self (operation_failed plan_id operation_id code detail) = record self {
  operations = Maps.insert operation_id (failed plan_id code detail) self.operations;
}
apply self (graph_released graph_id) = record self {
  bindings =
      Maps.retain (λ (binding : Binding). not (str_eq binding.graph_id graph_id)) self.bindings;
}
apply self
      (plan_created plan_id graph_id generation slice_sequence desired_digest observed_digest) =
    self
apply self (plan_stale plan_id reason) = self

-- The events in the order of the journal.
unfoldable pub apply_all : JournalSnapshot → List JournalEvent → JournalSnapshot
apply_all self [] = self
apply_all self (event ∷ events) = apply_all (apply self event) events
