-- ===== src/Journal/History.antt =====
-- What the folded journal of journal.rs says of one resource, one operation and one graph.
use connector_supabase.Common.{
  Bool, not, Option, some, String, List, [], ◌∷◌, ◌≡◌, refl, ◌∙◌, ap, str_eq, if◌then◌else◌,
}
use connector_supabase.Common.Maps
use connector_supabase.Common.Maps.{Map}
use connector_supabase.Journal.{
  Binding, JournalSnapshot, JournalEvent, OperationState, started, succeeded, failed, plan_created,
  plan_stale, binding_established, operation_started, operation_succeeded, operation_failed,
  graph_released,
}
use connector_supabase.Journal.Fold.{apply, apply_all}

abbrev pub is_of_other_graph : String → Binding → Bool
is_of_other_graph graph_id binding = not (str_eq binding.graph_id graph_id)

-- One event seen from one resource: it is bound, or released with its graph.
abbrev pub bound_after : String → Option Binding → JournalEvent → Option Binding
bound_after resource_id bound (binding_established binding) =
    if str_eq resource_id binding.resource_id then some binding else bound
bound_after resource_id bound (graph_released graph_id) =
    Maps.keep (is_of_other_graph graph_id) bound
bound_after resource_id bound _ = bound

abbrev pub bound_by : String → Option Binding → List JournalEvent → Option Binding
bound_by resource_id bound [] = bound
bound_by resource_id bound (event ∷ events) =
    bound_by resource_id (bound_after resource_id bound event) events

-- One event seen from one operation: the last receipt is its state.
abbrev pub state_after : String → Option OperationState → JournalEvent → Option OperationState
state_after id state (operation_started plan_id operation_id key) =
    if str_eq id operation_id then some (started plan_id) else state
state_after id state (operation_succeeded plan_id operation_id digest recovered) =
    if str_eq id operation_id then some (succeeded plan_id digest) else state
state_after id state (operation_failed plan_id operation_id code detail) =
    if str_eq id operation_id then some (failed plan_id code detail) else state
state_after id state _ = state

abbrev pub state_by : String → Option OperationState → List JournalEvent → Option OperationState
state_by id state [] = state
state_by id state (event ∷ events) = state_by id (state_after id state event) events

-- The maps of a snapshot are in the order that the trees keep.
abbrev pub IsCanonical : JournalSnapshot → Type 0
IsCanonical self = Maps.IsSorted self.bindings × Maps.IsSorted self.operations

pub apply-IsCanonical :
    (self : JournalSnapshot) (event : JournalEvent)
    → IsCanonical self
    → IsCanonical (apply self event)
unfolding apply
apply-IsCanonical self (binding_established binding) h = (Maps.insert-IsSorted _ _ _ h.0, h.1)
apply-IsCanonical self (operation_started p o k) h = (h.0, Maps.insert-IsSorted _ _ _ h.1)
apply-IsCanonical self (operation_succeeded p o d r) h = (h.0, Maps.insert-IsSorted _ _ _ h.1)
apply-IsCanonical self (operation_failed p o c d) h = (h.0, Maps.insert-IsSorted _ _ _ h.1)
apply-IsCanonical self (graph_released graph_id) h = (Maps.retain-IsSorted _ _ h.0, h.1)
apply-IsCanonical self (plan_created p g n s d o) h = h
apply-IsCanonical self (plan_stale p r) h = h

get-apply_bindings :
    (r : String) (self : JournalSnapshot) (event : JournalEvent)
    → IsCanonical self
    → Maps.get r (apply self event).bindings ≡ bound_after r (Maps.get r self.bindings) event
unfolding apply
get-apply_bindings r self (binding_established binding) h =
    Maps.get-insert _ r binding self.bindings
get-apply_bindings r self (graph_released graph_id) h =
    Maps.get-retain r (is_of_other_graph graph_id) self.bindings h.0
get-apply_bindings r self (operation_started p o k) h = refl
get-apply_bindings r self (operation_succeeded p o d e) h = refl
get-apply_bindings r self (operation_failed p o c d) h = refl
get-apply_bindings r self (plan_created p g n s d o) h = refl
get-apply_bindings r self (plan_stale p e) h = refl

get-apply_operations :
    (id : String) (self : JournalSnapshot) (event : JournalEvent)
    → Maps.get id (apply self event).operations ≡ state_after id (Maps.get id self.operations) event
unfolding apply
get-apply_operations id self (binding_established binding) = refl
get-apply_operations id self (graph_released graph_id) = refl
get-apply_operations id self (operation_started p o k) = Maps.get-insert o id _ self.operations
get-apply_operations id self (operation_succeeded p o d e) = Maps.get-insert o id _ self.operations
get-apply_operations id self (operation_failed p o c d) = Maps.get-insert o id _ self.operations
get-apply_operations id self (plan_created p g n s d o) = refl
get-apply_operations id self (plan_stale p e) = refl

-- After any events the binding of a resource is the last one that was established for it, unless its
-- graph was released later, from a snapshot whose maps are in order.
pub get-apply_all_bindings :
    (r : String) (self : JournalSnapshot) (events : List JournalEvent)
    → IsCanonical self
    → Maps.get r (apply_all self events).bindings ≡ bound_by r (Maps.get r self.bindings) events
unfolding apply_all
get-apply_all_bindings r self [] h = refl
get-apply_all_bindings r self (event ∷ events) h =
    get-apply_all_bindings r (apply self event) events (apply-IsCanonical self event h)
    ∙ ap (λ b. bound_by r b events) (get-apply_bindings r self event h)

-- After any events the state of an operation is its last receipt.
pub get-apply_all_operations :
    (id : String) (self : JournalSnapshot) (events : List JournalEvent)
    → Maps.get id (apply_all self events).operations
      ≡ state_by id (Maps.get id self.operations) events
unfolding apply_all
get-apply_all_operations id self [] = refl
get-apply_all_operations id self (event ∷ events) =
    get-apply_all_operations id (apply self event) events
    ∙ ap (λ s. state_by id s events) (get-apply_operations id self event)
