-- ===== src/Journal/Tests.antt =====
-- The journal at concrete inputs.
use connector_supabase.Common.{
  ℕ, ◌<◌, ◌≢◌, subst, ok-injective, err, zero, suc, false, ◌∙◌, none, some, String, List, [], ◌∷◌,
  ◌≡◌, ◌++◌, refl, ap, arith, Bytes, Result, ok, length,
}
use connector_supabase.Common.Maps
use connector_supabase.Fixtures.{binding}
use connector_supabase.Journal.{
  JournalEvent, JournalEnvelope, api_version, binding_established, operation_started,
  operation_succeeded, graph_released, succeeded,
}
use connector_supabase.Journal.Fold.{empty, apply_all, apply}
use connector_supabase.Journal.History.{
  bound_by, state_by, get-apply_all_bindings, get-apply_all_operations,
}
use connector_supabase.Journal.Paging.{ReadsOn, fold_records, load-fold_records}
use connector_supabase.Common.Decimal.{u64_limit}
use connector_supabase.Journal.Progress.{IsFrom, load-ne-out_of_fuel}
use connector_supabase.Journal.Stream.{
  out_of_fuel, S2Error, S2Record, load, tail_of, read_batches, read_batch, read_records,
  read_record,
}

abbrev events : List JournalEvent
events =
    operation_started "plan" "operation" "operation"
    ∷ binding_established binding
    ∷ operation_succeeded "plan" "operation" "digest" false
    ∷ []

get-apply_all_bindings_example :
    Maps.get "catalog" (apply_all (empty 3) events).bindings ≡ bound_by "catalog" none events
get-apply_all_bindings_example = get-apply_all_bindings "catalog" (empty 3) events (tt, tt)

get-apply_all_operations_example :
    Maps.get "operation" (apply_all (empty 3) events).operations ≡ state_by "operation" none events
get-apply_all_operations_example = get-apply_all_operations "operation" (empty 3) events

last_state : state_by "operation" none events ≡ some (succeeded "plan" "digest")
last_state = refl

released : bound_by "catalog" none (events ++ graph_released binding.graph_id ∷ []) ≡ none
released = refl

-- A stream of three records that is read one record at a time.
abbrev entry_of : ℕ → S2Record
entry_of n = record { seq_num = n; body = n ∷ [] }

abbrev log : List S2Record
log = entry_of 0 ∷ entry_of 1 ∷ entry_of 2 ∷ []

abbrev event_at : Bytes → JournalEvent
event_at (zero ∷ []) = operation_started "plan" "operation" "operation"
event_at (suc zero ∷ []) = binding_established binding
event_at _ = operation_succeeded "plan" "operation" "digest" false

abbrev parse_envelope : Bytes → Result JournalEnvelope String
parse_envelope bytes =
    ok (record { api_version = api_version; event_id = "event"; event = event_at bytes })

abbrev at : ℕ → List S2Record → List S2Record
at n [] = []
at zero (entry ∷ entries) = entry ∷ []
at (suc n) (entry ∷ entries) = at n entries

abbrev read : ℕ → Result (List S2Record) S2Error
read n = ok (at n log)

at-length :
    (front : List S2Record) (entry : S2Record) (rest : List S2Record)
    → at (length front) (front ++ entry ∷ rest) ≡ entry ∷ []
at-length [] entry rest = refl
at-length (e ∷ front) entry rest = at-length front entry rest

reads : ReadsOn read log
reads front entry rest e = (
  [],
  (
    rest,
    (refl, ap (λ l. ok (at (length front) l)) e ∙ ap (λ l. ok l) (at-length front entry rest)),
  ),
)

load-fold_records_example :
    load parse_envelope read (ok 3) ≡ fold_records parse_envelope (empty 3) log
load-fold_records_example =
    load-fold_records parse_envelope read log (refl, (refl, (refl, tt))) (omega arith) reads

loaded : load parse_envelope read (ok 3) ≡ ok (apply_all (empty 3) events)
unfolding load tail_of read_batches read_batch read_records read_record apply_all apply
loaded = refl

-- A stream that holds a record at every position.
abbrev endless : ℕ → Result (List S2Record) S2Error
endless n = ok (entry_of n ∷ [])

endless_onwards : (next : ℕ) (batch : List S2Record) → endless next ≡ ok batch → IsFrom next batch
endless_onwards next batch e = subst (IsFrom next) (ok-injective e) (omega arith, tt)

checked-lt : (tail : ℕ) → ◌≡◌ {A = Result ℕ S2Error} (ok 3) (ok tail) → tail < u64_limit
checked-lt tail e = subst (λ n. n < u64_limit) (ok-injective e) (omega arith)

load-ne-out_of_fuel_example : load parse_envelope endless (ok 3) ≢ err out_of_fuel
load-ne-out_of_fuel_example =
    load-ne-out_of_fuel parse_envelope endless endless_onwards (ok 3) checked-lt
