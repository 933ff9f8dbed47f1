-- ===== src/Reconciler/Pending.antt =====
-- What becomes of a report that `publish` of reconciler.rs writes.
use connector_supabase.Common.{
  true, Option, none, some, String, ◌∷◌, ◌≡◌, ◌⊎◌, inl, inr, refl, ap, Bytes, Result, ok, err,
}
use connector_supabase.Reconciler.{
  ReconcileError, Checkpoint, ReportSnapshot, SliceReport, slice_reported, pass_scheduled, World,
  Outside,
}
use connector_supabase.Reconciler.Delivery.{
  request_of, acknowledged, deliver, deliver_pending_report, with_report, retry_unless, publish,
}
use connector_supabase.Reconciler.Fence.{retained}
use connector_supabase.Reconciler.Monad.{proceed, ◌>>=◌, pure}
use connector_supabase.Reconciler.Store.{
  lookup-store, save, write_with, schedule, report_retry_delay,
}

module _ (world : World) (snapshot : ReportSnapshot) (pending : Checkpoint) where
  -- The callback answered the report with success, and this was the last effect.
  abbrev pub IsAcknowledged : World → Type 0
  IsAcknowledged after = after.trace ≡ slice_reported (request_of snapshot) (ok tt) ∷ world.trace

  -- The delivery failed, and a later pass was scheduled.
  abbrev pub IsRetried : Checkpoint → World → Type 0
  IsRetried checkpoint after =
      (error : String) × (after.trace
        ≡ pass_scheduled checkpoint.graph_id checkpoint.sequence report_retry_delay
          ∷ slice_reported (request_of snapshot) (err error)
          ∷ world.trace)

  -- Where the file has the report, or had it until it was acknowledged.
  abbrev pub IsKept : Result Checkpoint ReconcileError × World → Type 0
  IsKept (ok checkpoint, after) =
      (retained checkpoint.graph_id after ≡ some checkpoint)
      × (((checkpoint.last_report ≡ none) × IsAcknowledged after)
          ⊎ ((checkpoint.last_report ≡ some snapshot) × IsRetried checkpoint after))
  IsKept (err error, after) =
      (after ≡ world)
      ⊎ (((retained pending.graph_id after ≡ some pending) × (after.trace ≡ world.trace))
          ⊎ (((retained pending.graph_id after ≡ some pending)
                ⊎ (retained pending.graph_id after ≡ some (record pending { last_report = none })))
              × IsAcknowledged after))

  module _ (outside : Outside) where
    cleared :
        (w s : Option String) (after : World)
        → retained pending.graph_id after ≡ some pending
        → IsAcknowledged after
        → IsKept (
            proceed (retry_unless outside) (
              proceed
                (λ _. pure (true, record pending { last_report = none }))
                (write_with outside w s (record pending { last_report = none }) after)))
    unfolding proceed
    cleared none none after r a = (lookup-store pending.graph_id _ after.checkpoints, inl (refl, a))
    cleared none (some error) after r a =
        inr (inr (inr (lookup-store pending.graph_id _ after.checkpoints), a))
    cleared (some error) s after r a = inr (inr (inl r, a))

    answered :
        (answer : Result Unit String) (after : World)
        → pending.last_report ≡ some snapshot
        → retained pending.graph_id after ≡ some pending
        → after.trace ≡ slice_reported (request_of snapshot) answer ∷ world.trace
        → IsKept (proceed (retry_unless outside) (acknowledged outside pending answer after))
    unfolding proceed schedule save
    answered (err error) after p r t = (
      r,
      inr (
        p,
        (
          error,
          ap (λ l. pass_scheduled pending.graph_id pending.sequence report_retry_delay ∷ l) t,
        ),
      ),
    )
    answered (ok _) after p r t = cleared _ _ after r t

    delivered :
        (w s : Option String)
        → pending.last_report ≡ some snapshot
        → IsKept (
            proceed
              (λ _. deliver outside pending (some snapshot) >>= retry_unless outside)
              (write_with outside w s pending world))
    unfolding proceed
    delivered none none p =
        answered (outside.report world.trace (request_of snapshot)) _ p
          (lookup-store pending.graph_id pending world.checkpoints) refl
    delivered none (some error) p =
        inr (inl (lookup-store pending.graph_id pending world.checkpoints, refl))
    delivered (some error) s p = inl refl

-- The report of a publication under its fresh request id.
abbrev pub snapshot_of : Outside → World → SliceReport → Option Bytes → ReportSnapshot
snapshot_of outside world report publication_id = record {
  request_id = outside.now_v7 world.trace;
  publication_id = publication_id;
  report = report;
}

-- Where publish succeeds, the checkpoint that it returns is the one in the file, and either the
-- callback answered the report with success as the last effect, and the report is cleared, or the
-- report is still pending under the same request id, its delivery failed, and a later pass is
-- scheduled. Where publish fails, nothing changed, or the file has the report and it was not sent,
-- or the callback answered it with success and the file has it still or has it cleared.
pub publish-IsKept :
    (outside : Outside) (checkpoint : Checkpoint) (report : SliceReport)
    (publication_id : Option Bytes) (world : World)
    → IsKept world
        (snapshot_of outside world report publication_id)
        (record checkpoint { last_report = some (snapshot_of outside world report publication_id) })
        (publish outside checkpoint report publication_id world)
unfolding publish proceed save deliver_pending_report
publish-IsKept outside checkpoint report publication_id world =
    delivered world _
      (with_report outside (outside.now_v7 world.trace) checkpoint report publication_id) outside _
      _ refl
