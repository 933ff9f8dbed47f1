-- ===== src/Reconciler/Delivery.antt =====
-- Durable report delivery of reconciler.rs: `publish` and `deliver_pending_report`. A checkpoint that
-- a function changes in place is returned with the result.
use connector_supabase.Common.{
  Bool, true, false, Option, none, some, Bytes, String, Result, ok, err,
}
use connector_supabase.Reconciler.{
  Checkpoint, ReportSnapshot, ReportSliceRequest, SliceReport, slice_reported, Outside,
}
use connector_supabase.Reconciler.Monad.{Exec, ◌>>=◌, ◌>>◌, pure, call, gets}
use connector_supabase.Reconciler.Store.{save, schedule, report_retry_delay}

abbrev pub request_of : ReportSnapshot → ReportSliceRequest
request_of snapshot = record {
  request_id = snapshot.request_id;
  report = snapshot.report;
  publication_id = snapshot.publication_id;
}

module _ (outside : Outside) where
  -- After the callback: a report that was not acknowledged stays pending.
  abbrev pub acknowledged : Checkpoint → Result Unit String → Exec (Bool × Checkpoint)
  acknowledged checkpoint (err error) = pure (false, checkpoint)
  acknowledged checkpoint (ok _) = do
    save outside (record checkpoint { last_report = none })
    pure (true, record checkpoint { last_report = none })

  abbrev pub deliver : Checkpoint → Option ReportSnapshot → Exec (Bool × Checkpoint)
  deliver checkpoint none = pure (true, checkpoint)
  deliver checkpoint (some snapshot) = do
    answer ←
        call (λ trace. outside.report trace (request_of snapshot))
          (slice_reported (request_of snapshot))
    acknowledged checkpoint answer

  unfoldable pub deliver_pending_report : Checkpoint → Exec (Bool × Checkpoint)
  deliver_pending_report checkpoint = deliver checkpoint checkpoint.last_report

  abbrev pub with_report : Bytes → Checkpoint → SliceReport → Option Bytes → Checkpoint
  with_report request_id checkpoint report publication_id = record checkpoint {
    last_report =
        some (record { request_id = request_id; publication_id = publication_id; report = report });
  }

  abbrev pub retry_unless : Bool × Checkpoint → Exec Checkpoint
  retry_unless (true, checkpoint) = pure checkpoint
  retry_unless (false, checkpoint) = do
    schedule checkpoint.graph_id checkpoint.sequence report_retry_delay
    pure checkpoint

  unfoldable pub publish : Checkpoint → SliceReport → Option Bytes → Exec Checkpoint
  publish checkpoint report publication_id = do
    request_id ← gets (λ world. outside.now_v7 world.trace)
    let pending = with_report request_id checkpoint report publication_id
    save outside pending
    delivered ← deliver_pending_report pending
    retry_unless delivered
