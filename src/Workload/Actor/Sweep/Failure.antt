-- ===== src/Workload/Actor/Sweep/Failure.antt =====
-- A failed read of the kernel is no evidence: nothing is taken, written or dirtied
-- (src/workload/actor.rs).
use Prim.Native.String.{String}
use cfab.Prelude.{◌+◌, ◌≡◌, ap, true, false, List, [], ◌∷◌, ◌++◌, Option, some, ◌==◌, if◌then◌else◌}
use cfab.Workload.Table.{dirty_depth, remove_expired}
use cfab.Workload.Bucket.{Bucket}
use cfab.Workload.Kernel.{Element, Ran}
use cfab.Workload.Actor.{FlushActor, Why, Line, unread, read_result, wait_and_spend, note_expiries}
use cfab.Workload.Actor
use cfab.Workload.Actor.Failed.{after_failure, read_kernel-unread}
use cfab.Workload.Actor.Batch.{BatchIo, wanted, run_batch}
use cfab.Workload.Actor.Batch
use cfab.Workload.Actor.Batch.Failure.{run_batch-unread}
use cfab.Workload.Actor.Sweep.{SweepIo, read_failed, sweep, with_sweep_read, after_sweep_wait}

after_sweep_wait-unread :
    (read_json : String → Option (List Element)) (io : SweepIo) (rows : List String)
    (a : FlushActor) (why : Why)
    → read_result read_json io.read_ran ≡ unread why
    → after_sweep_wait read_json io rows a
      ≡ (note_expiries rows io.failed_at (after_failure why a), read_failed)
unfolding after_sweep_wait with_sweep_read
after_sweep_wait-unread read_json io rows a why h =
    ap (with_sweep_read io rows) (read_kernel-unread read_json io.read_ran a why h)

pub sweep-unread :
    (read_json : String → Option (List Element)) (io : SweepIo) (a : FlushActor) (why : Why)
    (b : Bucket)
    → read_result read_json io.read_ran ≡ unread why
    → wait_and_spend io.waits 1 a.bucket ≡ some b
    → let (g, rows) = remove_expired io.expire_at a.table in
      sweep read_json io a
      ≡ some (
        note_expiries rows io.failed_at (after_failure why (record a { table = g; bucket = b })),
        read_failed,
      )
unfolding sweep
sweep-unread read_json io a why b h waited =
    let (g, rows) = remove_expired io.expire_at a.table in
    rw (waited, sweep)
      (ap some
        (after_sweep_wait-unread read_json io rows (record a { table = g; bucket = b }) why h))

-- A failed read, by its exit, its document or a call that did not run, is no evidence that the
-- kernel is empty. A batch that has work and has waited for its tokens then takes, writes and queues
-- nothing; a sweep that has waited drops the entries that ran out, which it credits, and queues
-- nothing. Each counts one failure, and journals it only as the first of its streak.
failed_read_is_no_evidence :
    (read_json : String → Option (List Element)) (r : Ran) (why : Why) (batch_io : BatchIo)
    (sweep_io : SweepIo) (a : FlushActor) (b b' : Bucket)
    → read_result read_json r ≡ unread why
    → (dirty_depth a.table == 0) ≡ false
    → wait_and_spend batch_io.waits (wanted (dirty_depth a.table)) a.bucket ≡ some b
    → wait_and_spend sweep_io.waits 1 a.bucket ≡ some b'
    → let (g, rows) = remove_expired sweep_io.expire_at a.table in
      let failed : FlushActor = record a {
        counts = record a.counts { read_failures = a.counts.read_failures + 1 };
        read_failing = true;
        journal = if a.read_failing then a.journal else a.journal ++ (Actor.read_failed why ∷ []);
      } in
      (run_batch read_json (record batch_io { read_ran = r }) a
        ≡ some (record failed { bucket = b }, Batch.read_failed))
      × (sweep read_json (record sweep_io { read_ran = r }) a
          ≡ some (
            note_expiries rows sweep_io.failed_at (record failed { table = g; bucket = b' }),
            read_failed,
          ))
failed_read_is_no_evidence read_json r why batch_io sweep_io a b b' h dirty waited waited' = (
  run_batch-unread read_json (record batch_io { read_ran = r }) a why b h dirty waited,
  sweep-unread read_json (record sweep_io { read_ran = r }) a why b' h waited',
)
