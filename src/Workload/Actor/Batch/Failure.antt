-- ===== src/Workload/Actor/Batch/Failure.antt =====
-- A batch whose read failed (src/workload/actor.rs).
use Prim.Native.String.{String}
use cfab.Prelude.{◌≡◌, ap, false, List, Option, some, ◌==◌}
use cfab.Workload.Table.{dirty_depth}
use cfab.Workload.Bucket.{Bucket}
use cfab.Workload.Kernel.{Element}
use cfab.Workload.Actor.{FlushActor, Why, unread, read_result, wait_and_spend}
use cfab.Workload.Actor.Failed.{after_failure, read_kernel-unread}
use cfab.Workload.Actor.Batch.{read_failed, BatchIo, wanted, with_read, run_batch, after_wait}

after_wait-unread :
    (read_json : String → Option (List Element)) (io : BatchIo) (a : FlushActor) (why : Why)
    → read_result read_json io.read_ran ≡ unread why
    → after_wait read_json io a ≡ (after_failure why a, read_failed)
unfolding after_wait with_read
after_wait-unread read_json io a why h =
    ap (with_read io) (read_kernel-unread read_json io.read_ran a why h)

pub run_batch-unread :
    (read_json : String → Option (List Element)) (io : BatchIo) (a : FlushActor) (why : Why)
    (b : Bucket)
    → read_result read_json io.read_ran ≡ unread why
    → (dirty_depth a.table == 0) ≡ false
    → wait_and_spend io.waits (wanted (dirty_depth a.table)) a.bucket ≡ some b
    → run_batch read_json io a ≡ some (after_failure why (record a { bucket = b }), read_failed)
unfolding run_batch
run_batch-unread read_json io a why b h dirty waited =
    rw (dirty, waited, run_batch)
      (ap some (after_wait-unread read_json io (record a { bucket = b }) why h))
