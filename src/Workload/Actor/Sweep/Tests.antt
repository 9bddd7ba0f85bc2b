-- ===== src/Workload/Actor/Sweep/Tests.antt =====
-- Sweeps and steps on the sample's host (src/workload/actor.rs).
use Prim.Native.String.{String}
use cfab.Prelude.{refl, true, [], ◌∷◌, none, some}
use cfab.Prelude.BTreeMap.{string_ord, nat_ord, pair_ord}
use cfab.Workload.Table.{
  dirty_depth, remove_expired, new, row_sizes, tally, oldest_dirty_age, oldest_from,
}
use cfab.Workload.Actor.Publish.{publish, joined}
use cfab.Workload.Bucket.{level, refill_loop, refill, spend, wait_for}
use cfab.Workload.Kernel.{Ran, ran}
use cfab.Workload.Actor.{
  exited, read_result, no_counts, with_observer, note_expiries, read_kernel, note_read, fresh_rows,
  rows_of, say_expired, credit_expiries, wait_and_spend,
}
use cfab.Workload.Actor
use cfab.Workload.Actor.Batch.{claims}
use cfab.Workload.Actor.Batch.Coherent.{IsCoherent}
use cfab.Workload.Actor.Batch.Sample.{fine, nothing_read, batch_io}
use cfab.Workload.Actor.Sweep.{SweepIo, StepIo, after_sweep_wait, with_sweep_read, sweep, step, run}
use cfab.Workload.Actor.Sweep.Coherent.{run-with_observer-IsCoherent}

abbrev sweep_io : SweepIo
sweep_io = record {
  expire_at = 5;
  waits = (5, 5) ∷ [];
  read_ran = fine;
  failed_at = 6;
  now = 7;
  arrived = [];
  turns = λ _. [];
}

abbrev broken : Ran
broken = ran (record { status = 2; stdout = ""; stderr = "refused" })

-- A sweep falls due at 20 seconds, and its read fails.
abbrev late_sweep : SweepIo
late_sweep = record {
  expire_at = 20000000000;
  waits = (20000000000, 20000000000) ∷ [];
  read_ran = broken;
  failed_at = 20000000001;
  now = 20000000001;
  arrived = [];
  turns = λ _. [];
}

abbrev first_step : StepIo
first_step = record {
  arrived = [];
  now = 20000000000;
  sweep_io = late_sweep;
  batch_io = batch_io;
  ended_at = 20000000002;
  publish_io = record {
    before_sizes = [];
    before_refusals = [];
    before_depth = [];
    before_age = [];
    now = 20000000003;
  };
}

run-with_observer-IsCoherent_example : IsCoherent (record (with_observer new 0) {
  bucket = record { tokens = 31; next_token_at = 20100000000 };
  read_failing = true;
  next_sweep = 35000000002;
  counts = record no_counts { read_failures = 1 };
  journal = Actor.read_failed (exited 2 "refused") ∷ [];
  shared = some (record {
    neighbor_rows = [];
    neighbor = some (record { dirty_depth = 0; oldest_dirty_age = none; token_level = 31 });
  });
})
unfolding publish joined level row_sizes tally dirty_depth oldest_dirty_age oldest_from run step
    sweep after_sweep_wait with_sweep_read remove_expired wait_and_spend wait_for spend refill
    refill_loop read_kernel read_result note_read note_expiries fresh_rows rows_of say_expired
    credit_expiries claims
run-with_observer-IsCoherent_example =
    run-with_observer-IsCoherent nothing_read (first_step ∷ []) 0
      (some (record { neighbor_rows = []; neighbor = none })) _
      ((tt, (tt, λ i. tt), ((λ i. tt), (λ i. tt)), (tt, tt, tt, tt)), tt) refl
