-- ===== src/Workload/Actor/Failed.antt =====
-- What a failed read of the kernel does (src/workload/actor.rs).
use Prim.Native.String.{String}
use cfab.Prelude.{◌+◌, ◌≡◌, refl, true, List, [], ◌∷◌, ◌++◌, Option, none, if◌then◌else◌}
use cfab.Workload.Kernel.{Element, Ran}
use cfab.Workload.Actor.{FlushActor, Why, read_failed, unread, read_result, note_read, read_kernel}

-- The state after a read that failed: one more failure, and a line if it is the first of its streak.
abbrev pub after_failure : Why → FlushActor → FlushActor
after_failure why a = record a {
  counts = record a.counts { read_failures = a.counts.read_failures + 1 };
  read_failing = true;
  journal = if a.read_failing then a.journal else a.journal ++ (read_failed why ∷ []);
}

pub read_kernel-unread :
    (read_json : String → Option (List Element)) (r : Ran) (a : FlushActor) (why : Why)
    → read_result read_json r ≡ unread why
    → read_kernel read_json r a ≡ (after_failure why a, none)
unfolding read_kernel note_read
read_kernel-unread read_json r a why h = rw h refl
