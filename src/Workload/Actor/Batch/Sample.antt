-- ===== src/Workload/Actor/Batch/Sample.antt =====
-- A host with two claims, of which the kernel has one (src/workload/actor.rs).
use Prim.Native.String.{String}
use cfab.Prelude.{ℕ, true, false, List, [], ◌∷◌, Option, some}
use cfab.Workload.Table.{Mac, Entry, Inner, new}
use cfab.Workload.Kernel.{Element, KernelNeighbors, Ran, ran}
use cfab.Workload.Actor.{FlushActor, with_observer}
use cfab.Workload.Actor.Batch.{Round, BatchIo}

abbrev pub vm : Mac
vm = 2 ∷ 0 ∷ 0 ∷ 0 ∷ 0 ∷ 1 ∷ []

abbrev pub entry_of : Entry
entry_of = record { leg = "leg0"; mac = vm; expires_at = 900; dirty = true }

abbrev pub waiting : Inner
waiting = record new {
  entries = (("vms", 10), entry_of) ∷ (("vms", 11), entry_of) ∷ [];
  queue = (("vms", 11), 1) ∷ (("vms", 10), 2) ∷ [];
}

abbrev pub host : FlushActor
host = with_observer waiting 0

-- The kernel has a MAC for 11 and an entry without one for 10.
abbrev pub kernel : KernelNeighbors
kernel = (("leg0", 10), false) ∷ (("leg0", 11), true) ∷ []

abbrev pub fine : Ran
fine = ran (record { status = 0; stdout = "[]"; stderr = "" })

abbrev pub broken : Ran
broken = ran (record { status = 2; stdout = ""; stderr = "no" })

abbrev pub nothing_read : String → Option (List Element)
nothing_read s = some []

abbrev pub quiet_round : ℕ → Round
quiet_round i = record { arrived = []; take_at = 20; spend_at = 20; write_ran = fine }

abbrev pub batch_io : BatchIo
batch_io = record {
  waits = (5, 5) ∷ [];
  read_ran = fine;
  rounds = quiet_round;
  between = λ _. [];
  end_at = 30;
}
