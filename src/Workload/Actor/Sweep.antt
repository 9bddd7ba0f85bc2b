-- ===== src/Workload/Actor/Sweep.antt =====
-- `FlushActor::sweep` and `step` of src/workload/actor.rs: the diff of the table against the
-- kernel, and which of the two a step does.
pub mod Coherent
pub mod Diff
pub mod Failure
pub mod Touched
mod Tests
use Prim.Native.String.{String}
use mathlib.Core.Option
use cfab.Prelude.{
  ℕ, ◌+◌, Bool, true, false, List, [], ◌∷◌, ◌++◌, Option, none, some, leb, if◌then◌else◌, length,
}
use cfab.Workload.Table.{Inner, re_dirty, remove_expired, list_entries}
use cfab.Workload.Kernel.{Element, KernelNeighbors, Ran, Class, classify}
use cfab.Workload.Actor.{FlushActor, note_expiries, wait_and_spend, read_kernel, sweep_period}
use cfab.Workload.Actor.Batch.{Claim, claims, and_row, Batch, BatchIo, run_batch}
use cfab.Workload.Actor.Publish.{PublishIo, publish}

pub data Sweep : Type 0 where
  read_failed : Sweep
  diffed : ℕ → ℕ → Sweep

-- What a sweep meets: its instants, the rounds of its wait, the read's result and when its failure
-- was noted, the claims between the read and the listing, and those before each entry's turn, by
-- the entries that are left after it.
pub record SweepIo : Type 0 where
  pub expire_at : ℕ
  pub waits : List (ℕ × ℕ)
  pub read_ran : Ran
  pub failed_at : ℕ
  pub now : ℕ
  pub arrived : List Claim
  pub turns : ℕ → List Claim

-- The match on the class: the kernel holds no MAC for the address on the leg.
abbrev pub is_absent : Class → Bool
is_absent Class.skip = false
is_absent Class.add = true
is_absent Class.replace = true

-- The loop over the entries listed: the table, the rows dropped, and `dirtied`.
pub diff :
    KernelNeighbors
    → (ℕ → List Claim)
    → ℕ
    → List (String × ℕ × String)
    → Inner
    → List String
    → ℕ
    → Inner × List String × ℕ
diff doc turns now [] g dropped dirtied = (g, dropped, dirtied)
diff doc turns now ((row, addr, leg) ∷ es) g dropped dirtied =
    let g' = claims (turns (length es)) g in
    let (g'', woke, gone) = re_dirty row addr now g' in
    let kept = diff doc turns now es g' dropped dirtied in
    let queued = diff doc turns now es g'' (and_row dropped gone) (dirtied + 1) in
    if is_absent (classify leg addr doc) then queued else kept

-- The diff, and its expiries noted.
pub diff_against : KernelNeighbors → SweepIo → List String → FlushActor → FlushActor × Sweep
unfolding diff
diff_against doc io dropped a =
    let g = claims io.arrived a.table in
    let (g', gone, dirtied) = diff doc io.turns io.now (list_entries g) g dropped 0 in
    (note_expiries gone io.now (record a { table = g' }), diffed dirtied (length dropped))

-- From the read on.
pub with_sweep_read :
    SweepIo → List String → FlushActor × Option KernelNeighbors → FlushActor × Sweep
unfolding diff_against
with_sweep_read io dropped (a, none) = (note_expiries dropped io.failed_at a, read_failed)
with_sweep_read io dropped (a, some doc) = diff_against doc io dropped a

pub after_sweep_wait :
    (String → Option (List Element)) → SweepIo → List String → FlushActor → FlushActor × Sweep
unfolding with_sweep_read
after_sweep_wait read_json io dropped a =
    with_sweep_read io dropped (read_kernel read_json io.read_ran a)

pub sweep : (String → Option (List Element)) → SweepIo → FlushActor → Option (FlushActor × Sweep)
unfolding after_sweep_wait
sweep read_json io a =
    let (g, dropped) = remove_expired io.expire_at a.table in
    elim (wait_and_spend io.waits 1 a.bucket) [
      | none ↦ none
      | some b ↦ some (after_sweep_wait read_json io dropped (record a { table = g; bucket = b }))
    ]

pub data Step : Type 0 where
  swept : Sweep → Step
  batch : Batch → Step

abbrev pub due_next : ℕ → FlushActor × Sweep → FlushActor × Step
due_next ended_at (a, s) = (record a { next_sweep = ended_at + sweep_period }, swept s)

abbrev pub did_batch : FlushActor × Batch → FlushActor × Step
did_batch (a, b) = (a, batch b)

pub step :
    (String → Option (List Element))
    → ℕ
    → SweepIo
    → BatchIo
    → ℕ
    → FlushActor
    → Option (FlushActor × Step)
unfolding sweep
step read_json now sweep_io batch_io ended_at a =
    let swept' = Option.map (due_next ended_at) (sweep read_json sweep_io a) in
    let drained = Option.map did_batch (run_batch read_json batch_io a) in
    if leb a.next_sweep now then swept' else drained

-- What `run` meets in a round: what was claimed while the actor slept, and its step's world.
pub record StepIo : Type 0 where
  pub arrived : List Claim
  pub now : ℕ
  pub sweep_io : SweepIo
  pub batch_io : BatchIo
  pub ended_at : ℕ
  pub publish_io : PublishIo

-- The loop of `run`, a round after the other: a step, and what it led to is published. No result: the
-- rounds that a wait was given did not do.
pub run : (String → Option (List Element)) → List StepIo → FlushActor → Option FlushActor
unfolding step
run read_json [] a = some a
run read_json (io ∷ ios) a =
    let a' : FlushActor = record a { table = claims io.arrived a.table } in
    elim (step read_json io.now io.sweep_io io.batch_io io.ended_at a') [
      | none ↦ none
      | some r ↦ elim (publish io.publish_io r.0) [ none ↦ none | some a ↦ run read_json ios a ]
    ]
