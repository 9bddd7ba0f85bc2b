-- ===== src/Workload/Actor/Sweep/Coherent.antt =====
-- Whatever the actor does, its table stays valid and its counters agree (src/workload/actor.rs).
use Prim.Native.String.{String}
use mathlib.Core.Option
use cfab.Prelude.{
  ℕ, ◌+◌, ◌≡◌, refl, inl, inr, List, [], ◌∷◌, Option, none, some, All, arith, if-both, Option-cases,
  length, leb,
}
use cfab.Workload.Table.{Inner, new, re_dirty, list_entries}
use cfab.Workload.Table.Valid.{IsValid, new-IsValid, re_dirty-IsValid, remove_expired-IsValid}
use cfab.Workload.Kernel.{Element, KernelNeighbors, classify}
use cfab.Workload.Actor.{FlushActor, with_observer, wait_and_spend, read_kernel}
use cfab.Workload.Actor.Batch.{Claim, claims, and_row, Batch, BatchIo}
use cfab.Workload.Actor.Batch.Coherent.{
  Holds, IsCoherent, IsBatchIo, IsClaim, claims-IsValid, note_expiries-IsCoherent,
  read_kernel-IsCoherent, run_batch-IsCoherent,
}
use cfab.Workload.Report.{Shared}
use cfab.Workload.Actor.Publish.Total.{publish-some, IsPublishIo, publish-IsCoherent}
use cfab.Workload.Actor.Sweep.{
  Sweep, SweepIo, is_absent, diff, diff_against, with_sweep_read, after_sweep_wait, sweep, due_next,
  did_batch, step, StepIo, run,
}

diff-IsValid :
    (doc : KernelNeighbors) (turns : ℕ → List Claim) (now : ℕ) (es : List (String × ℕ × String))
    (g : Inner) (dropped : List String) (dirtied : ℕ)
    → ((i : ℕ) → All IsClaim (turns i))
    → IsValid g
    → IsValid (diff doc turns now es g dropped dirtied).0
unfolding diff
diff-IsValid doc turns now [] g dropped dirtied small v = v
diff-IsValid doc turns now ((row, addr, leg) ∷ es) g dropped dirtied small v =
    let g' = claims (turns (length es)) g in
    let v' = claims-IsValid (turns (length es)) g (small (length es)) v in
    let r = re_dirty row addr now g' in
    let kept = diff-IsValid doc turns now es g' dropped dirtied small v' in
    let queued =
      diff-IsValid doc turns now es r.0 (and_row dropped r.2) (dirtied + 1) small
        (re_dirty-IsValid row addr now g' v') in
    if-both (λ (r : Inner × List String × ℕ). IsValid r.0) (is_absent (classify leg addr doc)) _ _
      queued kept

-- The claims that a sweep meets are of u32 addresses.
abbrev pub IsSweepIo : SweepIo → Type 0
IsSweepIo io = All IsClaim io.arrived × ((i : ℕ) → All IsClaim (io.turns i))

diff_against-IsCoherent :
    (doc : KernelNeighbors) (io : SweepIo) (dropped : List String) (a : FlushActor)
    → IsSweepIo io
    → IsCoherent a
    → IsCoherent (diff_against doc io dropped a).0
unfolding diff_against
diff_against-IsCoherent doc io dropped a small c =
    let g = claims io.arrived a.table in
    note_expiries-IsCoherent _ io.now _ (record {
      valid =
          diff-IsValid doc io.turns io.now (list_entries g) g dropped 0 small.1
            (claims-IsValid io.arrived a.table small.0 c.valid);
      balanced = c.balanced;
    })

with_sweep_read-IsCoherent :
    (io : SweepIo) (dropped : List String) (r : FlushActor × Option KernelNeighbors)
    → IsSweepIo io
    → IsCoherent r.0
    → IsCoherent (with_sweep_read io dropped r).0
unfolding with_sweep_read
with_sweep_read-IsCoherent io dropped (a, none) small c =
    note_expiries-IsCoherent dropped io.failed_at a c
with_sweep_read-IsCoherent io dropped (a, some doc) small c =
    diff_against-IsCoherent doc io dropped a small c

after_sweep_wait-IsCoherent :
    (read_json : String → Option (List Element)) (io : SweepIo) (dropped : List String)
    (a : FlushActor)
    → IsSweepIo io
    → IsCoherent a
    → IsCoherent (after_sweep_wait read_json io dropped a).0
unfolding after_sweep_wait
after_sweep_wait-IsCoherent read_json io dropped a small c =
    with_sweep_read-IsCoherent io dropped (read_kernel read_json io.read_ran a) small
      (read_kernel-IsCoherent read_json io.read_ran a c)

sweep-IsCoherent :
    (read_json : String → Option (List Element)) (io : SweepIo) (a : FlushActor)
    → IsSweepIo io
    → IsCoherent a
    → Holds IsCoherent (sweep read_json io a)
unfolding sweep
sweep-IsCoherent read_json io a small c = elim (Option-cases (wait_and_spend io.waits 1 a.bucket)) [
  | inl e ↦ rw (e, sweep) tt
  | inr (b, e) ↦
      rw (e, sweep)
        (after_sweep_wait-IsCoherent read_json io _ _ small (record {
          valid = remove_expired-IsValid io.expire_at a.table c.valid;
          balanced = c.balanced;
        }))
]

due_next-Holds :
    (ended_at : ℕ) (r : Option (FlushActor × Sweep))
    → Holds IsCoherent r
    → Holds IsCoherent (Option.map (due_next ended_at) r)
due_next-Holds ended_at none h = tt
due_next-Holds ended_at (some r) h = record { valid = h.valid; balanced = h.balanced }

did_batch-Holds :
    (r : Option (FlushActor × Batch))
    → Holds IsCoherent r
    → Holds IsCoherent (Option.map did_batch r)
did_batch-Holds none h = tt
did_batch-Holds (some r) h = h

step-IsCoherent :
    (read_json : String → Option (List Element)) (now : ℕ) (sweep_io : SweepIo) (batch_io : BatchIo)
    (ended_at : ℕ) (a : FlushActor)
    → IsSweepIo sweep_io
    → IsBatchIo batch_io
    → IsCoherent a
    → Holds IsCoherent (step read_json now sweep_io batch_io ended_at a)
unfolding step
step-IsCoherent read_json now sweep_io batch_io ended_at a s b c =
    if-both (Holds IsCoherent) (leb a.next_sweep now) _ _
      (due_next-Holds ended_at _ (sweep-IsCoherent read_json sweep_io a s c))
      (did_batch-Holds _ (run_batch-IsCoherent read_json batch_io a b c))

-- The claims that a round of `run` meets are of u32 addresses.
abbrev pub IsStepIo : StepIo → Type 0
IsStepIo io =
    All IsClaim io.arrived
    × IsSweepIo io.sweep_io
    × IsBatchIo io.batch_io
    × IsPublishIo io.publish_io

run-IsCoherent :
    (read_json : String → Option (List Element)) (ios : List StepIo) (a after : FlushActor)
    → All IsStepIo ios
    → IsCoherent a
    → run read_json ios a ≡ some after
    → IsCoherent after
unfolding run
run-IsCoherent read_json [] a after small c h = ground (arith, h, c)
run-IsCoherent read_json (io ∷ ios) a after small c h =
    let a' : FlushActor = record a { table = claims io.arrived a.table } in
    let c' : IsCoherent a' = record {
      valid = claims-IsValid io.arrived a.table small.0.0 c.valid;
      balanced = c.balanced;
    } in
    let s =
      step-IsCoherent read_json io.now io.sweep_io io.batch_io io.ended_at a' small.0.1 small.0.2
        c' in
    elim (Option-cases (step read_json io.now io.sweep_io io.batch_io io.ended_at a')) [
      | inl e ↦ absurd (ground (arith, rw (e, run) at h))
      | inr (r, e) ↦
          let (a'', p) = publish-some io.publish_io r.0 in
          run-IsCoherent read_json ios a'' after small.1
            (publish-IsCoherent io.publish_io r.0 a'' small.0.3 (rw e at s) p)
            (rw p at (rw (e, run) at h))
    ]

-- From its start, whether it publishes or not, whatever the calls of `ip` return, whatever the relays
-- claim in between and at whatever instants the actor steps, its table is valid, and each counter of
-- the host is the sum of the rows' own.
pub run-with_observer-IsCoherent :
    (read_json : String → Option (List Element)) (ios : List StepIo) (now : ℕ)
    (shared : Option Shared) (a : FlushActor)
    → All IsStepIo ios
    → run read_json ios (record (with_observer new now) { shared = shared }) ≡ some a
    → IsCoherent a
run-with_observer-IsCoherent read_json ios now shared a small h =
    run-IsCoherent read_json ios (record (with_observer new now) { shared = shared }) a small
      (record {
        valid = new-IsValid;
        balanced = record {
          sorted = tt;
          writes = refl;
          write_failures = refl;
          skips = refl;
          expiries = refl;
        };
      })
      h
