-- ===== src/Workload/Actor/Batch.antt =====
-- `FlushActor::run_batch`, `sweep` and `step` of src/workload/actor.rs. A round of the drain is
-- given what the relays claimed since the last one, the instants of the take and of the spend, and
-- what the write's call of `ip` returns. An instant that is read once stands for both its uses.
pub mod Rule
pub mod Failure
pub mod Coherent
pub mod Soundness
pub mod Lasting
pub mod Settled
pub mod Sample
mod Tests
use Prim.Native.String.{String}
use cfab.Prelude.{
  ℕ, zero, suc, ◌+◌, ◌-◌, Bool, true, false, ◌||◌, List, [], ◌∷◌, ◌++◌, Option, none, some, leb,
  ◌==◌, if◌then◌else◌, length, any, min,
}
use cfab.Prelude.BTreeMap.{string_ord, nat_ord, pair_ord, key_eq, get, insert, remove}
use cfab.Workload.Cap.{RowCap}
use cfab.Workload.Table.{
  Mac, Key, Inner, Taken, NextDirty, is_none, upsert, re_dirty, take_next_dirty, remove_expired,
  dirty_depth, list_entries,
}
use cfab.Workload.Bucket.{Bucket, burst, spend}
use cfab.Workload.Kernel.{
  Element, KernelNeighbors, Ran, ran, failed, ok, Class, WriteVerb, Write, write_argv, classify,
}
use cfab.Workload.Kernel.{Class, WriteVerb}
use cfab.Workload.Actor.{
  Counts, RowCounts, Why, exited, not_run, write_failed, FlushActor, credit, note_expiries,
  wait_and_spend, read_kernel, sweep_period,
}

-- The arguments of a relay's `upsert`.
pub record Claim : Type 0 where
  pub row : String
  pub leg : String
  pub addr : ℕ
  pub mac : Mac
  pub expires_at : ℕ
  pub limit : RowCap
  pub now : ℕ

unfoldable pub claims : List Claim → Inner → Inner
claims [] g = g
claims (c ∷ cs) g = claims cs (upsert c.row c.leg c.addr c.mac c.expires_at c.limit c.now g).0

pub record Round : Type 0 where
  pub arrived : List Claim
  pub take_at : ℕ
  pub spend_at : ℕ
  pub write_ran : Ran

-- A write's call of `ip`: the entry's key, the argv and the result.
pub record Written : Type 0 where
  pub key : Key
  pub argv : Write
  pub result : Ran

-- The locals of `run_batch`, and the writes so far.
pub record Drain : Type 0 where
  pub actor : FlushActor
  pub seen : List Key
  pub put_back : List Key
  pub dropped : List String
  pub written : List Written

abbrev pub skip_one : RowCounts → RowCounts
skip_one c = record c { skips = c.skips + 1 }

abbrev pub write_one : RowCounts → RowCounts
write_one c = record c { writes = c.writes + 1 }

abbrev pub fail_one : RowCounts → RowCounts
fail_one c = record c { write_failures = c.write_failures + 1 }

pub note_skip : String → FlushActor → FlushActor
note_skip row a = record a {
  counts = record a.counts { skips = a.counts.skips + 1 };
  per_row = credit skip_one row a.per_row;
}

pub note_write : String → FlushActor → FlushActor
note_write row a = record a {
  counts = record a.counts { writes = a.counts.writes + 1 };
  per_row = credit write_one row a.per_row;
  write_failing = remove row a.write_failing;
}

pub note_write_failure : String → ℕ → Why → FlushActor → FlushActor
note_write_failure row addr why a = record a {
  counts = record a.counts { write_failures = a.counts.write_failures + 1 };
  per_row = credit fail_one row a.per_row;
  write_failing = insert row tt a.write_failing;
  journal =
      if is_none (get row a.write_failing)
      then a.journal ++ (write_failed row addr why ∷ [])
      else a.journal;
}

-- `failure`: none where the call exited with 0.
abbrev pub failure : Ran → Option Why
failure (ran o) = if ok o then none else some (exited o.status o.stderr)
failure (failed e) = some (not_run e)

abbrev pub key_of : Taken → Key
key_of t = (t.row, t.addr)

-- `seen.insert(key)`, `put_back.push(key)`, the bucket after a spend, and a call of `ip`.
abbrev pub see : Taken → Drain → Drain
see t d = record d { seen = key_of t ∷ d.seen }

abbrev pub back : Taken → Drain → Drain
back t d = record d { put_back = d.put_back ++ (key_of t ∷ []) }

abbrev pub pay : Bucket → Drain → Drain
pay b d = record d { actor = record d.actor { bucket = b } }

abbrev pub fork : WriteVerb → Taken → Ran → Drain → Drain
fork verb t result d = record d {
  written =
      d.written
      ++ (record { key = key_of t; argv = write_argv verb t.addr t.mac t.leg; result = result }
          ∷ []);
}

abbrev pub skip_past : Taken → Drain → Drain
skip_past t d = record d { actor = note_skip t.row d.actor }

-- What the write's result does.
pub settle_write : Taken → Option Why → Drain → Drain
unfolding note_write note_write_failure
settle_write t none d = record d { actor = note_write t.row d.actor }
settle_write t (some why) d =
    back t (record d { actor = note_write_failure t.row t.addr why d.actor })

-- From the spend on. Beside the state: whether the loop goes on.
pub attempt : WriteVerb → Taken → Round → Drain → Drain × Bool
unfolding settle_write
attempt verb t r d =
    let (paid, is_paid) = spend r.spend_at d.actor.bucket in
    if is_paid
    then (settle_write t (failure r.write_ran) (fork verb t r.write_ran (pay paid d)), true)
    else (back t (pay paid d), false)

pub sort_out : Class → Taken → Round → Drain → Drain × Bool
unfolding attempt note_skip
sort_out Class.skip t r d = (skip_past t d, true)
sort_out Class.add t r d = attempt WriteVerb.add t r d
sort_out Class.replace t r d = attempt WriteVerb.replace t r d

abbrev pub is_seen : Taken → Drain → Bool
is_seen t d = any (λ k. key_eq k (key_of t)) d.seen

-- The body of the loop, from `handled += 1` on.
pub handle : KernelNeighbors → Taken → Round → Drain → Drain × Bool
unfolding sort_out
handle doc t r d =
    if is_seen t d then (back t d, true) else sort_out (classify t.leg t.addr doc) t r (see t d)

-- The take, and what it dropped.
pub take_for : Round → Drain → Drain × Option Taken
unfolding claims
take_for r d =
    let (g, next) = take_next_dirty r.take_at (claims r.arrived d.actor.table) in
    (
      record d { actor = record d.actor { table = g }; dropped = d.dropped ++ next.expired },
      next.taken,
    )

-- The loop, with how many more entries may be handled; `world` gives each its round.
pub drain : ℕ → KernelNeighbors → (ℕ → Round) → Drain → Drain
unfolding handle take_for
drain zero doc world d = d
drain (suc left) doc world d =
    let (d', taken) = take_for (world left) d in
    elim taken [
      | none ↦ d'
      | some t ↦
          let (d'', goes_on) = handle doc t (world left) d' in
          let rest = drain left doc world d'' in if goes_on then rest else d''
    ]

abbrev pub and_row : List String → Option String → List String
and_row rows none = rows
and_row rows (some row) = rows ++ (row ∷ [])

-- The loop over `put_back`: the table, and the rows dropped. Relays may claim before each turn, since
-- each call takes the table's lock by itself.
pub re_dirty_all : List Key → ℕ → (ℕ → List Claim) → Inner → List String → Inner × List String
unfolding claims
re_dirty_all [] now between g dropped = (g, dropped)
re_dirty_all (k ∷ ks) now between g dropped =
    let (g', woke, gone) = re_dirty k.0 k.1 now (claims (between (length ks)) g) in
    re_dirty_all ks now between g' (and_row dropped gone)

-- What follows the loop.
pub finish : ℕ → (ℕ → List Claim) → Drain → FlushActor
unfolding re_dirty_all
finish now between d =
    let (g, dropped) = re_dirty_all d.put_back now between d.actor.table d.dropped in
    note_expiries dropped now (record d.actor { table = g })

pub data Batch : Type 0 where
  idle read_failed drained : Batch

-- What a batch meets: the rounds of its wait, the read's result, the rounds of its drain, the claims
-- before each key is put back, by the keys that are left after it, and the instant of the end.
pub record BatchIo : Type 0 where
  pub waits : List (ℕ × ℕ)
  pub read_ran : Ran
  pub rounds : ℕ → Round
  pub between : ℕ → List Claim
  pub end_at : ℕ

abbrev pub started : FlushActor → Drain
started a = record { actor = a; seen = []; put_back = []; dropped = []; written = [] }

-- `1 + min(depth, B - 1)`.
abbrev pub wanted : ℕ → ℕ
wanted depth = 1 + min depth (burst - 1)

-- The drain of a batch, its document read.
pub drain_batch : KernelNeighbors → BatchIo → FlushActor → Drain
unfolding drain
drain_batch doc io a = drain (burst - 1) doc io.rounds (started a)

-- From the read on.
pub with_read : BatchIo → FlushActor × Option KernelNeighbors → FlushActor × Batch
unfolding drain_batch finish
with_read io (a, none) = (a, read_failed)
with_read io (a, some doc) = (finish io.end_at io.between (drain_batch doc io a), drained)

pub after_wait : (String → Option (List Element)) → BatchIo → FlushActor → FlushActor × Batch
unfolding with_read
after_wait read_json io a = with_read io (read_kernel read_json io.read_ran a)

-- No result: the rounds of the wait were too few.
pub run_batch :
    (String → Option (List Element)) → BatchIo → FlushActor → Option (FlushActor × Batch)
unfolding after_wait
run_batch read_json io a =
    if dirty_depth a.table == 0
    then some (a, idle)
    else elim (wait_and_spend io.waits (wanted (dirty_depth a.table)) a.bucket) [
      | none ↦ none
      | some b ↦ some (after_wait read_json io (record a { bucket = b }))
    ]
