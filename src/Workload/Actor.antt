-- ===== src/Workload/Actor.antt =====
-- The flush actor, `FlushActor` of src/workload/actor.rs: the one task that writes the kernel's
-- neighbor entries. Its state has the shared table's, since every method of the table runs whole
-- under the mutex, and what the relays claim in between is given to the rounds that follow. The
-- lines it journals are kept, the newest last. Counters do not wrap.
pub mod Batch
pub mod Notes
pub mod Waits
pub mod Lines
pub mod Failed
pub mod Publish
pub mod Sweep
mod Tests
use Prim.Native.String.{String}
use mathlib.Core.Option
use cfab.Prelude.{
  ℕ, ◌+◌, ◌-◌, ◌*◌, Bool, true, false, not, ◌&&◌, List, [], ◌∷◌, ◌++◌, map, Option, none, some, leb,
  if◌then◌else◌, filter, length, any,
}
use cfab.Prelude.BTreeMap.{string_ord, key_eq, get, insert, remove}
use cfab.Workload.Table.{Inner, is_none}
use cfab.Workload.Bucket.{Bucket, wait_for, spend}
use cfab.Workload.Bucket
use cfab.Workload.Report.{Shared}
use cfab.Workload.Kernel.{Element, KernelNeighbors, Ran, ran, failed, ok, parse}

-- In nanoseconds: 15 seconds and a minute.
abbrev pub sweep_period : ℕ
sweep_period = 15000000000

abbrev pub expiry_log_window : ℕ
expiry_log_window = 60000000000

pub record Counts : Type 0 where
  pub read_failures : ℕ
  pub writes : ℕ
  pub write_failures : ℕ
  pub skips : ℕ
  pub expiries : ℕ

pub record RowCounts : Type 0 where
  pub writes : ℕ
  pub write_failures : ℕ
  pub skips : ℕ
  pub expiries : ℕ

-- Why a call of `ip` did not do: its exit, its document, or that it was not run.
pub data Why : Type 0 where
  exited : ℕ → String → Why
  unreadable : Why
  not_run : String → Why

-- A line for the journal: what the text says.
pub data Line : Type 0 where
  read_failed : Why → Line
  write_failed : String → ℕ → Why → Line
  expired : ℕ → List String → Line

pub record FlushActor : Type 0 where
  pub table : Inner
  pub bucket : Bucket
  pub read_failing : Bool
  pub write_failing : List (String × Unit {0})
  pub expiring : List (String × ℕ)
  pub next_sweep : ℕ
  pub counts : Counts
  pub per_row : List (String × RowCounts)
  pub journal : List Line
  pub shared : Option Shared

abbrev pub no_counts : Counts
no_counts = record { read_failures = 0; writes = 0; write_failures = 0; skips = 0; expiries = 0 }

abbrev pub no_row_counts : RowCounts
no_row_counts = record { writes = 0; write_failures = 0; skips = 0; expiries = 0 }

abbrev pub with_observer : Inner → ℕ → FlushActor
with_observer table now = record {
  table = table;
  bucket = Bucket.new now;
  read_failing = false;
  write_failing = [];
  expiring = [];
  next_sweep = now + sweep_period;
  counts = no_counts;
  per_row = [];
  journal = [];
  shared = none;
}

abbrev pub with_shared : Shared → FlushActor → FlushActor
with_shared s a = record a { shared = some s }

-- `per_row.entry(row).or_default()`, changed.
abbrev pub row_counts : String → List (String × RowCounts) → RowCounts
row_counts row m = Option.get_or (get row m) no_row_counts

abbrev pub credit :
    (RowCounts → RowCounts) → String → List (String × RowCounts) → List (String × RowCounts)
credit f row m = insert row (f (row_counts row m)) m

abbrev pub expire_one : RowCounts → RowCounts
expire_one c = record c { expiries = c.expiries + 1 }

pub credit_expiries : List String → List (String × RowCounts) → List (String × RowCounts)
credit_expiries [] m = m
credit_expiries (row ∷ rows) m = credit_expiries rows (credit expire_one row m)

-- `seen`: the rows in order, each once.
pub rows_of : List String → List (String × Unit {0}) → List (String × Unit {0})
rows_of [] seen = seen
rows_of (row ∷ rows) seen = rows_of rows (insert row tt seen)

-- No line yet, or one at least a full window old. `duration_since` stops at 0.
abbrev pub is_fresh : ℕ → Option ℕ → Bool
is_fresh now none = true
is_fresh now (some last) = leb expiry_log_window (now - last)

abbrev pub contains : List String → String → Bool
contains rows row = any (λ r. key_eq r row) rows

pub fresh_rows : List String → ℕ → List (String × ℕ) → List String
unfolding rows_of
fresh_rows rows now expiring =
    filter (λ row. is_fresh now (get row expiring)) (map (λ x. x.0) (rows_of rows []))

pub stamp : List String → ℕ → List (String × ℕ) → List (String × ℕ)
stamp [] now m = m
stamp (row ∷ rows) now m = stamp rows now (insert row now m)

-- The line, and the stamps, where some row is fresh.
pub say_expired : List String → List String → ℕ → FlushActor → FlushActor
unfolding stamp
say_expired [] rows now a = a
say_expired (f ∷ fresh) rows now a = record a {
  expiring = stamp (f ∷ fresh) now a.expiring;
  journal = a.journal ++ (expired (length (filter (contains (f ∷ fresh)) rows)) (f ∷ fresh) ∷ []);
}

pub note_expiries : List String → ℕ → FlushActor → FlushActor
unfolding credit_expiries fresh_rows say_expired
note_expiries rows now a = say_expired (fresh_rows rows now a.expiring) rows now (record a {
  per_row = credit_expiries rows a.per_row;
  counts = record a.counts { expiries = a.counts.expiries + length rows };
})

-- The loop of `wait_and_spend`. A round has the instant of the decision and that of the spend; the
-- sleep stands between it and the next. No result: the rounds that were given did not do.
pub wait_and_spend : List (ℕ × ℕ) → ℕ → Bucket → Option Bucket
wait_and_spend [] want b = none
wait_and_spend ((decide_at, spend_at) ∷ rounds) want b =
    let (b', wait) = wait_for decide_at want b in
    let (paid, is_paid) = spend spend_at b' in
    let slept = wait_and_spend rounds want b' in
    let again = wait_and_spend rounds want paid in
    if leb wait 0 then (if is_paid then some paid else again) else slept

-- The document of a call, or why there is none.
pub data Read : Type 0 where
  read : KernelNeighbors → Read
  unread : Why → Read

abbrev pub parsed : Option KernelNeighbors → Read
parsed none = unread unreadable
parsed (some doc) = read doc

pub read_result : (String → Option (List Element)) → Ran → Read
read_result read_json (ran o) =
    if ok o then parsed (parse read_json o.stdout) else unread (exited o.status o.stderr)
read_result read_json (failed e) = unread (not_run e)

pub note_read : Read → FlushActor → FlushActor × Option KernelNeighbors
note_read (read doc) a = (record a { read_failing = false }, some doc)
note_read (unread why) a = (
  record a {
    counts = record a.counts { read_failures = a.counts.read_failures + 1 };
    read_failing = true;
    journal = if a.read_failing then a.journal else a.journal ++ (read_failed why ∷ []);
  },
  none,
)

pub read_kernel :
    (String → Option (List Element)) → Ran → FlushActor → FlushActor × Option KernelNeighbors
unfolding read_result note_read
read_kernel read_json r a = note_read (read_result read_json r) a
