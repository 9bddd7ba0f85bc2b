-- ===== src/Workload/Actor/Publish.antt =====
-- `FlushActor::publish` of src/workload/actor.rs: the actor's counters and the table's sizes, row by
-- row, for the metrics. No result is a panic: an `unwrap` of a row that is not there.
pub mod Filled
pub mod Joined
pub mod Total
mod Tests
use Prim.Native.String.{String}
use mathlib.Core.Option
use cfab.Prelude.{ℕ, List, [], ◌∷◌, ◌++◌, map, Option, none, some, ◌>>=◌}
use cfab.Prelude.BTreeMap.{string_ord, get, insert, update}
use cfab.Workload.Table.{row_sizes, dirty_depth, oldest_dirty_age}
use cfab.Workload.Bucket.{level}
use cfab.Workload.Report.{NeighborRowInfo, NeighborActorInfo, Shared, publish_neighbor}
use cfab.Workload.Actor.{RowCounts, FlushActor}
use cfab.Workload.Actor.Batch.{Claim, claims}

-- `..Default::default()`.
abbrev pub unfilled : String → NeighborRowInfo
unfilled name = record {
  name = name;
  table_size = 0;
  writes = 0;
  write_failures = 0;
  read_failures = 0;
  cap_refusals = 0;
  expiries = 0;
  skips = 0;
}

-- `entry(name).or_insert_with(..)`.
abbrev pub or_insert :
    String
    → Option NeighborRowInfo
    → List (String × NeighborRowInfo)
    → List (String × NeighborRowInfo)
or_insert name none m = insert name (unfilled name) m
or_insert name (some r) m = m

abbrev pub name_all :
    List String → List (String × NeighborRowInfo) → List (String × NeighborRowInfo)
name_all [] m = m
name_all (name ∷ names) m = name_all names (or_insert name (get name m) m)

-- A loop over one of the maps: each of its rows is looked up, and must be there.
abbrev pub fill :
    {A : Type 0}
    → (A → NeighborRowInfo → NeighborRowInfo)
    → List (String × A)
    → List (String × NeighborRowInfo)
    → Option (List (String × NeighborRowInfo))
fill f [] m = some m
fill f ((name, a) ∷ rows) m = get name m >>= λ r. fill f rows (update name (f a r) m)

abbrev pub with_size : ℕ → NeighborRowInfo → NeighborRowInfo
with_size n r = record r { table_size = n }

abbrev pub with_refusals : ℕ → NeighborRowInfo → NeighborRowInfo
with_refusals n r = record r { cap_refusals = n }

abbrev pub with_counts : RowCounts → NeighborRowInfo → NeighborRowInfo
with_counts c r = record r {
  writes = c.writes;
  write_failures = c.write_failures;
  skips = c.skips;
  expiries = c.expiries;
}

abbrev pub names : {A : Type 0} → List (String × A) → List String
names m = map (λ e. e.0) m

-- The rows' map, once the three loops are through.
unfoldable pub joined :
    List (String × ℕ)
    → List (String × ℕ)
    → List (String × RowCounts)
    → Option (List (String × NeighborRowInfo))
joined sizes refusals per_row =
    fill with_size sizes (name_all (names sizes ++ names refusals ++ names per_row) []) >>= λ m.
    fill with_refusals refusals m >>= λ m. fill with_counts per_row m

abbrev pub with_read_failures : ℕ → NeighborRowInfo → NeighborRowInfo
with_read_failures n r = record r { read_failures = n }

-- What publishing meets: the claims between the calls of the table, and its instant.
pub record PublishIo : Type 0 where
  pub before_sizes : List Claim
  pub before_refusals : List Claim
  pub before_depth : List Claim
  pub before_age : List Claim
  pub now : ℕ

-- The actor behind a publication of the rows `m`.
abbrev pub published :
    PublishIo → Shared → List (String × NeighborRowInfo) → FlushActor → FlushActor
published io shared m a =
    let g = claims io.before_depth (claims io.before_refusals (claims io.before_sizes a.table)) in
    let g' = claims io.before_age g in
    let (bucket, tokens) = level io.now a.bucket in
    record a {
      table = g';
      bucket = bucket;
      shared = some (
          publish_neighbor
            (map (λ (e : String × NeighborRowInfo). with_read_failures a.counts.read_failures e.1)
              m)
            (record {
              dirty_depth = dirty_depth g;
              oldest_dirty_age = oldest_dirty_age io.now g';
              token_level = tokens;
            })
            shared);
    }

abbrev pub publish_to : PublishIo → Option Shared → FlushActor → Option FlushActor
publish_to io none a = some a
publish_to io (some shared) a =
    let g = claims io.before_sizes a.table in
    Option.map (λ m. published io shared m a)
      (joined (row_sizes g) (claims io.before_refusals g).cap_refusals a.per_row)

unfoldable pub publish : PublishIo → FlushActor → Option FlushActor
publish io a = publish_to io a.shared a
