-- ===== src/Workload/Report.antt =====
-- What the flush actor publishes for the metrics: `NeighborRowInfo`, `NeighborActorInfo`
-- (src/supervisor/report.rs), and the part of `Shared` that holds them (src/supervisor/mod.rs).
use Prim.Native.String.{String}
use cfab.Prelude.{ℕ, List, Option, some}

pub record NeighborRowInfo : Type 0 where
  pub name : String
  pub table_size : ℕ
  pub writes : ℕ
  pub write_failures : ℕ
  pub read_failures : ℕ
  pub cap_refusals : ℕ
  pub expiries : ℕ
  pub skips : ℕ

-- The age in nanoseconds.
pub record NeighborActorInfo : Type 0 where
  pub dirty_depth : ℕ
  pub oldest_dirty_age : Option ℕ
  pub token_level : ℕ

-- `neighbor_rows` and `neighbor` of `Shared`.
pub record Shared : Type 0 where
  pub neighbor_rows : List NeighborRowInfo
  pub neighbor : Option NeighborActorInfo

abbrev pub publish_neighbor : List NeighborRowInfo → NeighborActorInfo → Shared → Shared
publish_neighbor rows info s = record s { neighbor_rows = rows; neighbor = some info }
