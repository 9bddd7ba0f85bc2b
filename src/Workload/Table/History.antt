-- ===== src/Workload/Table/History.antt =====
-- A history of calls on the neighbor table (src/workload/table.rs).
use Prim.Native.String.{String}
use cfab.Prelude.{ℕ, ◌<◌, ◌^◌, List, [], ◌∷◌}
use cfab.Workload.Cap.{RowCap}
use cfab.Workload.Table.{Mac, Inner, upsert, re_dirty, take_next_dirty, remove_expired}

-- The calls that change the table, each at the instant that its caller states.
pub data Op : Type 0 where
  upserts : String → String → ℕ → Mac → ℕ → RowCap → ℕ → Op
  re_dirties : String → ℕ → ℕ → Op
  takes expires : ℕ → Op

-- An address is a u32.
abbrev pub IsOp : Op → Type 0
IsOp (upserts row leg addr mac expires_at limit now) = addr < 2 ^ 32
IsOp (re_dirties row addr now) = Unit
IsOp (takes now) = Unit
IsOp (expires now) = Unit

unfoldable pub step : Inner → Op → Inner
step g (upserts row leg addr mac expires_at limit now) =
    (upsert row leg addr mac expires_at limit now g).0
step g (re_dirties row addr now) = (re_dirty row addr now g).0
step g (takes now) = (take_next_dirty now g).0
step g (expires now) = (remove_expired now g).0

unfoldable pub run : Inner → List Op → Inner
run g [] = g
run g (o ∷ os) = run (step g o) os
