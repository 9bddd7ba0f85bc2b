-- ===== src/Workload/Actor/Publish/Tests.antt =====
-- The rows of two workload VLANs, published (src/workload/actor.rs).
use Prim.Native.String.{String}
use cfab.Prelude.{ℕ, ◌≡◌, refl, List, [], ◌∷◌, some}
use cfab.Prelude.BTreeMap.{string_ord, get, IsMap}
use cfab.Workload.Actor.{RowCounts}
use cfab.Workload.Actor.Publish.{joined}
use cfab.Workload.Actor.Publish.Filled.{Rows}
use cfab.Workload.Actor.Publish.Joined.{joined_row, joined-get}

abbrev sizes : List (String × ℕ)
sizes = ("vms", 2) ∷ []

-- A row whose claims were all refused.
abbrev refusals : List (String × ℕ)
refusals = ("db", 7) ∷ []

abbrev per_row : List (String × RowCounts)
per_row = ("vms", record { writes = 3; write_failures = 1; skips = 5; expiries = 0 }) ∷ []

refused_only :
    joined_row "db" (get "db" sizes) (get "db" refusals) (get "db" per_row)
    ≡ some (record {
      name = "db";
      table_size = 0;
      writes = 0;
      write_failures = 0;
      read_failures = 0;
      cap_refusals = 7;
      expiries = 0;
      skips = 0;
    })
refused_only = refl

joined-get_example :
    (m : Rows) × (joined sizes refusals per_row ≡ some m)
    × IsMap m
    × ((name : String)
        → get name m ≡ joined_row name (get name sizes) (get name refusals) (get name per_row))
joined-get_example = joined-get sizes refusals per_row (refl, tt) (refl, tt) (refl, tt)
