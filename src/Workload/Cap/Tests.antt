-- ===== src/Workload/Cap/Tests.antt =====
-- Caps of a /24 on a stock kernel, and of a /16 (src/workload/table.rs).
use cfab.Prelude.{◌*◌, ◌/◌, ◌≤◌, ◌≡◌, refl}
use cfab.Workload.Cap.{gc_thresh3_default, CapSource, prefix_hosts, for_prefix}
use cfab.Workload.Cap.Bounds.{rows_share_half}

abbrev stock : CapSource
stock = record { thresh = 1024; rows = 3 }

abbrev lowered : CapSource
lowered = record { thresh = 512; rows = 3 }

cap_of_24 : (for_prefix stock 24).value ≡ 170
unfolding for_prefix prefix_hosts
cap_of_24 = refl

rows_share_half_example :
    (3 * (for_prefix stock 16).value ≤ 1024 / 2)
    × (3 * (for_prefix stock 16).value ≤ gc_thresh3_default / 2)
    × ((for_prefix stock 16).value ≤ prefix_hosts 16)
rows_share_half_example = rows_share_half stock 16
