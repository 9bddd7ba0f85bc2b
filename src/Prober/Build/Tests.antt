-- ===== src/Prober/Build/Tests.antt =====
-- The legs of the small fabric's second host (src/prober/mod.rs).
use mathlib.Core.Option
use cfab.Prelude.{◌≡◌, refl, inl, inr, false, List, [], ◌∷◌, map, some, All, arith}
use cfab.Prelude.Ipv4.{from_str}
use cfab.Model.{decimal, gw_ifname}
use cfab.Model.Derive.{
  FallbackRow, derived_order, pref_of, prefs_of, ranked_row, class_rows_from, class_rows_of,
  segment_cost, universal_cost, home_wire, cheapest, leg_at_home, fallback_row, fallback_rows_of,
  gw_home, gw_row, gw_rows_of,
}
use cfab.Model.Validate.Sample.{small, small_accepted, n2}
use cfab.Model.View.{View}
use cfab.Prober.Passive.{from_ospf}
use cfab.Prober.Leg.State.{Fallback, ingress, fallback, Leg, new}
use cfab.Prober.Build.{Prober, from_view}
use cfab.Prober.Build.Asked.{Told}
use cfab.Prober.Build.Built.{Served, from_view-Told}

abbrev seen : View
seen = record { fabric = small; member = n2 }

-- The first host is the peer: 10.1.0.1, asked at 10.1.3.1.
abbrev asked : Fallback
asked = record {
  targets = (10 ∷ 1 ∷ 3 ∷ 1 ∷ []) ∷ [];
  peers = 167837697 ∷ [];
  self_rid = 167837698;
  windows = from_ospf 1 3;
  quiet_now = false;
  noted_quiet = false;
  noted_deaf = false;
  engine_sock = "/run/cfab/engine.sock";
  noted_engine_unreadable = false;
}

builds :
    Option.map (λ (p : Prober). map (λ (l : Leg). l.kind) p.legs) (from_view seen)
    ≡ some (ingress (192 ∷ 168 ∷ 249 ∷ 254 ∷ []) ∷ fallback asked ∷ [])
unfolding from_view from_str new decimal gw_ifname derived_order pref_of prefs_of ranked_row
    class_rows_from class_rows_of segment_cost universal_cost home_wire cheapest leg_at_home
    fallback_row fallback_rows_of gw_home gw_row gw_rows_of
builds = refl

from_view-Told_example :
    (p : Prober) × (rows : List FallbackRow) × (from_view seen ≡ some p)
    × (fallback_rows_of small n2 ≡ some rows)
    × All (Served small p.legs) rows
    × All (λ (l : Leg). Told seen l l.kind) p.legs
from_view-Told_example =
    from_view-Told small n2 small_accepted (inr (inl refl)) (omega arith, (omega arith, tt))
