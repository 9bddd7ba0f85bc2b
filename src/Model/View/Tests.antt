-- ===== src/Model/View/Tests.antt =====
-- The small fabric as its second host sees it (src/derive.rs).
use Prim.Native.String.{String}
use cfab.Prelude.{◌≡◌, refl, inl, inr, true, false, List, [], ◌∷◌, some}
use cfab.Prelude.BTreeMap.{string_ord, pair_ord}
use cfab.Prelude.Sorting.{bool_ord, sort, dedup}
use cfab.Model.{decimal, gw_ifname, identity_ifnames, cut_to, leg_ifname}
use cfab.Model.Derive.{
  derived_order, pref_of, prefs_of, ranked_row, class_rows_from, class_rows_of, segment_cost,
  universal_cost, home_wire, cheapest, leg_at_home, fallback_row, fallback_rows_of, gw_home, gw_row,
  gw_rows_of,
}
use cfab.Model.Validate.Sample.{small, small_accepted, n2}
use cfab.Model.View.{View, Flagged, owned_forwarding, zone_ifs}
use cfab.Model.View.Guarded.{IsGuarded, owned_forwarding-IsGuarded}

abbrev seen : View
seen = record { fabric = small; member = n2 }

abbrev owned_of_n2 : List Flagged
owned_of_n2 =
    ("cfab-gw1", true)
    ∷ ("cfab-gw1-a", false)
    ∷ ("cfab-gw1-b", false)
    ∷ ("cfab-id1", false)
    ∷ ("cfab-id1-peer", false)
    ∷ ("cfab-work-vms", true)
    ∷ ("eth0", false)
    ∷ ("eth1", false)
    ∷ ("st-a", true)
    ∷ ("st-any", true)
    ∷ ("st-any-a", false)
    ∷ ("st-any-b", false)
    ∷ ("st-b", true)
    ∷ []

lists : owned_forwarding seen ≡ some owned_of_n2
unfolding owned_forwarding decimal gw_ifname identity_ifnames cut_to leg_ifname derived_order
    pref_of prefs_of ranked_row class_rows_from class_rows_of segment_cost universal_cost home_wire
    cheapest leg_at_home fallback_row fallback_rows_of gw_home gw_row gw_rows_of
lists = refl

ifs_of_store : zone_ifs seen "store" ≡ some ("st-a" ∷ "st-b" ∷ "st-any" ∷ "cfab-gw1" ∷ [])
unfolding decimal gw_ifname identity_ifnames cut_to leg_ifname derived_order pref_of prefs_of
    ranked_row class_rows_from class_rows_of segment_cost universal_cost home_wire cheapest
    leg_at_home fallback_row fallback_rows_of gw_home gw_row gw_rows_of
ifs_of_store = refl

-- Two of one name: the one that does not forward is kept.
clash :
    dedup {K = String} (sort (("eth0", true) ∷ ("br0", true) ∷ ("eth0", false) ∷ []))
    ≡ ("br0", true) ∷ ("eth0", false) ∷ []
clash = refl

owned_forwarding-IsGuarded_example :
    (out : List Flagged) × (owned_forwarding seen ≡ some out) × IsGuarded seen out
owned_forwarding-IsGuarded_example =
    owned_forwarding-IsGuarded small n2 small_accepted (inr (inl refl))
