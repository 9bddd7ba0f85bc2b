-- ===== src/Model/Validate/Tests.antt =====
-- Runs on a fabric of two hosts (src/model.rs, src/derive.rs).
use Prim.Native.String.{String}
use cfab.Prelude.{
  ◌≡◌, ◌≢◌, In, subst, sym, List, some, refl, inl, inr, Bool, true, false, [], ◌∷◌, arith,
}
use cfab.Prelude.BTreeMap.{get, string_ord, key_eq_iff}
use cfab.Model.{Member, Segment, on_domain, segment_addr}
use cfab.Model.Derive.{
  ClassRow, derived_order, pref_of, prefs_of, ranked_row, class_rows_from, class_rows_of,
  fallback_rows_of, gw_rows_of, segment_cost, universal_cost, home_wire, cheapest, leg_at_home,
  fallback_row,
}
use cfab.Prelude.Gives.{some-Gives}
use cfab.Model.Paths.Costs.{Fits}
use cfab.Model.Paths.Kept.{stay}
use cfab.Model.Paths.Unique.{EndsShortest}
use cfab.Model.Paths.Once.{accepted_reach_once}
use cfab.Model.Paths.Shortest.{IsShortest, explore-IsShortest}
use cfab.Model.Paths.{
  Edge, rounds, begin, edges_to, edges_of, edges, nearest, improve, relax, relax_all, visit,
  explore,
}
use cfab.Model.Derive.Total.{Yields, accepted-Yields}
use cfab.Model.Derive.Ladder.{cost_tells}
use cfab.Model.Validate.Sample.{store, vms, small, small_accepted, n1, n2}
use cfab.Model.Validate.Apart.{address_tells, workloads_apart}

accepted-Yields_example :
    Yields (class_rows_of small n2)
    × Yields (fallback_rows_of small n2)
    × Yields (gw_rows_of small n2)
    × Yields (universal_cost small "store")
accepted-Yields_example = accepted-Yields small n2 "store" small_accepted (inr (inl refl))

-- The first host's rows: its wire on the primary domain is ranked first.
abbrev first_row : ClassRow
first_row = record {
  ifname = "st-a";
  wire = "eth0";
  zone = "store";
  seg = 1;
  vid = 101;
  ospf_cost = 100;
}

abbrev second_row : ClassRow
second_row = record {
  ifname = "st-b";
  wire = "eth1";
  zone = "store";
  seg = 2;
  vid = 102;
  ospf_cost = 10;
}

cost_tells_example : second_row ≡ second_row
unfolding class_rows_of class_rows_from ranked_row prefs_of pref_of derived_order
cost_tells_example =
    cost_tells small n1 (first_row ∷ second_row ∷ []) second_row second_row small_accepted
      (ground arith) refl (inr (inl refl)) (inr (inl refl)) refl refl

abbrev second_segment : Segment
second_segment = record {
  ifname = "st-b";
  scope = on_domain "b";
  zone = "store";
  seg = 2;
  vid = 102;
}

address_tells_example : (second_segment ≡ second_segment) × (store ≡ store) × (n2 ≡ n2)
address_tells_example =
    address_tells small second_segment second_segment store store n2 n2 small_accepted
      (inr (inl refl)) (inr (inl refl)) refl refl (inr (inl refl)) (inr (inl refl)) (omega arith)
      refl

workloads_apart_example : 3232240700 ≢ segment_addr store 2 n1
workloads_apart_example =
    workloads_apart small vms store 2 3232240700 n1 small_accepted (inl refl) (inl refl)
      (omega arith) refl

names_differ : n1.name ≢ n2.name
names_differ same =
    let bad : ◌≡◌ {A = Bool} false true = (key_eq_iff {K = String} "n1" "n2").1 same in
    absurd (ground (arith, bad))

-- Two links of one pair of hosts.
abbrev links : List Edge
links =
    record { start = "n1"; to = "n2"; cost = 100; ifname = "st-a" }
    ∷ record { start = "n1"; to = "n2"; cost = 10; ifname = "st-b" }
    ∷ []

reaches_over_ten :
    explore (rounds links) small "n1" links (begin "n1")
    ≡ some (record {
      dist = ("n1", 0) ∷ ("n2", 10) ∷ [];
      count = ("n1", 1) ∷ ("n2", 1) ∷ [];
      done = "n2" ∷ "n1" ∷ [];
    })
unfolding nearest improve relax relax_all visit explore
reaches_over_ten = refl

-- The graph of the zone.
abbrev graph : List Edge
graph =
    record { start = "n1"; to = "n2"; cost = 100; ifname = "st-a" }
    ∷ record { start = "n1"; to = "n2"; cost = 10; ifname = "st-b" }
    ∷ record { start = "n1"; to = "n2"; cost = 300; ifname = "st-any" }
    ∷ record { start = "n2"; to = "n1"; cost = 10; ifname = "st-a" }
    ∷ record { start = "n2"; to = "n1"; cost = 100; ifname = "st-b" }
    ∷ record { start = "n2"; to = "n1"; cost = 300; ifname = "st-any" }
    ∷ []

store_graph : edges small "store" ≡ some graph
unfolding derived_order pref_of prefs_of ranked_row class_rows_from class_rows_of segment_cost
    universal_cost home_wire cheapest leg_at_home fallback_row fallback_rows_of edges_to edges_of
    edges
store_graph = refl

abbrev cheap : Edge
cheap = record { start = "n1"; to = "n2"; cost = 10; ifname = "st-b" }

ten-IsShortest : IsShortest small "n1" graph "n2" 10
unfolding nearest improve relax relax_all visit explore
ten-IsShortest =
    let (s, run, there) =
      explore-IsShortest small "n1" graph 300 "n2" 10 (ground arith) (omega arith) in
    let dist : get "n2" s.dist ≡ some 10 = ground (arith, run) in there.0 dist

cheap-EndsShortest : EndsShortest small "n1" graph "n2" cheap
cheap-EndsShortest = record {
  before = 0;
  route = stay;
  leads = refl;
  listed = inr (inl refl);
  its_end = refl;
  shortest = ten-IsShortest;
}

n1-Fits : Fits 300 small n1
unfolding derived_order pref_of prefs_of ranked_row class_rows_from class_rows_of segment_cost
    universal_cost home_wire cheapest leg_at_home fallback_row fallback_rows_of
n1-Fits = (some-Gives _ _ (omega arith, (omega arith, tt)), some-Gives _ _ (omega arith, tt))

n2-Fits : Fits 300 small n2
unfolding derived_order pref_of prefs_of ranked_row class_rows_from class_rows_of segment_cost
    universal_cost home_wire cheapest leg_at_home fallback_row fallback_rows_of
n2-Fits = (some-Gives _ _ (omega arith, (omega arith, tt)), some-Gives _ _ (omega arith, tt))

small-Fits : (m : Member) → In m small.members → Fits 300 small m
small-Fits m (inl e) = subst (Fits 300 small) e n1-Fits
small-Fits m (inr (inl e)) = subst (Fits 300 small) e n2-Fits
small-Fits m (inr (inr i)) = absurd i

accepted_reach_once_example : cheap ≡ cheap
accepted_reach_once_example =
    accepted_reach_once small store graph 300 n1 "n2" cheap cheap small_accepted (inl refl)
      (inl refl) store_graph small-Fits (omega arith) (λ same. names_differ (sym same))
      cheap-EndsShortest cheap-EndsShortest
