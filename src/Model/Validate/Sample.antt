-- ===== src/Model/Validate/Sample.antt =====
-- A fabric of two hosts on two switch domains, with a workload row (src/model.rs, src/derive.rs).
use Prim.Native.String.{String}
use cfab.Prelude.{ℕ, ◌+◌, ◌≡◌, some, refl, true, [], ◌∷◌, none}
use cfab.Prelude.Text.{rsplit_once, parse_u8}
use cfab.Prelude.BTreeMap.{string_ord}
use cfab.Model.{
  cs2, octet_behind, on_domain, universal, host, Member, MemberWorkload, Zone, Workload, Fabric,
  decimal, identity_ifnames, gw_ifname, cut_to, leg_ifname,
}
use cfab.Model.Checks.{pass, ◌>>◌, refuse_if}
use cfab.Model.Rows.{
  collides, check_server, check_row, check_rows, check_member_row, check_member_rows, addresses_on,
  check_addresses,
}
use cfab.Model.Derive.{
  derived_order, pref_of, prefs_of, ranked_row, class_rows_from, class_rows_of, fallback_rows_of,
  segment_cost, universal_cost, home_wire, cheapest, leg_at_home, fallback_row,
}
use cfab.Model.Paths.{
  edges_to, edges_of, edges, nearest, improve, relax, relax_all, visit, explore,
  check_no_equal_cost_paths,
}
use cfab.Model.Derived.{
  find_reaching, check_order, check_universal_cost, check_rank0_is_shared, validate_derived,
}
use cfab.Model.Validate.{
  check_member_wires, check_domains, check_segments, check_zones, check_members, check_order_of,
  check_wire_pref, check_wire_prefs, check_forward_allow, check_gw, validate,
}

abbrev pub on_row : ℕ → MemberWorkload
on_row a = record { name = "vms"; address = a; len = 24 }

abbrev pub member_of : String → ℕ → Member
member_of name node = record {
  name = name;
  node = node;
  kind = host;
  wires =
      record { name = "eth0"; domain = "a"; speed_mbps = 10000 }
      ∷ record { name = "eth1"; domain = "b"; speed_mbps = 1000 }
      ∷ [];
  workloads = on_row (3232240640 + node) ∷ [];
}

abbrev pub store : Zone
store = record {
  name = "store";
  id = 1;
  pcp = 3;
  dscp = cs2;
  floor_mbps = 100;
  band = 1;
  weight = 1;
  primary = "b";
  gw = some (record { scope = universal; vid = 200; router = "192.168.249.254" });
}

abbrev pub vms : Workload
vms = record {
  name = "vms";
  uplink = "br0";
  vid = 20;
  prefix = record { net = 3232240640; len = 24 };
  gw = 3232240894;
  dhcp_server = none;
  allow = "store" ∷ [];
}

-- The zone's two segments, and the second host's own order of its wires.
abbrev pub small : Fabric
small = record {
  domains = "a" ∷ "b" ∷ [];
  members = member_of "n1" 1 ∷ member_of "n2" 2 ∷ [];
  zones = store ∷ [];
  segments =
      record { ifname = "st-a"; scope = on_domain "a"; zone = "store"; seg = 1; vid = 101 }
      ∷ record { ifname = "st-b"; scope = on_domain "b"; zone = "store"; seg = 2; vid = 102 }
      ∷ record { ifname = "st-any"; scope = universal; zone = "store"; seg = 3; vid = 103 }
      ∷ [];
  wire_prefs = record { member = "n2"; zone = "store"; order = "eth0" ∷ "eth1" ∷ [] } ∷ [];
  leaf_cost_offset = 10000;
  host_forward = true;
  forward_allow = [];
  admin_floor_mbps = 100;
  admin_band = 1;
  pcp_ctrl = 6;
  dscp_mark = true;
  bfd_rx_ms = 250;
  bfd_tx_ms = 250;
  bfd_mult = 3;
  bfd_port = 3784;
  ospf_hello = 1;
  ospf_dead = 3;
  bgp_as = 65000;
  bgp_keepalive_s = 1;
  bgp_hold_s = 3;
  bgp_connect_s = 3;
  run_dir = "/run/cfab";
  dns_domain = "fabric.example";
  workloads = vms ∷ [];
}

pub small_accepted : validate small ≡ pass
unfolding validate rsplit_once parse_u8 octet_behind check_member_wires check_domains check_segments
    check_zones check_members check_order_of check_wire_pref check_wire_prefs check_forward_allow
    check_gw ◌>>◌ refuse_if collides check_server check_row check_rows check_member_row
    check_member_rows addresses_on check_addresses derived_order pref_of prefs_of ranked_row
    class_rows_from class_rows_of segment_cost universal_cost home_wire cheapest leg_at_home
    fallback_row fallback_rows_of edges_to edges_of edges nearest improve relax relax_all visit
    explore check_no_equal_cost_paths find_reaching check_order check_universal_cost
    check_rank0_is_shared validate_derived decimal identity_ifnames gw_ifname cut_to leg_ifname
small_accepted = refl

abbrev pub n1 : Member
n1 = member_of "n1" 1

abbrev pub n2 : Member
n2 = member_of "n2" 2
