-- ===== src/Model/Resolve/Tests.antt =====
-- The declaration of the two hosts, and what is refused of others (src/model.rs).
use Prim.Native.String.{String}
use cfab.Prelude.Text.{split_once, split, parse_u8}
use cfab.Prelude.Ipv4.{from_str}
use cfab.Prelude.{ℕ, ◌≡◌, refl, inl, inr, true, List, [], ◌∷◌, none, some, All}
use cfab.Prelude.Results.{ok, err}
use cfab.Model.{cs2, host, universal, gw_ifname, leg_ifname}
use cfab.Model.Prefix.{parse_ipv4_with_len, parse_prefix}
use cfab.Model.Decl.{MemberDecl, Declaration}
use cfab.Model.Derive.{
  FallbackRow, GwRow, derived_order, pref_of, prefs_of, ranked_row, class_rows_from, class_rows_of,
  segment_cost, universal_cost, home_wire, cheapest, leg_at_home, fallback_row, fallback_rows_of,
  gw_home, gw_row, gw_rows_of,
}
use cfab.Model.Validate.Sample.{vms, small, small_accepted, n2}
use cfab.Model.Resolve.{
  resolve_wire, resolve_address, resolve_member, resolve_gw, resolve_segment, resolve_zone,
  resolve_workload, resolve_row, resolve, parse_domain, parse_scope, loaded, from_decl, bad_router,
}
use cfab.Model.Resolve.Fits.{Short, LegFits, GwFits}
use cfab.Model.Resolve.Calm.{Returns, from_decl-Returns}
use cfab.Model.Resolve.Names.{made_names_fit}

abbrev declared_member : String → ℕ → String → List (String × List String) → MemberDecl
declared_member name node address prefs = record {
  name = name;
  node = node;
  kind = host;
  wires =
      record { nic = "eth0"; domain = "a"; speed_mbps = 10000; driver_features = none; usb = none }
      ∷ record { nic = "eth1"; domain = "b"; speed_mbps = 1000; driver_features = none; usb = none }
      ∷ [];
  prefs = prefs;
  workloads = record { name = "vms"; address = address } ∷ [];
}

abbrev declared : Declaration
declared = record {
  dns_domain = "fabric.example";
  domains = ("a", "the left switch") ∷ ("b", "the right switch") ∷ [];
  members =
      declared_member "n1" 1 "192.168.20.1/24" []
      ∷ declared_member "n2" 2 "192.168.20.2/24" (("store", "eth0" ∷ "eth1" ∷ []) ∷ [])
      ∷ [];
  zones =
      record {
        name = "store";
        id = 1;
        pcp = 3;
        dscp = cs2;
        floor_mbps = 100;
        band = 1;
        weight = 1;
        primary = "b";
        segments =
            record { ifname = "st-a"; domain = "a"; seg = 1; vid = 101 }
            ∷ record { ifname = "st-b"; domain = "b"; seg = 2; vid = 102 }
            ∷ [];
        universal = some (record { ifname = "st-any"; seg = 3; vid = 103 });
        gw = some (record { domain = "any"; vid = 200; router = "192.168.249.254/24" });
      }
      ∷ [];
  workload =
      record {
        name = "vms";
        uplink = "br0";
        vid = 20;
        prefix = "192.168.20.0/24";
        gw = "192.168.20.254";
        dhcp_server = none;
        allow = "store" ∷ [];
        router = none;
        span = none;
      }
      ∷ [];
  forward = record { enabled = true; allow = [] };
  admin = none;
  marking = none;
  cost = some (record { leaf_offset = 10000 });
  bfd = none;
  ospf = none;
  bgp = none;
  runtime = none;
}

resolves : resolve declared ≡ ok small
unfolding resolve resolve_wire resolve_address resolve_member resolve_gw resolve_segment
    resolve_zone resolve_workload resolve_row parse_domain parse_scope parse_ipv4_with_len
    parse_prefix from_str split_once split parse_u8
resolves = refl

-- A part of the router's address may have a sign.
signed_octet :
    resolve_gw "store" (record { domain = "any"; vid = 200; router = "192.168.249.+254/24" })
    ≡ ok (record { scope = universal; vid = 200; router = "192.168.249.+254" })
unfolding resolve_gw parse_scope split_once split parse_u8
signed_octet = refl

five_octets :
    resolve_gw "store" (record { domain = "any"; vid = 200; router = "192.168.249.2.54/24" })
    ≡ err (bad_router "store")
unfolding resolve_gw parse_scope split_once split parse_u8
five_octets = refl

loads : from_decl declared ≡ loaded small
unfolding from_decl
loads = rw (resolves, small_accepted) refl

abbrev legs_of_n2 : List FallbackRow
legs_of_n2 =
    record {
      ifname = "st-any";
      zone = "store";
      seg = 3;
      vid = 103;
      ospf_cost = 300;
      home = "eth0";
      ports =
          record { ifname = "st-any-a"; wire = "eth0" }
          ∷ record { ifname = "st-any-b"; wire = "eth1" }
          ∷ [];
    }
    ∷ []

abbrev gws_of_n2 : List GwRow
gws_of_n2 =
    record {
      ifname = "cfab-gw1";
      home = "eth0";
      zone = "store";
      vid = 200;
      ports =
          record { ifname = "cfab-gw1-a"; wire = "eth0" }
          ∷ record { ifname = "cfab-gw1-b"; wire = "eth1" }
          ∷ [];
    }
    ∷ []

has_legs : fallback_rows_of small n2 ≡ some legs_of_n2
unfolding fallback_rows_of cheapest leg_at_home fallback_row home_wire class_rows_of class_rows_from
    ranked_row segment_cost universal_cost pref_of prefs_of derived_order
has_legs = refl

has_gws : gw_rows_of small n2 ≡ some gws_of_n2
unfolding gw_rows_of gw_home gw_row cheapest leg_at_home home_wire class_rows_of class_rows_from
    ranked_row segment_cost universal_cost pref_of prefs_of derived_order gw_ifname
has_gws = refl

from_decl-Returns_example : Returns (from_decl declared)
from_decl-Returns_example = from_decl-Returns declared

made_names_fit_example : All LegFits legs_of_n2 × All GwFits gws_of_n2 × Short (leg_ifname vms)
made_names_fit_example =
    made_names_fit declared small n2 legs_of_n2 gws_of_n2 vms loads (inr (inl refl)) has_legs
      has_gws
