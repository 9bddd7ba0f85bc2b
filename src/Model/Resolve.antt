-- ===== src/Model/Resolve.antt =====
-- `Fabric::from_decl` of src/model.rs and what it calls: a declaration resolved into the model, table
-- by table, with the first refusal as its result. The text of a refusal is not modelled.
pub mod Calm
pub mod Origin
pub mod Fits
pub mod Names
mod Tests
use Prim.Native.Char.{code}
use Prim.Native.String.{String, len}
use mathlib.Core.Option
use cfab.Prelude.Text
use cfab.Prelude.Ipv4
use cfab.Prelude.{
  ℕ, Bool, true, false, not, ◌&&◌, ◌||◌, List, [], ◌∷◌, ◌++◌, map, Option, none, some, ltb, leb,
  ◌==◌, any, if◌then◌else◌, length,
}
use cfab.Prelude.Results.{Result, ok, err, ok_or, ◌>>=◌, collect}
use cfab.Prelude.BTreeMap.{string_ord, key_eq}
use cfab.Model.{
  DomainId, SegScope, on_domain, universal, Wire, Member, MemberWorkload, Zone, ZoneGw, Segment,
  WirePref, Workload, Fabric, is_some,
}
use cfab.Model.Prefix.{parse_ipv4_with_len, parse_prefix}
use cfab.Model.Decl.{
  WireDecl, MemberWorkloadDecl, MemberDecl, SegmentDecl, UniversalDecl, GwDecl, ZoneDecl,
  WorkloadDecl, Declaration, AdminDecl, default_admin, MarkingDecl, default_marking, CostDecl,
  default_cost, BfdDecl, default_bfd, OspfDecl, default_ospf, BgpDecl, default_bgp, RuntimeDecl,
  default_runtime,
}
use cfab.Model.Checks.{Checked, pass, refused, panicked}
use cfab.Model.Refusals.{Refusal, Check}
use cfab.Model.Validate.{validate}

pub data DeclRefusal : Type 0 where
  bad_domain : String → DeclRefusal
  bad_wire_domain has_driver_features has_usb : String → String → DeclRefusal
  bad_member_address : String → String → DeclRefusal
  bad_segment_domain : String → String → DeclRefusal
  bad_router bad_gw_scope bad_primary : String → DeclRefusal
  has_span has_router bad_prefix bad_gw bad_dhcp_server : String → DeclRefusal
  bad_vid : String → ℕ → DeclRefusal
  bad_forward_pair : String → DeclRefusal
  bad_pcp_ctrl bad_bfd_port : ℕ → DeclRefusal

abbrev pub is_letter : ℕ → Bool
is_letter c = (leb 65 c && leb c 90) || (leb 97 c && leb c 122)

abbrev pub all_letters : String → Bool
all_letters String.[] = true
all_letters (String.◌∷◌ c s) = is_letter (code c) && all_letters s

-- `DomainId::parse`: one byte, and a letter.
unfoldable pub parse_domain : String → Option DomainId
parse_domain s = if len s == 1 && all_letters s then some s else none

-- `SegScope::parse`.
unfoldable pub parse_scope : String → Option SegScope
unfolding parse_domain
parse_scope s = if key_eq s "any" then some universal else Option.map on_domain (parse_domain s)

abbrev pub not_octets : List String → Bool
not_octets parts = not (length parts == 4) || any (λ o. not (is_some (Text.parse_u8 o))) parts

abbrev pub scoped_gw : String → GwDecl → String → Option SegScope → Result DeclRefusal ZoneGw
scoped_gw zone g router none = err (bad_gw_scope zone)
scoped_gw zone g router (some scope) = ok (record { scope = scope; vid = g.vid; router = router })

abbrev pub router_gw : String → GwDecl → String → String → Result DeclRefusal ZoneGw
router_gw zone g router size =
    if not (key_eq size "24") || not_octets (Text.split 46 router)
    then err (bad_router zone)
    else scoped_gw zone g router (parse_scope g.domain)

unfoldable pub resolve_gw : String → GwDecl → Result DeclRefusal ZoneGw
resolve_gw zone g = do
  halves ← ok_or (bad_router zone) (Text.split_once 47 g.router)
  router_gw zone g halves.0 halves.1

abbrev pub resolve_gw? : String → Option GwDecl → Result DeclRefusal (Option ZoneGw)
resolve_gw? zone none = ok none
resolve_gw? zone (some g) = resolve_gw zone g >>= λ gw. ok (some gw)

unfoldable pub resolve_wire : String → WireDecl → Result DeclRefusal Wire
resolve_wire member w = do
  domain ← ok_or (bad_wire_domain member w.nic) (parse_domain w.domain)
  if is_some w.driver_features
      then err (has_driver_features member w.nic)
      else if is_some w.usb
      then err (has_usb member w.nic)
      else ok (record { name = w.nic; domain = domain; speed_mbps = w.speed_mbps })

unfoldable pub resolve_address : String → MemberWorkloadDecl → Result DeclRefusal MemberWorkload
resolve_address member x = do
  at ← ok_or (bad_member_address member x.name) (parse_ipv4_with_len x.address)
  ok (record { name = x.name; address = at.0; len = at.1 })

unfoldable pub resolve_member : MemberDecl → Result DeclRefusal Member
resolve_member m = do
  wires ← collect (resolve_wire m.name) m.wires
  workloads ← collect (resolve_address m.name) m.workloads
  ok (record { name = m.name; node = m.node; kind = m.kind; wires = wires; workloads = workloads })

-- The overrides of one member, zone by zone.
abbrev pub prefs_declared : MemberDecl → List WirePref
prefs_declared m =
    map (λ (p : String × List String). record { member = m.name; zone = p.0; order = p.1 }) m.prefs

abbrev pub all_prefs : List MemberDecl → List WirePref
all_prefs [] = []
all_prefs (m ∷ ms) = prefs_declared m ++ all_prefs ms

unfoldable pub resolve_segment : String → SegmentDecl → Result DeclRefusal Segment
resolve_segment zone s = do
  domain ← ok_or (bad_segment_domain zone s.ifname) (parse_domain s.domain)
  ok (record { ifname = s.ifname; scope = on_domain domain; zone = zone; seg = s.seg; vid = s.vid })

abbrev pub universal_segment : String → Option UniversalDecl → List Segment
universal_segment zone none = []
universal_segment zone (some u) =
    record { ifname = u.ifname; scope = universal; zone = zone; seg = u.seg; vid = u.vid } ∷ []

-- A zone with its segments: the order of the declaration, the universal one last.
unfoldable pub resolve_zone : ZoneDecl → Result DeclRefusal (Zone × List Segment)
resolve_zone z = do
  segments ← collect (resolve_segment z.name) z.segments
  gw ← resolve_gw? z.name z.gw
  primary ← ok_or (bad_primary z.name) (parse_domain z.primary)
  ok (
    record {
      name = z.name;
      id = z.id;
      pcp = z.pcp;
      dscp = z.dscp;
      floor_mbps = z.floor_mbps;
      band = z.band;
      weight = z.weight;
      primary = primary;
      gw = gw;
    },
    segments ++ universal_segment z.name z.universal,
  )

abbrev refuse_retired_workload_keys : WorkloadDecl → Result DeclRefusal Bool
refuse_retired_workload_keys w =
    if is_some w.span
    then err (has_span w.name)
    else if is_some w.router
    then err (has_router w.name)
    else ok true

abbrev parse_server : String → Option String → Result DeclRefusal (Option ℕ)
parse_server name none = ok none
parse_server name (some s) =
    ok_or (bad_dhcp_server name) (Ipv4.from_str s) >>= λ server. ok (some server)

unfoldable pub resolve_workload : WorkloadDecl → Result DeclRefusal Workload
resolve_workload w = do
  prefix ← ok_or (bad_prefix w.name) (parse_prefix w.prefix)
  gw ← ok_or (bad_gw w.name) (Ipv4.from_str w.gw)
  dhcp_server ← parse_server w.name w.dhcp_server
  if not (leb 2 w.vid && leb w.vid 4094)
      then err (bad_vid w.name w.vid)
      else ok (record {
        name = w.name;
        uplink = w.uplink;
        vid = w.vid;
        prefix = prefix;
        gw = gw;
        dhcp_server = dhcp_server;
        allow = w.allow;
      })

unfoldable pub resolve_row : WorkloadDecl → Result DeclRefusal Workload
unfolding resolve_workload
resolve_row w = refuse_retired_workload_keys w >>= λ _. resolve_workload w

unfoldable pub resolve_pair : String → Result DeclRefusal (String × String)
resolve_pair pair = ok_or (bad_forward_pair pair) (Text.split_once 62 pair)

abbrev pub or_default : {A : Type 0} → A → Option A → A
or_default d none = d
or_default d (some a) = a

abbrev all_segments : List (Zone × List Segment) → List Segment
all_segments [] = []
all_segments (z ∷ zs) = z.1 ++ all_segments zs

-- The fabric, from its tables and the declaration's own settings.
abbrev pub fabric_of :
    Declaration
    → List DomainId
    → List Member
    → List (Zone × List Segment)
    → List Workload
    → List (String × String)
    → Fabric
fabric_of d domains members zones workloads forward_allow =
    let admin = or_default default_admin d.admin in
    let marking = or_default default_marking d.marking in
    let cost = or_default default_cost d.cost in
    let bfd = or_default default_bfd d.bfd in
    let ospf = or_default default_ospf d.ospf in
    let bgp = or_default default_bgp d.bgp in
    let runtime = or_default default_runtime d.runtime in
    record {
      domains = domains;
      members = members;
      zones = map (λ (z : Zone × List Segment). z.0) zones;
      segments = all_segments zones;
      wire_prefs = all_prefs d.members;
      leaf_cost_offset = cost.leaf_offset;
      host_forward = d.forward.enabled;
      forward_allow = forward_allow;
      admin_floor_mbps = admin.floor_mbps;
      admin_band = admin.band;
      pcp_ctrl = marking.pcp_ctrl;
      dscp_mark = marking.set_dscp;
      bfd_rx_ms = bfd.rx_ms;
      bfd_tx_ms = bfd.tx_ms;
      bfd_mult = bfd.mult;
      bfd_port = bfd.port;
      ospf_hello = ospf.hello_s;
      ospf_dead = ospf.dead_s;
      bgp_as = bgp.asn;
      bgp_keepalive_s = bgp.keepalive_s;
      bgp_hold_s = bgp.hold_s;
      bgp_connect_s = bgp.connect_s;
      run_dir = runtime.run_dir;
      dns_domain = d.dns_domain;
      workloads = workloads;
    }

-- The two settings that are refused, once all tables are resolved.
abbrev pub settled :
    Declaration
    → List DomainId
    → List Member
    → List (Zone × List Segment)
    → List Workload
    → List (String × String)
    → Result DeclRefusal Fabric
settled d domains members zones workloads forward_allow =
    let f = fabric_of d domains members zones workloads forward_allow in
    if ltb 6 f.pcp_ctrl
    then err (bad_pcp_ctrl f.pcp_ctrl)
    else if ltb f.bfd_port 1024
    then err (bad_bfd_port f.bfd_port)
    else ok f

-- The tables in the declaration's order: the first refusal is the result.
unfoldable pub resolve : Declaration → Result DeclRefusal Fabric
unfolding resolve_member resolve_zone resolve_row resolve_pair
resolve d = do
  domains ← collect (λ (t : String × String). ok_or (bad_domain t.0) (parse_domain t.0)) d.domains
  members ← collect resolve_member d.members
  zones ← collect resolve_zone d.zones
  workloads ← collect resolve_row d.workload
  forward_allow ← collect resolve_pair d.forward.allow
  settled d domains members zones workloads forward_allow

pub data Loaded : Type 0 where
  loaded : Fabric → Loaded
  undeclared : DeclRefusal → Loaded
  invalid : Refusal → Loaded
  crashed : Loaded

abbrev pub admit : Fabric → Check → Loaded
admit f pass = loaded f
admit f (refused r) = invalid r
admit f panicked = crashed

abbrev pub check_resolved : Result DeclRefusal Fabric → Loaded
check_resolved (err r) = undeclared r
check_resolved (ok f) = admit f (validate f)

-- `Fabric::from_decl`.
pub from_decl : Declaration → Loaded
unfolding resolve
from_decl d = check_resolved (resolve d)
