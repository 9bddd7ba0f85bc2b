-- ===== src/Model.antt =====
-- The fabric as it was declared, src/model.rs, and what each member makes of it, src/derive.rs.
pub mod Prefix
pub mod Decl
pub mod Checks
pub mod Refusals
pub mod Rows
pub mod Derive
pub mod Paths
pub mod Derived
pub mod Find
pub mod Validate
pub mod Resolve
pub mod View
use Prim.Native.Nat.{compare, Ordering}
use Prim.Native.Char.{len_utf8}
use Prim.Native.String.{String}
use Prim.Native.String
use cfab.Prelude.{
  ℕ, ◌+◌, ◌-◌, ◌*◌, ◌/◌, ◌%◌, Bool, true, false, ◌&&◌, List, [], ◌∷◌, map, Option, none, some, ltb,
  leb, ◌==◌, if◌then◌else◌, any, filter,
}
use cfab.Prelude.Text
use cfab.Prelude.BTreeMap.{string_ord, nat_ord, key_eq}
use cfab.Model.Prefix.{Ipv4Prefix}

-- A token of one letter.
abbrev pub DomainId : Type 0
DomainId = String

pub data SegScope : Type 0 where
  on_domain : DomainId → SegScope
  universal : SegScope

-- `SegScope::domain`.
abbrev pub domain_of : SegScope → Option DomainId
domain_of (on_domain d) = some d
domain_of universal = none

abbrev pub is_universal : SegScope → Bool
is_universal (on_domain d) = false
is_universal universal = true

-- `scope == SegScope::Domain(d)`.
abbrev pub is_on : DomainId → SegScope → Bool
is_on d (on_domain e) = key_eq e d
is_on d universal = false

pub data MemberKind : Type 0 where
  host leaf : MemberKind

abbrev pub is_host : MemberKind → Bool
is_host host = true
is_host leaf = false

pub data Dscp : Type 0 where
  cs0 cs2 cs6 : Dscp

pub record Wire : Type 0 where
  pub name : String
  pub domain : DomainId
  pub speed_mbps : ℕ

pub record MemberWorkload : Type 0 where
  pub name : String
  pub address : ℕ
  pub len : ℕ

pub record Member : Type 0 where
  pub name : String
  pub node : ℕ
  pub kind : MemberKind
  pub wires : List Wire
  pub workloads : List MemberWorkload

pub record ZoneGw : Type 0 where
  pub scope : SegScope
  pub vid : ℕ
  pub router : String

-- `router_octet`, the router's host octet. None: a panic.
unfoldable pub octet_behind : Option (String × String) → Option ℕ
octet_behind none = none
octet_behind (some (p, o)) = Text.parse_u8 o

abbrev pub router_octet : ZoneGw → Option ℕ
router_octet gw = octet_behind (Text.rsplit_once 46 gw.router)

pub record Zone : Type 0 where
  pub name : String
  pub id : ℕ
  pub pcp : ℕ
  pub dscp : Dscp
  pub floor_mbps : ℕ
  pub band : ℕ
  pub weight : ℕ
  pub primary : DomainId
  pub gw : Option ZoneGw

pub record Segment : Type 0 where
  pub ifname : String
  pub scope : SegScope
  pub zone : String
  pub seg : ℕ
  pub vid : ℕ

pub record WirePref : Type 0 where
  pub member : String
  pub zone : String
  pub order : List String

pub record Workload : Type 0 where
  pub name : String
  pub uplink : String
  pub vid : ℕ
  pub prefix : Ipv4Prefix
  pub gw : ℕ
  pub dhcp_server : Option ℕ
  pub allow : List String

pub record Fabric : Type 0 where
  pub domains : List DomainId
  pub members : List Member
  pub zones : List Zone
  pub segments : List Segment
  pub wire_prefs : List WirePref
  pub leaf_cost_offset : ℕ
  pub host_forward : Bool
  pub forward_allow : List (String × String)
  pub admin_floor_mbps : ℕ
  pub admin_band : ℕ
  pub pcp_ctrl : ℕ
  pub dscp_mark : Bool
  pub bfd_rx_ms : ℕ
  pub bfd_tx_ms : ℕ
  pub bfd_mult : ℕ
  pub bfd_port : ℕ
  pub ospf_hello : ℕ
  pub ospf_dead : ℕ
  pub bgp_as : ℕ
  pub bgp_keepalive_s : ℕ
  pub bgp_hold_s : ℕ
  pub bgp_connect_s : ℕ
  pub run_dir : String
  pub dns_domain : String
  pub workloads : List Workload

abbrev pub is_some {ℓ} : {A : Type ℓ} → Option A → Bool
is_some none = false
is_some (some a) = true

-- `iter().find`.
abbrev pub find {ℓ} : {A : Type ℓ} → (A → Bool) → List A → Option A
find p [] = none
find p (x ∷ xs) = if p x then some x else find p xs

abbrev pub wire_on : DomainId → Member → Option Wire
wire_on d m = find (λ w. key_eq w.domain d) m.wires

abbrev pub wire_named : String → Member → Option Wire
wire_named name m = find (λ w. key_eq w.name name) m.wires

abbrev pub member : String → Fabric → Option Member
member name f = find (λ m. key_eq m.name name) f.members

abbrev pub zone : String → Fabric → Option Zone
zone name f = find (λ z. key_eq z.name name) f.zones

abbrev pub wire_pref : String → String → Fabric → Option WirePref
wire_pref member zone f = find (λ p. key_eq p.member member && key_eq p.zone zone) f.wire_prefs

abbrev pub workload : String → Fabric → Option Workload
workload name f = find (λ w. key_eq w.name name) f.workloads

-- The segment of a zone on a domain.
abbrev pub is_segment : String → DomainId → Segment → Bool
is_segment zone d s = key_eq s.zone zone && is_on d s.scope

abbrev pub candidate_wires : String → Member → Fabric → List Wire
candidate_wires zone m f = filter (λ w. any (is_segment zone w.domain) f.segments) m.wires

-- A number of at most three digits, in decimal.
abbrev pub digit : ℕ → String
digit n =
    if n == 0
    then "0"
    else if n == 1
    then "1"
    else if n == 2
    then "2"
    else if n == 3
    then "3"
    else if n == 4
    then "4"
    else if n == 5
    then "5"
    else if n == 6
    then "6"
    else if n == 7
    then "7"
    else if n == 8
    then "8"
    else "9"

unfoldable pub decimal : ℕ → String
decimal n =
    if ltb n 10
    then digit n
    else if ltb n 100
    then String.◌++◌ (digit (n / 10)) (digit (n % 10))
    else String.◌++◌ (digit (n / 100)) (String.◌++◌ (digit (n / 10 % 10)) (digit (n % 10)))

unfoldable pub identity_ifnames : ℕ → String × String
unfolding decimal
identity_ifnames zone_id =
    let id = String.◌++◌ "cfab-id" (decimal zone_id) in (id, String.◌++◌ id "-peer")

unfoldable pub gw_ifname : ℕ → String
unfolding decimal
gw_ifname zone_id = String.◌++◌ "cfab-gw" (decimal zone_id)

-- The longest beginning of whole characters in so many bytes.
unfoldable pub cut_to : ℕ → String → String
cut_to room String.[] = String.[]
cut_to room (String.◌∷◌ c s) =
    let rest = cut_to (room - len_utf8 c) s in
    if leb (len_utf8 c) room then String.◌∷◌ c rest else String.[]

-- The 15 bytes of an interface's name, less the ten of the prefix.
unfoldable pub leg_ifname : Workload → String
unfolding cut_to
leg_ifname w = String.◌++◌ "cfab-work-" (cut_to 5 w.name)

-- `10.<id>.<seg>.<node>`.
abbrev pub segment_addr : Zone → ℕ → Member → ℕ
segment_addr z seg m = ((10 * 256 + z.id) * 256 + seg) * 256 + m.node

abbrev pub identity_addr : Zone → Member → ℕ
identity_addr z m = segment_addr z 0 m
