-- ===== src/Model/Rows.antt =====
-- What `Fabric::validate` (src/model.rs) asks of the `[[workload]]` rows and of the members'
-- addresses on them.
pub mod Sound
pub mod Calm
use Prim.Native.String.{String}
use Prim.Native.String
use cfab.Prelude.{
  ℕ, ◌+◌, ◌-◌, ◌*◌, ◌^◌, Bool, true, false, not, ◌&&◌, ◌||◌, List, [], ◌∷◌, ◌++◌, map, Option, none,
  some, ltb, leb, ◌==◌, any, filter, if◌then◌else◌, length,
}
use cfab.Prelude.BTreeMap.{string_ord, nat_ord, pair_ord, key_eq}
use cfab.Model.{
  is_universal, is_host, Wire, Member, MemberWorkload, Zone, ZoneGw, Segment, Workload, Fabric,
  is_some, find, zone, workload, gw_ifname, identity_ifnames, leg_ifname,
}
use cfab.Model.Prefix.{Ipv4Prefix, contains, broadcast, overlaps}
use cfab.Model.Checks.{
  Checked, pass, ◌>>◌, refuse_if, refuse_some, each, is_in, dup, refused, panicked,
}
use cfab.Model.Refusals.{
  RowRefusal, name_is_zone, name_twice, leg_taken, vlan_taken, leg_collides, prefix_too_large,
  gw_outside, gw_not_host, server_is_gw, server_is_member, server_inside, server_not_unicast,
  overlaps_zone, no_allow, no_forwarding, allow_unknown, not_carried, MemberRowRefusal,
  declared_twice, undeclared, on_leaf, outside, wrong_mask, is_gw, not_host, workload_refused,
  member_workload_refused, workload_address, Check,
}

abbrev pub has_universal_gw : Zone → Bool
has_universal_gw z = elim z.gw [ none ↦ false | some gw ↦ is_universal gw.scope ]

-- `bond_ifnames`.
abbrev pub bond_ifnames : Fabric → List String
bond_ifnames f =
    map (λ (s : Segment). s.ifname) (filter (λ (s : Segment). is_universal s.scope) f.segments)
    ++ map (λ (z : Zone). gw_ifname z.id) (filter has_universal_gw f.zones)

abbrev pub is_identity : String → Zone → Bool
is_identity leg z =
    key_eq leg (gw_ifname z.id)
    || key_eq leg (identity_ifnames z.id).0
    || key_eq leg (identity_ifnames z.id).1

unfoldable pub collides : String → Fabric → Bool
collides leg f =
    any (λ (m : Member). any (λ (w : Wire). key_eq w.name leg) m.wires) f.members
    || any (λ (s : Segment). key_eq s.ifname leg) f.segments
    || any (λ b. any (λ d. key_eq leg (String.◌++◌ b (String.◌++◌ "-" d))) f.domains)
        (bond_ifnames f)
    || any (is_identity leg) f.zones

abbrev pub holds : String → ℕ → Member → Bool
holds row a m = any (λ (w : MemberWorkload). key_eq w.name row && w.address == a) m.workloads

-- The network and the broadcast address.
abbrev pub is_edge : Ipv4Prefix → ℕ → Bool
is_edge p a = a == p.net || a == broadcast p

abbrev pub no_relay_to : ℕ → Bool
no_relay_to a = a == 0 || a == 2 ^ 32 - 1

unfoldable pub check_server : Option ℕ → Workload → Fabric → Checked RowRefusal
check_server none w f = pass
check_server (some server) w f =
    refuse_if (server == w.gw) server_is_gw
    >> refuse_if (any (holds w.name server) f.members) server_is_member
    >> refuse_if (contains w.prefix server) server_inside
    >> refuse_if (no_relay_to server) server_not_unicast

-- `10.<id>.0.0/16`.
abbrev pub zone_block : Zone → Ipv4Prefix
zone_block z = record { net = (10 * 256 + z.id) * 65536; len = 16 }

-- The rows before this one are what the three sets have seen.
unfoldable pub check_row : List Workload → Workload → Fabric → Checked RowRefusal
unfolding collides check_server
check_row before w f =
    refuse_if (is_some (zone w.name f)) name_is_zone
    >> refuse_if (any (λ (b : Workload). key_eq b.name w.name) before) name_twice
    >> refuse_if (any (λ (b : Workload). key_eq (leg_ifname b) (leg_ifname w)) before) leg_taken
    >> refuse_if (any (λ (b : Workload). key_eq b.uplink w.uplink && b.vid == w.vid) before)
        vlan_taken
    >> refuse_if (collides (leg_ifname w) f) leg_collides
    >> refuse_if (ltb w.prefix.len 22) prefix_too_large
    >> refuse_if (not (contains w.prefix w.gw)) gw_outside
    >> refuse_if (is_edge w.prefix w.gw) gw_not_host
    >> check_server w.dhcp_server w f
    >> each (λ (z : Zone). refuse_if (overlaps w.prefix (zone_block z)) (overlaps_zone z.name))
        f.zones
    >> refuse_if (leb (length w.allow) 0) no_allow
    >> refuse_if (not f.host_forward) no_forwarding
    >> each (λ z. refuse_if (not (is_some (zone z f))) (allow_unknown z)) w.allow
    >> refuse_if
        (not (
          any (λ (m : Member). any (λ (x : MemberWorkload). key_eq x.name w.name) m.workloads)
            f.members))
        not_carried

abbrev pub of_row : String → Checked RowRefusal → Check
of_row name pass = pass
of_row name (refused r) = refused (workload_refused name r)
of_row name panicked = panicked

unfoldable pub check_rows : List Workload → List Workload → Fabric → Check
unfolding check_row
check_rows before [] f = pass
check_rows before (w ∷ ws) f = of_row w.name (check_row before w f) >> check_rows (w ∷ before) ws f

-- An address on the row that it names.
unfoldable pub check_member_row :
    Member → MemberWorkload → Option Workload → Checked MemberRowRefusal
check_member_row m x none = refused undeclared
check_member_row m x (some w) =
    refuse_if (not (is_host m.kind)) on_leaf
    >> refuse_if (not (contains w.prefix x.address)) outside
    >> refuse_if (not (x.len == w.prefix.len)) wrong_mask
    >> refuse_if (x.address == w.gw) is_gw
    >> refuse_if (is_edge w.prefix x.address) not_host

abbrev pub of_member_row : String → String → Checked MemberRowRefusal → Check
of_member_row m row pass = pass
of_member_row m row (refused r) = refused (member_workload_refused m row r)
of_member_row m row panicked = panicked

unfoldable pub check_member_rows :
    Member → Fabric → List MemberWorkload → List MemberWorkload → Check
unfolding check_member_row
check_member_rows m f before [] = pass
check_member_rows m f before (x ∷ xs) =
    of_member_row m.name x.name (
      refuse_if (any (λ (b : MemberWorkload). key_eq b.name x.name) before) declared_twice
      >> check_member_row m x (workload x.name f))
    >> check_member_rows m f (x ∷ before) xs

-- The addresses that members have on one row, in the members' order.
abbrev pub address_on : String → Member → Option MemberWorkload
address_on row m = find (λ (x : MemberWorkload). key_eq x.name row) m.workloads

unfoldable pub addresses_on : String → List Member → List ℕ
addresses_on row [] = []
addresses_on row (m ∷ ms) = elim (address_on row m) [
  | none ↦ addresses_on row ms
  | some x ↦ x.address ∷ addresses_on row ms
]

unfoldable pub check_addresses : Fabric → Check
unfolding addresses_on
check_addresses f =
    each
      (λ (w : Workload).
        refuse_some (workload_address w.name) (dup (addresses_on w.name f.members)))
      f.workloads
