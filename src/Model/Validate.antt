-- ===== src/Model/Validate.antt =====
-- `Fabric::validate` of src/model.rs, a function for each block of it; the text of a refusal is not
-- modelled, only which it is and of what. The length of a name is its bytes.
pub mod Accepted
pub mod Apart
pub mod Calm
pub mod Sample
mod Tests
use Prim.Native.String.{String, len}
use cfab.Prelude.{
  ℕ, Bool, true, false, not, ◌&&◌, ◌||◌, List, [], ◌∷◌, map, Option, none, some, ltb, leb, ◌==◌,
  any, filter, if◌then◌else◌, length,
}
use cfab.Prelude.BTreeMap.{string_ord, nat_ord, pair_ord, key_eq}
use cfab.Model.{
  DomainId, SegScope, on_domain, universal, domain_of, is_universal, is_on, MemberKind, is_host,
  Wire, Member, Zone, ZoneGw, Segment, WirePref, Fabric, find, wire_on, wire_named, member, zone,
  is_segment, is_some, candidate_wires, gw_ifname, router_octet,
}
use cfab.Model.Checks.{Checked, pass, panicked, ◌>>◌, refuse_if, refuse_some, each, is_in, dup}
use cfab.Model.Refusals.{
  no_domains, no_wires, wire_domain, two_wires, segment_domain, primary_domain, gw_domain,
  domain_unused, vid_twice, segment_twice, scope_twice, ifname_twice, unknown_zone,
  universal_ifname, zone_id_twice, zone_id, primary_segment, member_twice, node_twice, prefs_wire,
  prefs_twice, prefs_incomplete, forward_zone, gw_ifname_long, gw_vid, router_is_node, Check,
}
use cfab.Model.Rows.{check_rows, check_member_rows, check_addresses}
use cfab.Model.Derived.{validate_derived}

-- The 15 bytes of an interface's name, less a dash and a domain's letter.
abbrev pub max_bond_ifname : ℕ
max_bond_ifname = 13

-- How a scope is written.
abbrev pub scope_text : SegScope → String
scope_text (on_domain d) = d
scope_text universal = "any"

abbrev pub subset : List String → List String → Bool
subset [] ys = true
subset (x ∷ xs) ys = is_in x ys && subset xs ys

-- The wires of one member.
pub check_member_wires : List DomainId → Member → Check
check_member_wires declared m =
    refuse_if (leb (length m.wires) 0) (no_wires m.name)
    >> each (λ (w : Wire). refuse_if (not (is_in w.domain declared)) (wire_domain m.name w.domain))
        m.wires
    >> refuse_some (two_wires m.name) (dup (map (λ (w : Wire). w.domain) m.wires))

abbrev pub undeclared : List DomainId → Option DomainId → Bool
undeclared declared none = false
undeclared declared (some d) = not (is_in d declared)

abbrev pub gw_domain_of : Option ZoneGw → Option DomainId
gw_domain_of none = none
gw_domain_of (some gw) = domain_of gw.scope

pub check_domains : Fabric → Check
unfolding check_member_wires
check_domains f =
    refuse_if (leb (length f.domains) 0) no_domains
    >> each (check_member_wires f.domains) f.members
    >> each
        (λ (s : Segment).
          refuse_if (undeclared f.domains (domain_of s.scope)) (segment_domain s.ifname))
        f.segments
    >> each
        (λ (z : Zone).
          refuse_if (not (is_in z.primary f.domains)) (primary_domain z.name z.primary)
          >> refuse_if (undeclared f.domains (gw_domain_of z.gw)) (gw_domain z.name))
        f.zones
    >> each
        (λ (d : DomainId).
          refuse_if (not (any (λ (m : Member). is_some (wire_on d m)) f.members)) (domain_unused d))
        f.domains

pub check_segments : Fabric → Check
check_segments f =
    refuse_some vid_twice (dup (map (λ (s : Segment). s.vid) f.segments))
    >> refuse_some segment_twice (dup (map (λ (s : Segment). (s.zone, s.seg)) f.segments))
    >> refuse_some scope_twice
        (dup (map (λ (s : Segment). (s.zone, scope_text s.scope)) f.segments))
    >> refuse_some ifname_twice (dup (map (λ (s : Segment). s.ifname) f.segments))
    >> each (λ (s : Segment). refuse_if (not (is_some (zone s.zone f))) (unknown_zone s.zone))
        f.segments
    >> each
        (λ (s : Segment).
          refuse_if (ltb max_bond_ifname (len s.ifname)) (universal_ifname s.ifname))
        (filter (λ (s : Segment). is_universal s.scope) f.segments)

pub check_zones : Fabric → Check
check_zones f =
    refuse_some zone_id_twice (dup (map (λ (z : Zone). z.id) f.zones))
    >> each
        (λ (z : Zone).
          refuse_if (ltb z.id 1) (zone_id z.id)
          >> refuse_if (not (any (is_segment z.name z.primary) f.segments))
              (primary_segment z.name))
        f.zones

pub check_members : Fabric → Check
check_members f =
    refuse_some member_twice (dup (map (λ (m : Member). m.name) f.members))
    >> refuse_some node_twice (dup (map (λ (m : Member). m.node) f.members))

-- `got != want`: the two as sets.
abbrev pub same_names : List String → List String → Bool
same_names xs ys = subset xs ys && subset ys xs

-- The override of a member.
pub check_order_of : WirePref → Member → Fabric → Check
check_order_of p m f =
    refuse_if (not (is_some (zone p.zone f))) (unknown_zone p.zone)
    >> each (λ w. refuse_if (not (is_some (wire_named w m))) (prefs_wire p.member p.zone w)) p.order
    >> refuse_if (is_some (dup p.order)) (prefs_twice p.member p.zone)
    >> refuse_if
        (not (same_names p.order (map (λ (w : Wire). w.name) (candidate_wires p.zone m f))))
        (prefs_incomplete p.member p.zone)

pub check_wire_pref : WirePref → Option Member → Fabric → Check
unfolding check_order_of
check_wire_pref p none f = panicked
check_wire_pref p (some m) f = check_order_of p m f

pub check_wire_prefs : Fabric → Check
unfolding check_wire_pref
check_wire_prefs f = each (λ (p : WirePref). check_wire_pref p (member p.member f) f) f.wire_prefs

pub check_forward_allow : Fabric → Check
check_forward_allow f =
    each
      (λ (x : String × String).
        refuse_if (not (is_some (zone x.0 f))) (forward_zone x.0)
        >> refuse_if (not (is_some (zone x.1 f))) (forward_zone x.1))
      f.forward_allow

abbrev pub check_router : String → List Member → Option ℕ → Check
check_router zone ms none = panicked
check_router zone ms (some octet) =
    each (λ (m : Member). refuse_if (m.node == octet) (router_is_node zone m.node)) ms

pub check_gw : Fabric → Zone → Option ZoneGw → Check
check_gw f z none = pass
check_gw f z (some gw) =
    refuse_if (is_universal gw.scope && ltb max_bond_ifname (len (gw_ifname z.id)))
      (gw_ifname_long z.id)
    >> refuse_if (any (λ (s : Segment). s.vid == gw.vid) f.segments) (gw_vid z.name gw.vid)
    >> check_router z.name f.members (router_octet gw)

-- The blocks in the source's order.
pub validate : Fabric → Check
unfolding check_domains check_segments check_zones check_members check_wire_prefs
    check_forward_allow check_gw
validate f =
    check_domains f
    >> check_segments f
    >> check_zones f
    >> check_members f
    >> check_wire_prefs f
    >> check_forward_allow f
    >> check_rows [] f.workloads f
    >> each (λ (m : Member). check_member_rows m f [] m.workloads) f.members
    >> check_addresses f
    >> each (λ (z : Zone). check_gw f z z.gw) f.zones
    >> validate_derived f
