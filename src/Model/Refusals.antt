-- ===== src/Model/Refusals.antt =====
-- What `Fabric::validate` (src/model.rs) and `validate_derived` (src/derive.rs) refuse, and of what.
use Prim.Native.String.{String}
use cfab.Prelude.{ℕ}
use cfab.Model.{DomainId}
use cfab.Model.Checks.{Checked}

-- Of a `[[workload]]` row.
pub data RowRefusal : Type 0 where
  name_is_zone name_twice leg_taken vlan_taken leg_collides : RowRefusal
  prefix_too_large gw_outside gw_not_host : RowRefusal
  server_is_gw server_is_member server_inside server_not_unicast : RowRefusal
  overlaps_zone : String → RowRefusal
  no_allow no_forwarding : RowRefusal
  allow_unknown : String → RowRefusal
  not_carried : RowRefusal

-- Of a member's address on such a row.
pub data MemberRowRefusal : Type 0 where
  declared_twice undeclared on_leaf outside wrong_mask is_gw not_host : MemberRowRefusal

pub data Refusal : Type 0 where
  no_domains : Refusal
  no_wires : String → Refusal
  wire_domain two_wires : String → DomainId → Refusal
  segment_domain gw_domain : String → Refusal
  primary_domain : String → DomainId → Refusal
  domain_unused : DomainId → Refusal
  vid_twice : ℕ → Refusal
  segment_twice : String × ℕ → Refusal
  scope_twice : String × String → Refusal
  ifname_twice : String → Refusal
  unknown_zone : String → Refusal
  universal_ifname : String → Refusal
  zone_id_twice zone_id : ℕ → Refusal
  primary_segment : String → Refusal
  member_twice : String → Refusal
  node_twice : ℕ → Refusal
  prefs_wire : String → String → String → Refusal
  prefs_twice prefs_incomplete : String → String → Refusal
  forward_zone : String → Refusal
  workload_refused : String → RowRefusal → Refusal
  member_workload_refused : String → String → MemberRowRefusal → Refusal
  workload_address : String → ℕ → Refusal
  gw_ifname_long : ℕ → Refusal
  gw_vid router_is_node : String → ℕ → Refusal
  universal_cost_high : String → ℕ → Refusal
  rank0_unshared : String → String → Refusal
  equal_cost : String → String → String → Refusal

abbrev pub Check : Type 0
Check = Checked Refusal
