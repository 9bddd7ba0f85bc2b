-- ===== src/Model/Resolve/Origin.antt =====
-- Where the tables of a resolved fabric come from (src/model.rs).
use Prim.Native.String.{String}
use cfab.Prelude.{◌≡◌, subst, false, List, arith, ltb}
use cfab.Prelude.Results.{ok, ok_or, >>=-ok, collect}
use cfab.Model.{DomainId, Member, Zone, Segment, Workload, Fabric}
use cfab.Model.Decl.{Declaration}
use cfab.Model.Resolve.{
  bad_domain, parse_domain, resolve_member, resolve_zone, resolve_row, resolve_pair, resolve,
  fabric_of,
}

-- The results that a resolved fabric is made of.
pub record Tables (d : Declaration) (f : Fabric) : Type 0 where
  pub domains : List DomainId
  pub members : List Member
  pub zones : List (Zone × List Segment)
  pub workloads : List Workload
  pub forward_allow : List (String × String)
  pub each_domain :
      collect (λ (t : String × String). ok_or (bad_domain t.0) (parse_domain t.0)) d.domains
      ≡ ok domains
  pub each_member : collect resolve_member d.members ≡ ok members
  pub each_zone : collect resolve_zone d.zones ≡ ok zones
  pub made : fabric_of d domains members zones workloads forward_allow ≡ f
  pub priority : ltb 6 f.pcp_ctrl ≡ false
  pub port : ltb f.bfd_port 1024 ≡ false

pub resolve-Tables : (d : Declaration) (f : Fabric) → resolve d ≡ ok f → Tables d f
unfolding resolve
resolve-Tables d f h =
    let (domains, e1, h1) = >>=-ok _ _ f h in
    let (members, e2, h2) = >>=-ok (collect resolve_member d.members) _ f h1 in
    let (zones, e3, h3) = >>=-ok (collect resolve_zone d.zones) _ f h2 in
    let (workloads, e4, h4) = >>=-ok (collect resolve_row d.workload) _ f h3 in
    let (pairs, e5, h5) = >>=-ok (collect resolve_pair d.forward.allow) _ f h4 in
    let g = fabric_of d domains members zones workloads pairs in
    let small : ltb 6 g.pcp_ctrl ≡ false = ground (arith, h5) in
    let open_port : ltb g.bfd_port 1024 ≡ false = ground (arith, h5, small) in
    let same : g ≡ f = ground (arith, h5, small, open_port) in
    record {
      domains = domains;
      members = members;
      zones = zones;
      workloads = workloads;
      forward_allow = pairs;
      each_domain = e1;
      each_member = e2;
      each_zone = e3;
      made = same;
      priority = subst (λ (x : Fabric). ltb 6 x.pcp_ctrl ≡ false) same small;
      port = subst (λ (x : Fabric). ltb x.bfd_port 1024 ≡ false) same open_port;
    }
