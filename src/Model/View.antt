-- ===== src/Model/View.antt =====
-- `View` of src/derive.rs: the fabric as the member that runs the binary sees it, with the interfaces
-- that are the runtime's own and whether each may forward. A panic of the source is no result.
pub mod Owned
pub mod Listed
pub mod Guarded
mod Tests
use Prim.Native.String.{String}
use Prim.Native.String
use Prim.Native.Char.{code}
use mathlib.Core.Option
use cfab.Prelude.{
  ℕ, ◌/◌, ◌%◌, ◌^◌, Bool, true, false, ◌&&◌, ◌||◌, List, [], ◌∷◌, ◌++◌, map, Option, none, some,
  ◌==◌, any, filter, if◌then◌else◌, ◌>>=◌, present,
}
use cfab.Prelude.BTreeMap.{string_ord, pair_ord, key_eq, insert}
use cfab.Prelude.Sorting.{bool_ord, sort, dedup}
use cfab.Model.{
  MemberKind, host, leaf, is_host, Wire, Member, MemberWorkload, Zone, Workload, Fabric, find,
  member, wire_named, decimal, identity_ifnames, leg_ifname,
}
use cfab.Model.Derive.{
  ClassRow, Port, FallbackRow, GwRow, class_rows_of, fallback_rows_of, gw_rows_of,
}

pub record View : Type 0 where
  pub fabric : Fabric
  pub member : Member

abbrev pub view_of : Fabric → String → Option View
view_of f name = Option.map (λ (m : Member). record { fabric = f; member = m }) (member name f)

pub record WorkloadRow : Type 0 where
  pub wl : Workload
  pub address : String
  pub addr : ℕ

abbrev octet : ℕ → ℕ → String
octet k a = decimal (a / 256 ^ k % 256)

-- `address_cidr`: the address in decimal, with its length.
abbrev pub address_cidr : MemberWorkload → String
address_cidr a =
    let point : String → String → String = λ s t. String.◌++◌ s (String.◌++◌ "." t) in
    let dotted =
      point (octet 3 a.address)
        (point (octet 2 a.address) (point (octet 1 a.address) (octet 0 a.address))) in
    String.◌++◌ dotted (String.◌++◌ "/" (decimal a.len))

abbrev pub joined : Workload → Option MemberWorkload → Option WorkloadRow
joined wl a =
    Option.map
      (λ (a : MemberWorkload). record { wl = wl; address = address_cidr a; addr = a.address }) a

abbrev pub workload_rows : View → List WorkloadRow
workload_rows v = present (
    map
      (λ (wl : Workload).
        joined wl (find (λ (a : MemberWorkload). key_eq a.name wl.name) v.member.workloads))
      v.fabric.workloads)

abbrev pub zone_ifs : View → String → Option (List String)
zone_ifs v zone = do
  rows ← class_rows_of v.fabric v.member
  legs ← fallback_rows_of v.fabric v.member
  gws ← gw_rows_of v.fabric v.member
  some (
      map (λ (r : ClassRow). r.ifname) (filter (λ (r : ClassRow). key_eq r.zone zone) rows)
      ++ map (λ (r : FallbackRow). r.ifname) (filter (λ (r : FallbackRow). key_eq r.zone zone) legs)
      ++ map (λ (r : GwRow). r.ifname) (filter (λ (r : GwRow). key_eq r.zone zone) gws))

abbrev wire_set : List ClassRow → List {0} (String × Unit)
wire_set [] = []
wire_set (r ∷ rows) = insert r.wire tt (wire_set rows)

-- The wires under the member's segments, in the order of a set.
abbrev pub wires : View → Option (List String)
wires v =
    Option.map (λ rows. map (λ (w : String × Unit). w.0) (wire_set rows))
      (class_rows_of v.fabric v.member)

abbrev admin_of : MemberKind → Member → List String
admin_of host m = map (λ (w : Wire). w.name) m.wires
admin_of leaf m = []

abbrev pub admin_ifs : View → List String
admin_ifs v = admin_of v.member.kind v.member

abbrev pub is_admin_if : View → String → Bool
is_admin_if v ifname = any (λ n. key_eq n ifname) (admin_ifs v)

abbrev pub transit : View → Bool
transit v = is_host v.member.kind && v.fabric.host_forward

abbrev pub Flagged : Type 0
Flagged = String × Bool

abbrev pub port_flags : List Port → List Flagged
port_flags ports = map (λ (p : Port). (p.ifname, false)) ports

abbrev pub gw_flags : Bool → List GwRow → List Flagged
gw_flags t [] = []
gw_flags t (r ∷ rows) = (r.ifname, t) ∷ (port_flags r.ports ++ gw_flags t rows)

abbrev pub leg_flags : Bool → List FallbackRow → List Flagged
leg_flags t [] = []
leg_flags t (r ∷ rows) = (r.ifname, t) ∷ (port_flags r.ports ++ leg_flags t rows)

abbrev pub identity_flags : List Zone → List Flagged
identity_flags [] = []
identity_flags (z ∷ zs) =
    let (id, peer) = identity_ifnames z.id in (peer, false) ∷ (id, false) ∷ identity_flags zs

-- All that `owned_forwarding` pushes, in its order.
abbrev pub pushed : View → List ClassRow → List GwRow → List FallbackRow → List Flagged
pushed v rows gws legs =
    map (λ (w : Wire). (w.name, false)) v.member.wires
    ++ (map (λ (r : ClassRow). (r.ifname, transit v)) rows
        ++ (gw_flags (transit v) gws
            ++ (leg_flags (transit v) legs
                ++ (map (λ (r : WorkloadRow). (leg_ifname r.wl, transit v)) (workload_rows v)
                    ++ identity_flags v.fabric.zones))))

-- A name that was pushed twice keeps the flag that sorts first.
unfoldable pub owned_forwarding : View → Option (List Flagged)
owned_forwarding v = do
  rows ← class_rows_of v.fabric v.member
  gws ← gw_rows_of v.fabric v.member
  legs ← fallback_rows_of v.fabric v.member
  some (dedup (sort (pushed v rows gws legs)))

abbrev starts_with : String → String → Bool
starts_with String.[] s = true
starts_with (String.◌∷◌ c p) String.[] = false
starts_with (String.◌∷◌ c p) (String.◌∷◌ d s) = (code c == code d) && starts_with p s

abbrev pub has_name : String → List Flagged → Bool
has_name ifname owned = any (λ (o : Flagged). key_eq o.0 ifname) owned

-- The list is only asked for where the name does not tell.
abbrev pub owns_if : View → String → Option Bool
unfolding owned_forwarding
owns_if v ifname =
    if starts_with "cfab-" ifname
    then some true
    else Option.map (has_name ifname) (owned_forwarding v)

abbrev pub link_speed : View → String → Option ℕ
link_speed v wire = Option.map (λ (w : Wire). w.speed_mbps) (wire_named wire v.member)
