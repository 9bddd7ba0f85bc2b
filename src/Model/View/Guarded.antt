-- ===== src/Model/View/Guarded.antt =====
-- What `owned_forwarding` lists: each interface once, and what may never forward (src/derive.rs).
use Prim.Native.String.{String}
use cfab.Prelude.{
  ◌≡◌, refl, subst, inl, inr, Bool, true, false, List, [], ◌∷◌, map, some, All, All-mono, In, arith,
}
use cfab.Prelude.BTreeMap.{string_ord, pair_ord}
use cfab.Prelude.Sorting.{
  bool_ord, sort, dedup, sort-Ascends, In-sort, sort-All, dedup-Rises, dedup-All, dedup-Kept,
}
use cfab.Model.{
  MemberKind, host, leaf, is_host, Wire, Zone, Workload, MemberWorkload, identity_ifnames,
  leg_ifname,
}
use cfab.Model.Checks.{Distinct}
use cfab.Model.Derive.{
  ClassRow, Port, FallbackRow, GwRow, class_rows_of, fallback_rows_of, gw_rows_of,
}
use cfab.Model.View.{
  View, WorkloadRow, workload_rows, transit, Flagged, gw_flags, leg_flags, identity_flags, pushed,
  owned_forwarding,
}
use cfab.Model.Checks.{pass}
use cfab.Model.{Fabric, Member}
use cfab.Model.Validate.{validate}
use cfab.Model.Derive.Total.{accepted-Yields}
use cfab.Model.View.Listed.{In-map-of, gw_flags-In, leg_flags-In, workload_rows-In}
use cfab.Model.View.Owned.{
  In-left, In-right, Rises-Distinct, Fixed, stays_false, Transits, pushed-Transits, Names,
  map-Names, PortsFixed, gws-Fixed, legs-Fixed, IdentityFixed, identities-Fixed,
}

from_each : {A : Type 0} (P : A → Type 0) (xs : List A) → ((x : A) → In x xs → P x) → All P xs
from_each P [] h = tt
from_each P (x ∷ xs) h = (h x (inl refl), from_each P xs (λ y i. h y (inr i)))

-- Listed, as one that forwards or as one that does not.
abbrev pub Listed : List Flagged → String → Type 0
Listed out n = (b : Bool) × In (n, b) out

-- The interfaces of a view, and what is listed of each. Each stands once. A wire of the member, a port
-- of a bond and an identity's interfaces are listed as ones that do not forward. A segment's interface,
-- an ingress, a bond leg, and the leg of each row that the member has an address on are listed. One
-- forwards only on a host of a fabric whose hosts forward.
pub record IsGuarded (v : View) (out : List Flagged) : Type 0 where
  pub rows : List ClassRow
  pub gws : List GwRow
  pub legs : List FallbackRow
  pub has_rows : class_rows_of v.fabric v.member ≡ some rows
  pub has_gws : gw_rows_of v.fabric v.member ≡ some gws
  pub has_legs : fallback_rows_of v.fabric v.member ≡ some legs
  pub once : Distinct (map (λ (x : Flagged). x.0) out)
  pub rows_listed : All (λ (r : ClassRow). Listed out r.ifname) rows
  pub gws_listed : All (λ (r : GwRow). Listed out r.ifname) gws
  pub legs_listed : All (λ (r : FallbackRow). Listed out r.ifname) legs
  pub workloads_listed :
      (w : Workload) (a : MemberWorkload)
      → In w v.fabric.workloads
      → In a v.member.workloads
      → a.name ≡ w.name
      → Listed out (leg_ifname w)
  pub wires_fixed : All (λ (w : Wire). Fixed out w.name) v.member.wires
  pub gws_fixed : All (λ (r : GwRow). PortsFixed out r.ports) gws
  pub legs_fixed : All (λ (r : FallbackRow). PortsFixed out r.ports) legs
  pub identities_fixed : All (IdentityFixed out) v.fabric.zones
  pub only_transit :
      All
        (λ (x : Flagged). x.1 ≡ true → (v.member.kind ≡ host) × (v.fabric.host_forward ≡ true))
        out

transit-host :
    (v : View) → transit v ≡ true → (v.member.kind ≡ host) × (v.fabric.host_forward ≡ true)
transit-host v h = (is_host-host v.member.kind (ground (arith, h)), ground (arith, h))
  where
    is_host-host : (k : MemberKind) → is_host k ≡ true → k ≡ host
    is_host-host host e = refl
    is_host-host leaf e = absurd (ground (arith, e))

module _ (v : View) (rows : List ClassRow) (gws : List GwRow) (legs : List FallbackRow) where
  abbrev all : List Flagged
  all = pushed v rows gws legs

  abbrev out : List Flagged
  out = dedup (sort all)

  abbrev wire_part : List Flagged
  wire_part = map (λ (w : Wire). (w.name, false)) v.member.wires

  abbrev row_part : List Flagged
  row_part = map (λ (r : ClassRow). (r.ifname, transit v)) rows

  pushed-Listed : (x : Flagged) → In x all → Listed out x.0
  pushed-Listed x i =
      let (r, j, same, _) = dedup-Kept x (sort all) (sort-Ascends all) (In-sort x all i) in
      (r.1, subst (λ n. In (n, r.1) out) same j)

  -- What the list that is pushed has with `false`, at a place of it, the result has.
  fixed :
      {A : Type 0} (g : A → String) (part : List Flagged) (xs : List A)
      → ((x : Flagged) → In x part → In x all)
      → Names g part xs
      → Names g out xs
  fixed g part xs h a = All-mono _ _ xs (λ x i. stays_false (g x) all (h (g x, false) i)) a

  gw_flags-pushed : (x : Flagged) → In x (gw_flags (transit v) gws) → In x all
  gw_flags-pushed x i = In-right x (map (λ (w : Wire). (w.name, false)) v.member.wires) _ (
      In-right x (map (λ (r : ClassRow). (r.ifname, transit v)) rows) _
        (In-left x (gw_flags (transit v) gws) _ i))

  leg_flags-pushed : (x : Flagged) → In x (leg_flags (transit v) legs) → In x all
  leg_flags-pushed x i = In-right x (map (λ (w : Wire). (w.name, false)) v.member.wires) _ (
      In-right x (map (λ (r : ClassRow). (r.ifname, transit v)) rows) _
        (In-right x (gw_flags (transit v) gws) _ (In-left x (leg_flags (transit v) legs) _ i)))

  identity_flags-pushed : (x : Flagged) → In x (identity_flags v.fabric.zones) → In x all
  identity_flags-pushed x i = In-right x (map (λ (w : Wire). (w.name, false)) v.member.wires) _ (
      In-right x (map (λ (r : ClassRow). (r.ifname, transit v)) rows) _ (
        In-right x (gw_flags (transit v) gws) _ (
          In-right x (leg_flags (transit v) legs) _ (
            In-right x (map (λ (r : WorkloadRow). (leg_ifname r.wl, transit v)) (workload_rows v)) _
              i))))

  out-IsGuarded :
      class_rows_of v.fabric v.member ≡ some rows
      → gw_rows_of v.fabric v.member ≡ some gws
      → fallback_rows_of v.fabric v.member ≡ some legs
      → IsGuarded v out
  out-IsGuarded r g l = record {
    rows = rows;
    gws = gws;
    legs = legs;
    has_rows = r;
    has_gws = g;
    has_legs = l;
    once = Rises-Distinct out (dedup-Rises (sort all) (sort-Ascends all));
    rows_listed = from_each _ rows λ q i.
        pushed-Listed (q.ifname, transit v)
          (In-right _ wire_part _
            (In-left _ row_part _ (In-map-of (λ (r : ClassRow). (r.ifname, transit v)) rows q i)));
    gws_listed = from_each _ gws λ q i.
        pushed-Listed (q.ifname, transit v) (gw_flags-pushed _ (gw_flags-In (transit v) gws q i));
    legs_listed = from_each _ legs λ q i.
        pushed-Listed (q.ifname, transit v)
          (leg_flags-pushed _ (leg_flags-In (transit v) legs q i));
    workloads_listed = λ w a iw ia same.
        let (q, j, is_leg) = workload_rows-In v w a iw ia same in
        subst (Listed out) is_leg (
          pushed-Listed (leg_ifname q.wl, transit v)
            (In-right _ wire_part _ (
              In-right _ row_part _ (
                In-right _ (gw_flags (transit v) gws) _ (
                  In-right _ (leg_flags (transit v) legs) _ (
                    In-left _ _ _ (
                      In-map-of (λ (r : WorkloadRow). (leg_ifname r.wl, transit v))
                        (workload_rows v) q j)))))));
    wires_fixed =
        fixed (λ (w : Wire). w.name) (map (λ (w : Wire). (w.name, false)) v.member.wires)
          v.member.wires (λ x i. In-left x (map (λ (w : Wire). (w.name, false)) v.member.wires) _ i)
          (map-Names (λ (w : Wire). w.name) v.member.wires);
    gws_fixed =
        All-mono _ _ gws
          (λ (q : GwRow) a.
            fixed (λ (p : Port). p.ifname) (gw_flags (transit v) gws) q.ports gw_flags-pushed a)
          (gws-Fixed (transit v) gws);
    legs_fixed =
        All-mono _ _ legs
          (λ (q : FallbackRow) a.
            fixed (λ (p : Port). p.ifname) (leg_flags (transit v) legs) q.ports leg_flags-pushed a)
          (legs-Fixed (transit v) legs);
    identities_fixed =
        All-mono _ _ v.fabric.zones
          (λ (z : Zone) i. (
            stays_false _ all (identity_flags-pushed ((identity_ifnames z.id).0, false) i.0),
            stays_false _ all (identity_flags-pushed ((identity_ifnames z.id).1, false) i.1),
          ))
          (identities-Fixed v.fabric.zones);
    only_transit =
        All-mono _ _ out (λ x only flag. transit-host v (only flag))
          (dedup-All (Transits (transit v)) (sort all)
            (sort-All (Transits (transit v)) all (pushed-Transits v rows gws legs)));
  }

-- Of each member of an accepted fabric, the interfaces that are the runtime's own are listed, each
-- once: its wires, the ports of its bonds and the identities' interfaces as ones that may not forward,
-- even if another interface is declared by such a name; and the interface of each of its segments,
-- ingresses and bond legs, and of each workload row that it has an address on. One may forward only on
-- a host of a fabric whose hosts forward.
pub owned_forwarding-IsGuarded :
    (f : Fabric) (m : Member)
    → validate f ≡ pass
    → In m f.members
    → let v : View = record { fabric = f; member = m } in
      (out : List Flagged) × (owned_forwarding v ≡ some out) × IsGuarded v out
unfolding owned_forwarding
owned_forwarding-IsGuarded f m h i =
    let ((rows, r), (legs, l), (gws, g), _) = accepted-Yields f m "" h i in
    let v : View = record { fabric = f; member = m } in
    (dedup (sort (pushed v rows gws legs)), rw (r, g, l) refl, out-IsGuarded v rows gws legs r g l)
