-- ===== src/Prober/Build/Asked.antt =====
-- Whom a fallback leg asks and hears: the peers of its segment (src/prober/mod.rs).
use cfab.Prelude.{
  ℕ, ◌%◌, ◌<◌, ◌≡◌, refl, sym, ap, ◌∙◌, inl, inr, false, List, [], ◌∷◌, ◌++◌, map, Option, none,
  some, All, All-mono, All-++, All-map, In, arith, ◌==◌, map_all, present, Bool-cases,
}
use cfab.Prelude.Gives.{
  Gives, some-Gives, >>=-Gives, map_all-Gives, map-Gives, Held, All-present, everywhere,
}
use cfab.Prelude.Ipv4
use cfab.Prelude.BTreeMap.{string_ord, nat_ord, insert}
use cfab.Model.{Member, Zone, Fabric, zone, identity_addr}
use cfab.Model.Checks.{Distinct}
use cfab.Model.Find.{All-In, Distinct-injective}
use cfab.Model.Derive.{FallbackRow, GwRow, fallback_rows_of}
use cfab.Model.View.{View}
use cfab.Prober.Leg.State.{Fallback, Kind, ingress, fallback, Leg, new, target_of}
use cfab.Prober.Build.{
  addr_of, peers_among, rid_set, rids, known_to, fallback_with, ingress_leg, fallback_leg,
}
use cfab.Prober.Build.Peers.{Other, Peers, peers_among-Peers}

In-insert :
    (r k : ℕ) (m : List {0} (ℕ × Unit {0}))
    → In r (map (λ (x : ℕ × Unit {0}). x.0) (insert k tt m))
    → In r (k ∷ map (λ (x : ℕ × Unit {0}). x.0) m)
In-insert r k [] i = i
In-insert r k ((j, u) ∷ m) i = ground (arith, i, In-insert r k m)

rids-In :
    (r : ℕ) (z : Zone) (ms : List Member)
    → In r (rids z ms)
    → (m : Member) × In m ms × (r ≡ identity_addr z m)
rids-In r z [] i = absurd i
rids-In r z (m ∷ ms) i = elim (In-insert r (identity_addr z m) (rid_set z ms) i) [
  | inl e ↦ (m, inl refl, sym e)
  | inr j ↦ let (p, k, e) = rids-In r z ms j in (p, inr k, e)
]

insert-In :
    (r k : ℕ) (m : List {0} (ℕ × Unit {0}))
    → In r (k ∷ map (λ (x : ℕ × Unit {0}). x.0) m)
    → In r (map (λ (x : ℕ × Unit {0}). x.0) (insert k tt m))
insert-In r k [] i = i
insert-In r k ((j, u) ∷ m) i = ground (arith, i, insert-In r k m, nat_ord.cmp_iff k j)

In-rids : (z : Zone) (ms : List Member) (m : Member) → In m ms → In (identity_addr z m) (rids z ms)
In-rids z [] m i = absurd i
In-rids z (p ∷ ms) m (inl e) =
    insert-In (identity_addr z m) (identity_addr z p) (rid_set z ms) (inl (ap (identity_addr z) e))
In-rids z (p ∷ ms) m (inr i) =
    insert-In (identity_addr z m) (identity_addr z p) (rid_set z ms) (inr (In-rids z ms m i))

from_each : {A : Type 0} (P : A → Type 0) (xs : List A) → ((x : A) → In x xs → P x) → All P xs
from_each P [] h = tt
from_each P (x ∷ xs) h = (h x (inl refl), from_each P xs (λ y i. h y (inr i)))

-- The address of the peer whose node is asked for stands among the targets, and no other has its node.
target_of-addr_of :
    (z : Zone) (seg : ℕ) (peers : List Member) (m : Member)
    → All (λ (p : Member). p.node ≡ m.node → p ≡ m) peers
    → m.node < 256
    → In m peers
    → target_of (map (addr_of z seg) peers) (identity_addr z m) ≡ some (addr_of z seg m)
unfolding target_of
target_of-addr_of z seg [] m alone small i = absurd i
target_of-addr_of z seg (p ∷ peers) m alone small i =
    let at : identity_addr z m % 256 ≡ m.node = omega (arith, small) in
    elim (Bool-cases (p.node == identity_addr z m % 256)) [
      | inl e ↦
          let same : p ≡ m = alone.0 (ground (arith, e, at)) in
          rw e (ap (λ (x : Member). some (addr_of z seg x)) same)
      | inr e ↦ rw e (target_of-addr_of z seg peers m alone.1 small (later e at i))
    ]
  where
    later :
        (p.node == identity_addr z m % 256) ≡ false
        → identity_addr z m % 256 ≡ m.node
        → In m (p ∷ peers)
        → In m peers
    later e at (inl same) = absurd (ground (arith, e, at, ap (λ (x : Member). x.node) same))
    later e at (inr j) = j

-- A fallback leg is that of one of the member's bond rows. Its own Router ID is the member's in the
-- row's zone, and no peer's. Its peers are the Router IDs there of just the other members that have a
-- bond leg in the zone, and each is asked at that member's address on the row's segment.
pub record TellsApart (v : View) (l : Leg) (k : Fallback) : Type 0 where
  pub rows : List FallbackRow
  pub row : FallbackRow
  pub at : Zone
  pub has_rows : fallback_rows_of v.fabric v.member ≡ some rows
  pub is_row : In row rows
  pub bond : l.bond ≡ row.ifname
  pub zone_is : zone row.zone v.fabric ≡ some at
  pub self : k.self_rid ≡ identity_addr at v.member
  pub not_self : In k.self_rid k.peers → ⊥
  pub each_peer :
      (r : ℕ)
      → In r k.peers
      → (m : Member) × Other v row.zone v.fabric.members m
        × (r ≡ identity_addr at m)
        × (target_of k.targets r ≡ some (10 ∷ at.id ∷ row.seg ∷ m.node ∷ []))
  pub every_peer :
      (m : Member) → Other v row.zone v.fabric.members m → In (identity_addr at m) k.peers

abbrev pub Told : View → Leg → Kind → Type 0
Told v l (ingress router) = Unit
Told v l (fallback k) = TellsApart v l k

-- No two members have one node, and the nodes are bytes.
abbrev pub Nodes : Fabric → Type 0
Nodes f =
    Distinct (map (λ (m : Member). m.node) f.members) × All (λ (m : Member). m.node < 256) f.members

module _ (v : View) (nodes : Nodes v.fabric) (own : In v.member v.fabric.members) where
  same_node :
      (m p : Member) → In m v.fabric.members → In p v.fabric.members → p.node ≡ m.node → p ≡ m
  same_node m p i j e =
      Distinct-injective (λ (m : Member). m.node) v.fabric.members p m nodes.0 j i e

  module _ (rows : List FallbackRow) (row : FallbackRow) (at : Zone)
      (has_rows : fallback_rows_of v.fabric v.member ≡ some rows) (is_row : In row rows)
      (zone_is : zone row.zone v.fabric ≡ some at) where
    fallback_with-TellsApart :
        (peers : List Member)
        → Peers v row.zone v.fabric.members peers
        → TellsApart v (fallback_with v row at peers) (known_to v at row.seg peers)
    unfolding new
    fallback_with-TellsApart peers (others, all) = record {
      rows = rows;
      row = row;
      at = at;
      has_rows = has_rows;
      is_row = is_row;
      bond = refl;
      zone_is = zone_is;
      self = refl;
      not_self = λ i.
          let (m, j, e) = rids-In (identity_addr at v.member) at peers i in
          let (there, apart, _) = All-In (Other v row.zone v.fabric.members) peers m others j in
          let same = same_node v.member m own there (omega (arith, e)) in
          absurd (apart (ap (λ (x : Member). x.name) same));
      each_peer = λ r i.
          let (m, j, e) = rids-In r at peers i in
          let other = All-In (Other v row.zone v.fabric.members) peers m others j in
          let alone =
            All-mono _ _ peers
              (λ (p : Member) (o : Other v row.zone v.fabric.members p). same_node m p other.0 o.0)
              others in
          let small = All-In (λ (m : Member). m.node < 256) v.fabric.members m nodes.1 other.0 in
          (
            m,
            other,
            e,
            ap (target_of (map (addr_of at row.seg) peers)) e
                ∙ target_of-addr_of at row.seg peers m alone small j,
          );
      every_peer = λ m o. In-rids at peers m (all m o);
    }

  abbrev LegTold : Leg → Type 0
  LegTold l = Told v l l.kind

  fallback_leg-Told :
      (rows : List FallbackRow) (r : FallbackRow) (z : Option Zone)
      → fallback_rows_of v.fabric v.member ≡ some rows
      → In r rows
      → zone r.zone v.fabric ≡ z
      → Gives (Held LegTold) (fallback_leg v r z)
  unfolding Held new
  fallback_leg-Told rows r none has i e = some-Gives (Held LegTold) none tt
  fallback_leg-Told rows r (some z) has i e =
      map-Gives (Peers v r.zone v.fabric.members) (Held LegTold) _
        (peers_among v r.zone v.fabric.members) (peers_among-Peers v r.zone v.fabric.members)
        λ peers others. fallback_with-TellsApart rows r z has i e peers others

  Gives-Held : (o : Option Leg) → Gives LegTold o → Held LegTold o
  unfolding Held
  Gives-Held none h = tt
  Gives-Held (some l) h = h l refl

  ingress_leg-Told : (r : GwRow) → Held LegTold (ingress_leg v r)
  unfolding new
  ingress_leg-Told r = Gives-Held (ingress_leg v r) (
      >>=-Gives (λ _. Unit) LegTold (zone r.zone v.fabric) _ (λ _ _. tt)
        λ z _.
          >>=-Gives (λ _. Unit) LegTold z.gw _ (λ _ _. tt)
            λ gw _.
              >>=-Gives (λ _. Unit) LegTold (Ipv4.from_str gw.router) _ (λ _ _. tt)
                λ router _. some-Gives LegTold _ tt)

  pub legs-Told :
      (gws : List GwRow) (rows : List FallbackRow) (legs : List (Option Leg))
      → fallback_rows_of v.fabric v.member ≡ some rows
      → map_all (λ (r : FallbackRow). fallback_leg v r (zone r.zone v.fabric)) rows ≡ some legs
      → All LegTold (present (map (ingress_leg v) gws) ++ present legs)
  legs-Told gws rows legs has e =
      All-++ LegTold (present (map (ingress_leg v) gws)) (present legs)
        (All-present LegTold (map (ingress_leg v) gws)
          (All-map (Held LegTold) (ingress_leg v) gws (everywhere _ ingress_leg-Told gws)))
        (All-present LegTold legs (
          map_all-Gives (Held LegTold) _ rows
            (from_each _ rows λ r i. fallback_leg-Told rows r (zone r.zone v.fabric) has i refl)
            legs e))
