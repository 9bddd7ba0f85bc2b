-- ===== src/Model/Derive.antt =====
-- What a member makes of the fabric, src/derive.rs: the order of its wires in each zone, its segment
-- rows with their costs, its bond legs and its ingress. A panic of the source is no result.
pub mod Ranked
pub mod Total
pub mod Ladder
pub mod Named
use Prim.Native.String.{String}
use Prim.Native.String
use mathlib.Core.Option
use cfab.Prelude.{
  ℕ, zero, suc, ◌+◌, ◌*◌, Bool, true, false, not, ◌&&◌, List, [], ◌∷◌, ◌++◌, map, Option, none,
  some, ltb, leb, ◌==◌, any, filter, if◌then◌else◌, length, max, ◌>>=◌, map_all, present,
}
use cfab.Prelude.BTreeMap.{string_ord, nat_ord, key_eq}
use cfab.Model.{
  DomainId, SegScope, on_domain, universal, domain_of, is_universal, MemberKind, is_host, Wire,
  Member, Zone, ZoneGw, Segment, WirePref, Fabric, is_some, find, wire_on, wire_pref,
  candidate_wires, gw_ifname,
}

pub record ClassRow : Type 0 where
  pub ifname : String
  pub wire : String
  pub zone : String
  pub seg : ℕ
  pub vid : ℕ
  pub ospf_cost : ℕ

pub record Port : Type 0 where
  pub ifname : String
  pub wire : String

pub record FallbackRow : Type 0 where
  pub ifname : String
  pub zone : String
  pub seg : ℕ
  pub vid : ℕ
  pub ospf_cost : ℕ
  pub home : String
  pub ports : List Port

pub record GwRow : Type 0 where
  pub ifname : String
  pub home : String
  pub zone : String
  pub vid : ℕ
  pub ports : List Port

pub data PrefSource : Type 0 where
  derived overridden : PrefSource

pub record HostZonePref : Type 0 where
  pub zone : String
  pub order : List String
  pub source : PrefSource

abbrev pub ladder_step : ℕ
ladder_step = 100

abbrev pub ladder_cost : ℕ → ℕ
ladder_cost rank = if rank == 0 then 10 else 100 * rank

-- `sort_by`: the faster first, and of two of one speed the one that stood first.
abbrev pub insert_by_speed : Wire → List Wire → List Wire
insert_by_speed w [] = w ∷ []
insert_by_speed w (x ∷ xs) =
    if leb x.speed_mbps w.speed_mbps then w ∷ x ∷ xs else x ∷ insert_by_speed w xs

abbrev pub sort_by_speed : List Wire → List Wire
sort_by_speed [] = []
sort_by_speed (w ∷ ws) = insert_by_speed w (sort_by_speed ws)

abbrev pub name_list : Option Wire → List String
name_list none = []
name_list (some w) = w.name ∷ []

unfoldable pub derived_order : Zone → List Wire → List String
derived_order z candidates =
    name_list (find (λ (w : Wire). key_eq w.domain z.primary) candidates)
    ++ map (λ (w : Wire). w.name)
        (sort_by_speed (filter (λ (w : Wire). not (key_eq w.domain z.primary)) candidates))

unfoldable pub pref_of : Fabric → Member → Zone → HostZonePref
unfolding derived_order
pref_of f m z = elim (wire_pref m.name z.name f) [
  | some p ↦ record { zone = z.name; order = p.order; source = overridden }
  | none ↦ record {
    zone = z.name;
    order = derived_order z (candidate_wires z.name m f);
    source = derived;
  }
]

unfoldable pub prefs_of : Fabric → Member → List HostZonePref
unfolding pref_of
prefs_of f m = map (pref_of f m) f.zones

-- `iter().position`.
abbrev pub position : String → List String → Option ℕ
position n [] = none
position n (x ∷ xs) = if key_eq x n then some 0 else Option.map suc (position n xs)

abbrev pub row_at : Segment → Wire → ℕ → ClassRow
row_at r w rank = record {
  ifname = r.ifname;
  wire = w.name;
  zone = r.zone;
  seg = r.seg;
  vid = r.vid;
  ospf_cost = ladder_cost rank;
}

-- The row of a segment on a wire, ranked by the zone's preference. None: a panic.
unfoldable pub ranked_row : Segment → Wire → Option HostZonePref → Option ClassRow
ranked_row r w none = none
ranked_row r w (some p) = Option.map (row_at r w) (position w.name p.order)

-- The wire that a segment is on, if the member has it.
abbrev pub wire_of : Option DomainId → Member → Option Wire
wire_of none m = none
wire_of (some d) m = wire_on d m

unfoldable pub class_rows_from : List HostZonePref → Member → List Segment → Option (List ClassRow)
unfolding ranked_row
class_rows_from prefs m [] = some []
class_rows_from prefs m (r ∷ rs) =
    let rest = class_rows_from prefs m rs in
    elim (wire_of (domain_of r.scope) m) [
      | none ↦ rest
      | some w ↦ do
        row ← ranked_row r w (find (λ (p : HostZonePref). key_eq p.zone r.zone) prefs)
        rows ← rest
        some (row ∷ rows)
    ]

unfoldable pub class_rows_of : Fabric → Member → Option (List ClassRow)
unfolding class_rows_from prefs_of
class_rows_of f m = class_rows_from (prefs_of f m) m f.segments

abbrev pub ports_of : Member → String → List Port
ports_of m ifname =
    map
      (λ (w : Wire). record {
        ifname = String.◌++◌ ifname (String.◌++◌ "-" w.domain);
        wire = w.name;
      })
      m.wires

-- The loop of `home_wire`: the cheapest so far, the first of equals.
unfoldable pub cheapest : String → Option ClassRow → List ClassRow → Option ClassRow
cheapest zone best [] = best
cheapest zone best (r ∷ rs) =
    let beats = elim best as (λ _. Bool) [ none ↦ true | some b ↦ ltb r.ospf_cost b.ospf_cost ] in
    if key_eq r.zone zone && beats then cheapest zone (some r) rs else cheapest zone best rs

-- None: a panic. The result within: no wire carries a segment of the zone.
unfoldable pub home_wire : Fabric → Member → String → Option (Option String)
unfolding class_rows_of cheapest
home_wire f m zone = do
  rows ← class_rows_of f m
  some (Option.map (λ (r : ClassRow). r.wire) (cheapest zone none rows))

abbrev pub cost_at : String → List ClassRow → Option ℕ
cost_at ifname rows =
    Option.map (λ (r : ClassRow). r.ospf_cost)
      (find (λ (r : ClassRow). key_eq r.ifname ifname) rows)

-- `filter_map(..).max().unwrap_or(0)`.
abbrev pub highest : List (Option ℕ) → ℕ
highest [] = 0
highest (none ∷ cs) = highest cs
highest (some c ∷ cs) = max c (highest cs)

abbrev pub sum : List ℕ → ℕ
sum [] = 0
sum (n ∷ ns) = n + sum ns

-- The highest cost that any member gives a segment.
unfoldable pub segment_cost : Fabric → Segment → Option ℕ
unfolding class_rows_of
segment_cost f s = do
  rows ← map_all (class_rows_of f) f.members
  some (highest (map (cost_at s.ifname) rows))

abbrev pub is_leg_of : String → Segment → Bool
is_leg_of zone s = key_eq s.zone zone && not (is_universal s.scope)

unfoldable pub universal_cost : Fabric → String → Option ℕ
unfolding segment_cost
universal_cost f zone = do
  costs ← map_all (segment_cost f) (filter (is_leg_of zone) f.segments)
  some (sum costs + ladder_step)

abbrev pub first_wire : List Port → Option String
first_wire [] = none
first_wire (p ∷ ps) = some p.wire

abbrev pub or_first : Option String → List Port → Option String
or_first none ps = first_wire ps
or_first (some w) ps = some w

-- A universal segment's leg, with its home.
unfoldable pub leg_at_home :
    Fabric → Segment → List Port → Option String → Option (Option FallbackRow)
unfolding universal_cost
leg_at_home f r ports none = some none
leg_at_home f r ports (some home) = do
  cost ← universal_cost f r.zone
  some (
      some (record {
        ifname = r.ifname;
        zone = r.zone;
        seg = r.seg;
        vid = r.vid;
        ospf_cost = cost;
        home = home;
        ports = ports;
      }))

-- No result within: the member has no wire.
unfoldable pub fallback_row : Fabric → Member → Segment → Option (Option FallbackRow)
unfolding home_wire leg_at_home
fallback_row f m r = do
  home ← home_wire f m r.zone
  leg_at_home f r (ports_of m r.ifname) (or_first home (ports_of m r.ifname))

unfoldable pub fallback_rows_of : Fabric → Member → Option (List FallbackRow)
unfolding fallback_row
fallback_rows_of f m =
    Option.map present
      (map_all (fallback_row f m) (filter (λ (s : Segment). is_universal s.scope) f.segments))

-- The home and the ports of an ingress.
unfoldable pub gw_home : Fabric → Member → Zone → SegScope → Option (Option (String × List Port))
unfolding home_wire
gw_home f m z (on_domain d) = some (Option.map (λ (w : Wire). (w.name, [])) (wire_on d m))
gw_home f m z universal = do
  home ← home_wire f m z.name
  let ports = ports_of m (gw_ifname z.id)
  some (Option.map (λ home. (home, ports)) (or_first home ports))

unfoldable pub gw_row : Fabric → Member → Zone → Option ZoneGw → Option (Option GwRow)
unfolding gw_home
gw_row f m z none = some none
gw_row f m z (some gw) = do
  home ← gw_home f m z gw.scope
  some (
      Option.map
        (λ (h : String × List Port). record {
          ifname = gw_ifname z.id;
          home = h.0;
          zone = z.name;
          vid = gw.vid;
          ports = h.1;
        })
        home)

unfoldable pub gw_rows_of : Fabric → Member → Option (List GwRow)
unfolding gw_row
gw_rows_of f m =
    let rows = map_all (λ (z : Zone). gw_row f m z z.gw) f.zones in
    if is_host m.kind then Option.map present rows else some []
