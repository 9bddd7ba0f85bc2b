-- ===== src/Prober/Build.antt =====
-- `Prober` of src/prober/mod.rs: the legs that a view gives, the round over all of them, and what is
-- kept for the journal. A panic of the derivation is no result.
pub mod Peers
pub mod Asked
pub mod Built
mod Tests
use Prim.Native.String.{String}
use Prim.Native.String
use mathlib.Core.Option
use cfab.Prelude.Ipv4
use cfab.Prelude.Search.{enumerate_from}
use cfab.Prelude.{
  ℕ, ◌%◌, Bool, true, false, not, ◌&&◌, List, [], ◌∷◌, ◌++◌, map, Option, none, some, any, ◌>>=◌,
  map_all, present, if◌then◌else◌,
}
use cfab.Prelude.Bytes.{Bytes, to_be32}
use cfab.Prelude.BTreeMap.{string_ord, nat_ord, key_eq, insert}
use cfab.Model.{Wire, Member, Zone, ZoneGw, Fabric, find, zone, identity_addr}
use cfab.Model.Derive.{
  Port, FallbackRow, GwRow, HostZonePref, prefs_of, fallback_rows_of, gw_rows_of,
}
use cfab.Model.View.{View}
use cfab.Prober.Passive.{from_ospf, move_fits_inside_dead}
use cfab.Prober.Frame.{synthetic_mac}
use cfab.Prober.Leg.Port.{ProbePort}
use cfab.Prober.Leg.Port
use cfab.Prober.Leg.State.{Fallback, Kind, ingress, fallback, Leg, Line, World}
use cfab.Prober.Leg.State
use cfab.Prober.Leg.Ask.{Probe}
use cfab.Prober.Leg.Tick.{Ticked, tick}

-- `PROBE_INTERVAL`, half a second.
abbrev probe_interval : ℕ
probe_interval = 500000000

abbrev migrates : GwRow → Bool
migrates r = any (λ _. true) r.ports

abbrev island_of : View → String → String
island_of v wire =
    Option.get_or
      (Option.map (λ (w : Wire). w.domain) (find (λ (w : Wire). key_eq w.name wire) v.member.wires))
      ""

abbrev prefs_for : View → String → List String
prefs_for v zone =
    Option.get_or
      (Option.map (λ (p : HostZonePref). p.order)
        (find (λ (p : HostZonePref). key_eq p.zone zone) (prefs_of v.fabric v.member)))
      []

-- A leg's port: the index goes into its MAC as a byte.
abbrev port_at : View → Zone → String → String → ℕ → ProbePort
port_at v z ifname wire i =
    Port.new ifname wire (island_of v wire) (synthetic_mac v.member.node z.id (i % 256))

abbrev ports_at : View → Zone → List Port → List ProbePort
ports_at v z ports =
    map (λ (p : ℕ × Port). port_at v z p.1.ifname p.1.wire p.0) (enumerate_from 0 ports)

abbrev ingress_ports : View → Zone → GwRow → List ProbePort
ingress_ports v z r =
    if migrates r then ports_at v z r.ports else port_at v z r.ifname r.home 0 ∷ []

abbrev pub ingress_with : View → GwRow → Zone → ℕ → Leg
ingress_with v r z router =
    State.new r.zone r.ifname (migrates r) (prefs_for v r.zone) r.home (ingress_ports v z r)
      (ingress (to_be32 router))

-- The zone, its ingress and its router's address, or no leg.
abbrev pub ingress_leg : View → GwRow → Option Leg
ingress_leg v r = do
  z ← zone r.zone v.fabric
  gw ← z.gw
  router ← Ipv4.from_str gw.router
  some (ingress_with v r z router)

-- The other members that have a bond leg in the zone.
abbrev pub peers_among : View → String → List Member → Option (List Member)
peers_among v zone [] = some []
peers_among v zone (m ∷ ms) =
    let rest = peers_among v zone ms in
    let asked = fallback_rows_of v.fabric m >>= λ rows.
    Option.map
      (λ peers. if any (λ (r : FallbackRow). key_eq r.zone zone) rows then m ∷ peers else peers)
      rest in
    if key_eq m.name v.member.name then rest else asked

-- `10.<id>.<seg>.<node>`, octet by octet: of bytes the text is always an address.
abbrev pub addr_of : Zone → ℕ → Member → Bytes
addr_of z seg m = 10 ∷ z.id ∷ seg ∷ m.node ∷ []

abbrev pub rid_set : Zone → List Member → List (ℕ × Unit {0})
rid_set z [] = []
rid_set z (m ∷ ms) = insert (identity_addr z m) tt (rid_set z ms)

abbrev pub rids : Zone → List Member → List ℕ
rids z ms = map (λ (r : ℕ × Unit {0}). r.0) (rid_set z ms)

abbrev pub known_to : View → Zone → ℕ → List Member → Fallback
known_to v z seg peers = record {
  targets = map (addr_of z seg) peers;
  peers = rids z peers;
  self_rid = identity_addr z v.member;
  windows = from_ospf v.fabric.ospf_hello v.fabric.ospf_dead;
  quiet_now = false;
  noted_quiet = false;
  noted_deaf = false;
  engine_sock = String.◌++◌ v.fabric.run_dir "/engine.sock";
  noted_engine_unreadable = false;
}

abbrev pub fallback_with : View → FallbackRow → Zone → List Member → Leg
fallback_with v r z peers =
    State.new r.zone r.ifname true (prefs_for v r.zone) r.home (ports_at v z r.ports)
      (fallback (known_to v z r.seg peers))

abbrev pub fallback_leg : View → FallbackRow → Option Zone → Option (Option Leg)
fallback_leg v r none = some none
fallback_leg v r (some z) =
    Option.map (λ peers. some (fallback_with v r z peers)) (peers_among v r.zone v.fabric.members)

-- What the prober says: a leg's line, or that the timers leave no room to move.
pub data Said : Type 0 where
  of_leg : Line → Said
  no_room : (hello dead : ℕ) → Said

pub record Prober : Type 0 where
  pub legs : List Leg
  pub log : List Said

abbrev is_fallback : Kind → Bool
is_fallback (ingress router) = false
is_fallback (fallback f) = true

abbrev pub warned : Fabric → List Leg → List Said
warned f legs =
    let w = from_ospf f.ospf_hello f.ospf_dead in
    if any (λ (l : Leg). is_fallback l.kind) legs
      && not (move_fits_inside_dead w probe_interval f.ospf_dead)
    then no_room f.ospf_hello f.ospf_dead ∷ []
    else []

abbrev pub prober_of : Fabric → List Leg → Prober
prober_of f legs = record { legs = legs; log = warned f legs }

unfoldable pub from_view : View → Option Prober
from_view v = do
  gws ← gw_rows_of v.fabric v.member
  rows ← fallback_rows_of v.fabric v.member
  legs ← map_all (λ (r : FallbackRow). fallback_leg v r (zone r.zone v.fabric)) rows
  some (prober_of v.fabric (present (map (ingress_leg v) gws) ++ present legs))

abbrev pub is_empty : Prober → Bool
is_empty p = not (any (λ _. true) p.legs)

-- `drain_log`: what is left, and what was said.
abbrev pub drain_log : Prober → Prober × List Said
drain_log p = (record p { log = [] }, p.log)

-- The loop of `Prober::tick`: the world of a leg is told by its bond.
pub tick_all : (String → World) → ℕ → List Leg → List Leg × List Said × List Probe
tick_all world now [] = ([], [], [])
tick_all world now (l ∷ ls) =
    let t = tick (world l.bond) now l in
    let (legs, said, probes) = tick_all world now ls in
    (t.leg ∷ legs, map of_leg t.lines ++ said, t.probes ++ probes)
