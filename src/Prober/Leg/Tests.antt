-- ===== src/Prober/Leg/Tests.antt =====
-- A fallback leg over two wires, the bond on the first (src/prober/mod.rs).
use Prim.Native.String.{String}
use cfab.Prelude.{
  ℕ, ◌+◌, ◌*◌, ◌≤◌, ◌≡◌, ◌⊎◌, true, false, [], ◌∷◌, map, none, some, arith, Pairs, any, length,
}
use cfab.Prelude.Bytes.{Bytes}
use cfab.Prelude.Time.{from_secs}
use cfab.Prober.Passive.{is_good}
use cfab.Prober.Leg.Port.{BondLink, up, ProbePort, evidence}
use cfab.Prober.Leg.Port
use cfab.Prober.Leg.State.{Fallback, Kind, fallback, Leg, World, answered, port_for, held_primaries}
use cfab.Prober.Leg.State
use cfab.Prober.Leg.Judge.{judge_ports}
use cfab.Prober.Leg.Actuate.{actuate}
use cfab.Prober.Leg.Tick.{tick}
use cfab.Prober.Leg.Carries.{NoHello}
use cfab.Prober.Leg.Condemned.{Cause, PeersDown, arp_never_clears, condemned_on_evidence}
use cfab.Prober.Leg.Moves.{Stayed, Moved, actuate_moves}
use cfab.Prober.Leg.Asking.{ticks, probes_are_a_burst}

abbrev now : ℕ
now = from_secs 100

abbrev peer : Bytes
peer = 10 ∷ 90 ∷ 0 ∷ 2 ∷ []

abbrev known : Fallback
known = record {
  targets = peer ∷ [];
  peers = 2 ∷ [];
  self_rid = 1;
  windows = record {
    active = from_secs 3;
    backup = from_secs 8;
    grace = from_secs 8;
    dead = from_secs 8;
    hello = from_secs 2;
  };
  quiet_now = false;
  noted_quiet = false;
  noted_deaf = false;
  engine_sock = "sock";
  noted_engine_unreadable = false;
}

abbrev fresh : String → String → ProbePort
fresh ifname wire = Port.new ifname wire "island" (2 ∷ 0xcf ∷ 0xab ∷ 1 ∷ 2 ∷ 3 ∷ [])

-- The first port has been silent since 90 s, the second heard a peer at 99 s.
abbrev silent : ProbePort
silent = record (fresh "p0" "a") {
  carrier = true;
  bond_link = some up;
  present = true;
  peer_heard = some (from_secs 90);
  recent = 2 ∷ [];
}

abbrev lively : ProbePort
lively = record (fresh "p1" "b") {
  carrier = true;
  bond_link = some up;
  present = true;
  peer_heard = some (from_secs 99);
  recent = 2 ∷ [];
}

abbrev started : Leg
started = State.new "z" "bond0" true ("a" ∷ "b" ∷ []) "a" (silent ∷ lively ∷ []) (fallback known)

-- Nothing arrives, every send is accepted, the engine says that no peer is adjacent.
abbrev world : World
world = record {
  active_slave = λ _. some "p0";
  bond_port_state = λ _. answered true (some up);
  listen = λ _. none;
  recv = λ _. [];
  sends = λ _ _. true;
  move_to = λ _. none;
  neighbors = some (λ _. false);
}

abbrev refusing : World
refusing = record world { move_to = λ _. some "EINVAL" }

arp_never_clears_example :
    Pairs
      (λ s s'. NoHello world s.ifname → s.hello_dead ≡ true → s'.hello_dead ≡ true)
      (record silent { hello_dead = true } ∷ lively ∷ [])
      (tick world now
        (record started { ports = record silent { hello_dead = true } ∷ lively ∷ [] })).leg.ports
arp_never_clears_example =
    arp_never_clears world now
      (record started { ports = record silent { hello_dead = true } ∷ lively ∷ [] })

condemned_on_evidence_example :
    Pairs
      (Cause
        (PeersDown world known
          × (any (is_good now known.windows) (map (evidence (some "p0")) (silent ∷ lively ∷ []))
              ≡ true))
        now
        known
        (some "p0"))
      (silent ∷ lively ∷ [])
      (judge_ports world (some "p0") now known (silent ∷ lively ∷ [])).ports
condemned_on_evidence_example =
    condemned_on_evidence world (some "p0") now known (silent ∷ lively ∷ [])

abbrev condemned : Leg
condemned = record started { ports = record silent { hello_dead = true } ∷ lively ∷ [] }

actuate_moves_example :
    let r = (actuate world (some "p0") now condemned).0 in
    Stayed condemned r ⊎ Moved world condemned r
actuate_moves_example = actuate_moves world (some "p0") now condemned

probes_are_a_burst_example :
    length (tick world (now + 1) (ticks ((world, now) ∷ []) started)).probes
    ≤ 4 * length started.ports
unfolding State.new
probes_are_a_burst_example =
    probes_are_a_burst ((world, now) ∷ []) world (now + 1) started (omega arith, (omega arith, tt))

abbrev dead : ProbePort
dead = record silent { state = record { reachable = false; streak = 0 }; escalating = true }

abbrev other : Leg
other = record started { bond = "bond1"; actuates = false }
