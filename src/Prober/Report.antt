-- ===== src/Prober/Report.antt =====
-- What the prober publishes of its legs: `Prober::report` and `Prober::tick` of src/prober/mod.rs, with
-- `ProbedLeg` and `ProbedPort` of src/supervisor/report.rs.
use Prim.Native.String.{String}
use mathlib.Core.Option
use cfab.Prelude.{ℕ, ◌-◌, ◌/◌, Bool, not, ◌&&◌, List, [], ◌∷◌, ◌++◌, map, Option}
use cfab.Prober.Leg.Port.{ProbePort}
use cfab.Prober.Leg.State.{Kind, ingress, fallback, Leg, World}
use cfab.Prober.Leg.State
use cfab.Prober.Leg.Ask.{Probe}
use cfab.Prober.Build.{Prober, tick_all}

pub record ProbedPort : Type 0 where
  pub wire : String
  pub island : String
  pub reachable : Bool
  pub suspect : Bool
  pub last_reply_ms : Option ℕ

pub record ProbedLeg : Type 0 where
  pub zone : String
  pub bond : String
  pub active : Option String
  pub quiet : Bool
  pub moves : ℕ
  pub ports : List ProbedPort

pub record ProbeRows : Type 0 where
  pub ingress_rows : List ProbedLeg
  pub fallback_rows : List ProbedLeg

-- In whole milliseconds; the difference of two instants stops at 0.
abbrev pub probed_port : ℕ → ProbePort → ProbedPort
probed_port now s = record {
  wire = s.wire;
  island = s.island;
  reachable = s.state.reachable && s.carrier && not s.hello_dead;
  suspect = s.escalating;
  last_reply_ms = Option.map (λ t. (now - t) / 1000000) s.last_reply;
}

abbrev pub probed_leg : ℕ → Leg → ProbedLeg
probed_leg now l = record {
  zone = l.zone;
  bond = l.bond;
  active = l.active_now;
  quiet = State.quiet l;
  moves = l.moves;
  ports = map (probed_port now) l.ports;
}

-- A row goes to its family, in the order of the legs.
abbrev pub push : Kind → ProbedLeg → ProbeRows → ProbeRows
push (ingress router) row rows = record rows { ingress_rows = row ∷ rows.ingress_rows }
push (fallback f) row rows = record rows { fallback_rows = row ∷ rows.fallback_rows }

abbrev pub report : ℕ → List Leg → ProbeRows
report now [] = record { ingress_rows = []; fallback_rows = [] }
report now (l ∷ ls) = push l.kind (probed_leg now l) (report now ls)

-- `Prober::tick`: the prober, its rows and the probes that were sent.
pub tick : (String → World) → ℕ → Prober → Prober × ProbeRows × List Probe
tick world now p =
    let (legs, said, probes) = tick_all world now p.legs in
    (record { legs = legs; log = p.log ++ said }, report now legs, probes)
