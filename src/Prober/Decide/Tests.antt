-- ===== src/Prober/Decide/Tests.antt =====
-- Runs of `decide` at the bond of the source's first test: a healthy bond that sits on the wrong
-- wire (src/prober/decide.rs).
use Prim.Native.String.{String}
use cfab.Prelude.{
  ◌≡◌, refl, ◌⊎◌, ◌<◌, Bool, true, false, none, some, List, [], ◌∷◌, arith, All, filter, ◌≤◌,
}
use cfab.Prelude.Search.{FirstMin}
use cfab.Prober.Decide.{Candidate, usable, rank, cost, port_of, best, skipped_for_carrier, decide}
use cfab.Prober.Decide.Choice.{Distinct, decide_moves, decide_stays}
use text.Mathlib.TextEquality.{eq_iff}

abbrev port : String → String → Bool → Candidate
port name wire carrier = record {
  ifname = name;
  wire = wire;
  reachable = true;
  carrier = carrier;
  link_up = true;
}

abbrev ports : List Candidate
ports = port "fb-b" "eth1" true ∷ port "fb-c" "eth0" true ∷ port "fb-a" "eth9" true ∷ []

abbrev order : List String
order = "eth9" ∷ "eth1" ∷ "eth0" ∷ []

moved : decide (some "fb-b") ports order ≡ some "fb-a"
unfolding decide best port_of rank
moved = refl

decide_moves_example :
    (b : Candidate) × (b.ifname ≡ "fb-a")
    × FirstMin (cost order) b (filter usable ports)
    × ((c : Candidate)
        → port_of (some "fb-b") ports ≡ some c
        → usable c ≡ true
        → cost order b < cost order c)
decide_moves_example = decide_moves (some "fb-b") ports order moved

stayed : decide (some "fb-a") ports order ≡ none
unfolding decide best port_of rank
stayed = refl

decide_stays_example :
    (filter usable ports ≡ [])
    ⊎ ((c : Candidate) × (port_of (some "fb-a") ports ≡ some c)
        × (usable c ≡ true)
        × All (λ d. cost order c ≤ cost order d) (filter usable ports))
decide_stays_example = decide_stays (some "fb-a") ports order stayed

ports-Distinct : Distinct ports
ports-Distinct = ground (
  arith,
  eq_iff "fb-b" "fb-c",
  eq_iff "fb-b" "fb-a",
  eq_iff "fb-c" "fb-a",
  eq_iff "fb-c" "fb-b",
  eq_iff "fb-a" "fb-b",
  eq_iff "fb-a" "fb-c",
)

-- The preferred wire is unplugged.
abbrev unplugged : List Candidate
unplugged = port "fb-b" "eth1" true ∷ port "fb-a" "eth9" false ∷ []

skipped : skipped_for_carrier (some "fb-b") unplugged order ≡ some (port "fb-a" "eth9" false)
unfolding skipped_for_carrier port_of rank
skipped = refl
