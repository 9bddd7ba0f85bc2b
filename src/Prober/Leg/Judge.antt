-- ===== src/Prober/Leg/Judge.antt =====
-- The second half of `Leg::observe` in src/prober/mod.rs: the ports are judged together, the silent
-- active one may be condemned, and the suspects are escalated.
use Prim.Native.String.{String}
use cfab.Prelude.{
  ℕ, Bool, true, false, not, ◌&&◌, List, [], ◌∷◌, ◌++◌, map, Option, none, some, ltb, leb, ◌==◌,
  if◌then◌else◌, any, length,
}
use cfab.Prober.Hysteresis.{precharge}
use cfab.Prober.Passive.{Verdict, good, watch, suspect, quiet, beyond, verdicts}
use cfab.Prober.Leg.Port.{ProbePort, is_named, evidence, note_usability}
use cfab.Prober.Leg.State.{
  Fallback, Kind, ingress, fallback, Leg, Line, unreadable, cannot_listen, engine_unreadable,
  no_peers_heard, World, same_text,
}
use cfab.Prober.Leg.Receive.{Round, receive}

-- The test of `condemn` on one port.
abbrev pub is_suspect : Verdict → Bool
is_suspect suspect = true
is_suspect _ = false

unfoldable pub is_condemned : ℕ → Fallback → Option String → ProbePort → Verdict → Bool
is_condemned now f active s v =
    is_suspect v && not s.hello_dead && is_named active s && beyond now f.windows.dead s.peer_heard

-- `self.ports.iter().zip(&verdicts)`.
unfoldable pub condemn : ℕ → Fallback → Option String → List ProbePort → List Verdict → List Bool
condemn now f active [] vs = []
condemn now f active (s ∷ ss) [] = []
condemn now f active (s ∷ ss) (v ∷ vs) = is_condemned now f active s v ∷ condemn now f active ss vs

unfoldable pub mark_dead : List ProbePort → List Bool → List ProbePort
mark_dead [] cs = []
mark_dead (s ∷ ss) [] = s ∷ ss
mark_dead (s ∷ ss) (c ∷ cs) =
    record s { hello_dead = if c then true else s.hello_dead } ∷ mark_dead ss cs

-- `peers_all_below_two_way`, given the engine's report.
unfoldable pub peers_all_below_two_way : Option (ℕ → Bool) → List ℕ → Option Bool
peers_all_below_two_way none peers = none
peers_all_below_two_way (some two_way) peers = some (not (any two_way peers))

-- The ports, the leg's knowledge and the lines, as the judging goes on.
pub record Judged : Type 0 where
  pub ports : List ProbePort
  pub known : Fallback
  pub lines : List Line

-- The `match` on what the engine says.
unfoldable pub convict : Fallback → List ProbePort → List Bool → Option Bool → Judged
convict f ports cs (some is_down) = record {
  ports = if is_down then mark_dead ports cs else ports;
  known = record f { noted_engine_unreadable = false };
  lines = [];
}
convict f ports cs none = record {
  ports = ports;
  known = record f { noted_engine_unreadable = true };
  lines = if f.noted_engine_unreadable then [] else engine_unreadable ∷ [];
}

-- The engine is asked only when a port is to be condemned.
unfoldable pub witness : World → Fallback → List ProbePort → List Bool → Judged
unfolding convict
witness w f ports cs =
    if any (λ c. c) cs
    then convict f ports cs (peers_all_below_two_way w.neighbors f.peers)
    else record { ports = ports; known = f; lines = [] }

abbrev pub stopped : ProbePort → ProbePort
stopped s = record s { escalating = false; probed = false; next_ask = none }

-- What a verdict does to its port.
unfoldable pub sentence : ProbePort → Verdict → ProbePort
sentence s good = stopped s
sentence s suspect =
    if s.hello_dead
    then stopped s
    else if not s.escalating
    then (record s {
      escalating = true;
      probed = false;
      next_ask = none;
      state = precharge s.state;
    })
    else s
sentence s watch = s
sentence s quiet = stopped s

unfoldable pub sentence_all : List ProbePort → List Verdict → List ProbePort
sentence_all [] vs = []
sentence_all (s ∷ ss) [] = s ∷ ss
sentence_all (s ∷ ss) (v ∷ vs) = sentence s v ∷ sentence_all ss vs

abbrev pub is_silent : Verdict → Bool
is_silent quiet = true
is_silent _ = false

-- `all_quiet`: there is a port, and every verdict is quiet.
pub all_quiet : List ProbePort → List Verdict → Bool
all_quiet ports vs = not (leb (length ports) 0) && not (any (λ v. not (is_silent v)) vs)

pub note_quiet : Bool → Fallback → Fallback × List Line
note_quiet all f =
    if all && not f.noted_quiet
    then (record f { quiet_now = all; noted_quiet = true }, no_peers_heard ∷ [])
    else if not all
    then (record f { quiet_now = all; noted_quiet = false }, [])
    else (record f { quiet_now = all }, [])

-- From `evidence` to the fold of the verdicts.
unfoldable pub judge_ports : World → Option String → ℕ → Fallback → List ProbePort → Judged
unfolding witness note_quiet
judge_ports w active now f ports =
    let vs = verdicts now (map (evidence active) ports) f.windows (not (leb (length f.peers) 0)) in
    let j = witness w f ports (condemn now f active ports vs) in
    let (known, lines) = note_quiet (all_quiet j.ports vs) j.known in
    record { ports = sentence_all j.ports vs; known = known; lines = j.lines ++ lines }

-- The line about the socket is said once, and armed again by a tick that could read.
unfoldable pub note_nl_err : Option String → Leg → Leg × List Line
note_nl_err none l = (record l { noted_nl_err = none }, [])
note_nl_err (some why) l =
    if same_text l.noted_nl_err (some why)
    then (l, [])
    else (record l { noted_nl_err = some why }, unreadable why ∷ [])

abbrev pub deaf_lines : Bool → List (String × String) → List Line
deaf_lines whole [] = []
deaf_lines whole ((wire, why) ∷ rest) = cannot_listen wire why whole ∷ deaf_lines whole rest

-- A fallback leg after its ports have received.
unfoldable pub judge_leg : World → Option String → ℕ → Fallback → Round → Leg → Leg × List Line
unfolding judge_ports
judge_leg w active now f r l =
    let total = ltb 0 r.deaf && r.deaf == length r.ports in
    let f = record f { noted_deaf = total } in
    let lines = deaf_lines total r.newly_deaf in
    if total
    then (record l { ports = map note_usability r.ports; kind = fallback f }, lines)
    else (let j = judge_ports w active now f r.ports in
        (
          record l { ports = map note_usability j.ports; kind = fallback j.known },
          lines ++ j.lines,
        ))

-- The part of `observe` that the kind of the leg decides.
unfoldable pub judge_kind : World → Option String → ℕ → Kind → Round → Leg → Leg × List Line
unfolding judge_leg
judge_kind w active now (ingress router) r l =
    (record l { ports = map note_usability r.ports; kind = ingress router }, [])
judge_kind w active now (fallback f) r l = judge_leg w active now f r l

-- `Leg::observe`.
unfoldable pub observe : World → Option String → ℕ → Leg → Leg × List Line
unfolding note_nl_err judge_kind
observe w active now l =
    let r = receive l.kind w active now l.ports in
    let (l, noted) = note_nl_err r.nl_err l in
    let (l, lines) = judge_kind w active now l.kind r l in (l, r.lines ++ noted ++ lines)
