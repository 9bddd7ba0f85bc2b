-- ===== src/Prober/Leg/Ask.antt =====
-- `Leg::ask` of src/prober/mod.rs. Beside the ports, each step returns the probes it tried to send,
-- in order: the port and the address that is asked.
use Prim.Native.String.{String}
use cfab.Prelude.{
  ℕ, ◌+◌, Bool, true, false, not, List, [], ◌∷◌, ◌++◌, map, Option, none, some, ltb, leb,
  if◌then◌else◌, any, length,
}
use cfab.Prelude.Bytes.{Bytes, bytes_eq}
use cfab.Prober.Hysteresis.{observe}
use cfab.Prober.Frame.{probe}
use cfab.Prober.Leg.Port.{ProbePort, escalation_targets}
use cfab.Prober.Leg.State.{Fallback, Kind, ingress, fallback, Leg, World, target_of}

abbrev pub Probe : Type 0
Probe = String × Bytes

abbrev pub send : World → ProbePort → Bytes → Bool
send w s t = w.sends s.ifname (probe s.mac t)

unfoldable pub ask_router : World → Bytes → ProbePort → ProbePort
ask_router w router s =
    if send w s router
    then record s { probed = true }
    else record s { probed = false; state = observe s.state false }

unfoldable pub ask_routers : World → Bytes → List ProbePort → List ProbePort × List Probe
ask_routers w router [] = ([], [])
ask_routers w router (s ∷ ss) =
    let (ports, probes) = ask_routers w router ss in
    (ask_router w router s ∷ ports, (s.ifname, router) ∷ probes)

-- `is_some_and(|t| now < t)`.
abbrev pub not_yet : ℕ → Option ℕ → Bool
not_yet now none = false
not_yet now (some t) = ltb now t

-- `filter_map(|rid| target_of(&f.targets, *rid))`.
abbrev pub prepend : Option Bytes → List Bytes → List Bytes
prepend none ts = ts
prepend (some t) ts = t ∷ ts

unfoldable pub recent_targets : List Bytes → List ℕ → List Bytes
recent_targets targets [] = []
recent_targets targets (rid ∷ rids) = prepend (target_of targets rid) (recent_targets targets rids)

-- The loop that fills the list up from the segment.
unfoldable pub fill_up : List Bytes → List Bytes → List Bytes
fill_up chosen [] = chosen
fill_up chosen (t ∷ ts) =
    if leb escalation_targets (length chosen)
    then chosen
    else (let next = if any (bytes_eq t) chosen then chosen else chosen ++ (t ∷ []) in
        fill_up next ts)

unfoldable pub targets_of : Fallback → ProbePort → List Bytes
unfolding recent_targets fill_up
targets_of f s = fill_up (recent_targets f.targets s.recent) f.targets

-- The end of the loop's body, by whether a probe was sent.
unfoldable pub settle_sent : Bool → ProbePort → ProbePort
settle_sent true s = record s { probed = true }
settle_sent false s =
    let state = observe s.state false in
    record s {
      probed = false;
      state = state;
      escalating = state.reachable;
      next_ask = if state.reachable then s.next_ask else none;
    }

-- The question is put to the targets.
unfoldable pub put : World → Fallback → ProbePort → ProbePort × List Probe
unfolding settle_sent
put w f s =
    let targets = targets_of f s in
    (settle_sent (any (send w s) targets) s, map (λ t. (s.ifname, t)) targets)

-- The body of the loop on a fallback leg.
unfoldable pub ask_peers : World → ℕ → Fallback → ProbePort → ProbePort × List Probe
unfolding put
ask_peers w now f s =
    if not s.escalating
    then (s, [])
    else if s.state.reachable
    then put w f s
    else if not_yet now s.next_ask
    then (record s { probed = false }, [])
    else put w f (record s { next_ask = some (now + f.windows.hello) })

unfoldable pub ask_all : World → ℕ → Fallback → List ProbePort → List ProbePort × List Probe
unfolding ask_peers
ask_all w now f [] = ([], [])
ask_all w now f (s ∷ ss) =
    let (s, first) = ask_peers w now f s in
    let (ss, rest) = ask_all w now f ss in (s ∷ ss, first ++ rest)

unfoldable pub ask_kind : Kind → World → ℕ → List ProbePort → List ProbePort × List Probe
unfolding ask_routers ask_all
ask_kind (ingress router) w now ports = ask_routers w router ports
ask_kind (fallback f) w now ports = ask_all w now f ports

-- `Leg::ask`.
unfoldable pub ask : World → ℕ → Leg → Leg × List Probe
unfolding ask_kind
ask w now l =
    let (ports, probes) = ask_kind l.kind w now l.ports in (record l { ports = ports }, probes)
