-- ===== src/Prober/Leg/Actuate.antt =====
-- `Leg::actuate` and `Leg::note_no_carrier` of src/prober/mod.rs. `primary` and the active port are
-- written together; the answer is that of the two writes in order.
use Prim.Native.String.{String}
use text.Mathlib.Text.{◌==◌ as str_eq}
use mathlib.Core.Option
use cfab.Prelude.{
  ℕ, ◌+◌, Bool, true, false, not, ◌&&◌, List, [], ◌∷◌, map, Option, none, some, if◌then◌else◌,
}
use cfab.Prelude.Search.{find}
use cfab.Prober.Decide.{Candidate, port_of, skipped_for_carrier, decide}
use cfab.Prober.Leg.Port.{ProbePort, is_up, candidate}
use cfab.Prober.Leg.State.{
  Leg, Reason, lost_carrier, hello_silent, unreachable, returned, link_not_up, preferred, Line,
  cannot_move, moved, moved_from_none, no_carrier, World, same_text, ifname_is, grace_of,
}

-- The first port of a name changes: `iter_mut().find(..)`.
unfoldable pub at_port : String → (ProbePort → ProbePort) → List ProbePort → List ProbePort
at_port name f [] = []
at_port name f (s ∷ ss) = if ifname_is name s then f s ∷ ss else s ∷ at_port name f ss

-- `active.filter(|a| !a.is_empty())`.
abbrev pub non_empty : Option String → Option String
non_empty none = none
non_empty (some a) = if str_eq a "" then none else some a

abbrev pub restarted : ProbePort → ProbePort
restarted s = record s { returned = false }

-- The active port's return window is restarted.
abbrev pub restart : Option String → List ProbePort → List ProbePort
restart none ports = ports
restart (some a) ports = at_port a restarted ports

abbrev pub pair_of : Option Candidate → Option Candidate → Option (String × String)
pair_of (some skipped) (some on) = some (skipped.wire, on.wire)
pair_of _ _ = none

abbrev pub same_pair : Option (String × String) → Option (String × String) → Bool
same_pair none none = true
same_pair (some p) (some q) = str_eq p.0 q.0 && str_eq p.1 q.1
same_pair _ _ = false

abbrev pub no_carrier_lines : Option (String × String) → List Line
no_carrier_lines none = []
no_carrier_lines (some p) = no_carrier p.0 p.1 ∷ []

-- `note_no_carrier`.
unfoldable pub note_no_carrier : Option String → List Candidate → Leg → Leg × List Line
note_no_carrier active cands l =
    let note = pair_of (skipped_for_carrier active cands l.prefs) (port_of active cands) in
    if same_pair note l.noted_no_carrier
    then (l, [])
    else (record l { noted_no_carrier = note }, no_carrier_lines note)

-- The wire of a port, or the name itself.
abbrev pub wire_of : String → List ProbePort → String
wire_of name ports = Option.get_or (Option.map (λ s. s.wire) (find (ifname_is name) ports)) name

abbrev pub port_named : Option String → List ProbePort → Option ProbePort
port_named none ports = none
port_named (some a) ports = find (ifname_is a) ports

-- `self.refused.as_ref() == Some(&attempt)`.
abbrev pub was_refused : Option (String × Option String) → String → Option String → Bool
was_refused none target active = false
was_refused (some r) target active = str_eq r.0 target && same_text r.1 active

-- Why the bond left a port, in the order of the arms.
pub reason : ProbePort → Bool → Reason
reason s target_returned =
    if not s.carrier
    then lost_carrier
    else if s.hello_dead
    then hello_silent
    else if not s.state.reachable
    then unreachable
    else if target_returned
    then returned
    else if not (is_up s.bond_link)
    then link_not_up
    else preferred

abbrev pub move_line : Option ProbePort → Bool → String → Line
move_line none target_returned to = moved_from_none to
move_line (some s) target_returned to = moved (reason s target_returned) s.wire to

abbrev pub has_returned : Option ProbePort → Bool
has_returned none = false
has_returned (some s) = s.returned

abbrev pub graced : ℕ → ProbePort → ProbePort
graced until s = record s { grace_until = some until }

-- What a successful move leaves.
unfoldable pub arrive : Option String → ℕ → String → Leg → Leg × List Line
arrive active now target l =
    let to = wire_of target l.ports in
    let line =
      move_line (port_named active l.ports) (has_returned (port_named (some target) l.ports)) to in
    (
      record l {
        refused = none;
        moves = l.moves + 1;
        held = target;
        active_now = some target;
        ports = at_port target (graced (now + grace_of l.kind)) l.ports;
      },
      line ∷ [],
    )

-- What the two writes answered.
unfoldable pub conclude : Option String → Option String → ℕ → String → Leg → Leg × List Line
unfolding arrive
conclude (some why) active now target l = (
  record l { refused = some (target, active) },
  cannot_move (wire_of target l.ports) target why ∷ [],
)
conclude none active now target l = arrive active now target l

-- The move to a target, unless the same one was just refused.
unfoldable pub move : World → Option String → ℕ → String → Leg → Leg × List Line
unfolding conclude
move w active now target l =
    let l = record l { noted_no_carrier = none } in
    if was_refused l.refused target active
    then (l, [])
    else conclude (w.move_to target) active now target l

-- `actuate` on a leg with ports to move between.
unfoldable pub actuate_on : World → Option String → ℕ → Leg → Leg × List Line
unfolding move note_no_carrier
actuate_on w active now l =
    let l = record l { ports = restart active l.ports } in
    let cands = map candidate l.ports in
    elim (decide active cands l.prefs) [
      | none ↦ note_no_carrier active cands l
      | some target ↦ move w active now target l
    ]

-- `Leg::actuate`.
unfoldable pub actuate : World → Option String → ℕ → Leg → Leg × List Line
unfolding actuate_on
actuate w active now l = if not l.actuates then (l, []) else actuate_on w (non_empty active) now l
