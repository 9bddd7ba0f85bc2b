-- ===== src/Prober/Leg/Receive.antt =====
-- The first half of `Leg::observe` in src/prober/mod.rs: each port's state is read, its tap
-- drained, and what arrived folded into it.
use Prim.Native.String.{String}
use cfab.Prelude.{
  ℕ, ◌+◌, Bool, true, false, not, ◌&&◌, ◌||◌, List, [], ◌∷◌, ◌++◌, Option, none, some, ◌==◌,
  if◌then◌else◌, any,
}
use cfab.Prelude.Bytes.{Bytes}
use cfab.Prober.Hysteresis.{observe, heard}
use cfab.Prober.Frame.{reply_from, hello_router_id}
use cfab.Prober.Leg.Port.{BondLink, unknown, ProbePort, is_named, saw}
use cfab.Prober.Leg.State.{
  Fallback, Kind, ingress, fallback, Line, unknown_link, PortAnswer, answered, no_device, failed,
  World, same_text, grace_of,
}

abbrev pub is_some {ℓ} : {A : Type ℓ} → Option A → Bool
is_some none = false
is_some (some a) = true

abbrev pub same_number : Option ℕ → ℕ → Bool
same_number none n = false
same_number (some m) n = m == n

-- What the read of one port leaves: the port, whether its netdev is present, the lines, and why
-- the read failed.
pub record Reading : Type 0 where
  pub port : ProbePort
  pub present : Bool
  pub lines : List Line
  pub nl_err : Option String

abbrev pub unseen : ProbePort → ProbePort
unseen s = record s { carrier = false; bond_link = none; noted_bond_link = none }

-- The arm `Ok(st)`, by the link state.
unfoldable pub answered_link : ProbePort → Option BondLink → Reading
answered_link s none = record {
  port = record s { bond_link = none; noted_bond_link = none };
  present = true;
  lines = [];
  nl_err = none;
}
answered_link s (some (unknown n)) = record {
  port = record s { bond_link = none; noted_bond_link = some n };
  present = true;
  lines = if same_number s.noted_bond_link n then [] else unknown_link s.wire n ∷ [];
  nl_err = none;
}
answered_link s (some link) = record {
  port = record s { bond_link = some link; noted_bond_link = none };
  present = true;
  lines = [];
  nl_err = none;
}

-- The `match` on `bond_port_state`.
unfoldable pub read_port : PortAnswer → ProbePort → Reading
unfolding answered_link
read_port (answered carrier link) s = answered_link (record s { carrier = carrier }) link
read_port no_device s = record { port = unseen s; present = false; lines = []; nl_err = none }
read_port (failed why) s = record {
  port = unseen s;
  present = false;
  lines = [];
  nl_err = some why;
}

-- A netdev that has just come back gets its grace period.
unfoldable pub appear : ℕ → Kind → Reading → ProbePort
appear now kind r =
    let s = r.port in
    record s {
      present = r.present;
      grace_until =
          if r.present && not s.present then some (now + grace_of kind) else s.grace_until;
    }

-- What the frames of one tick were: the port, `replied` and `heard_now`.
pub record Drained : Type 0 where
  pub port : ProbePort
  pub replied : Bool
  pub heard_now : Bool

-- One frame of a fallback leg, by the Router ID it carries. A hello from a Router ID that is not
-- expected is ignored.
unfoldable pub hear_rid : Fallback → Option String → ℕ → Drained → ℕ → Drained
hear_rid f active now d rid =
    if rid == f.self_rid
    then (record d {
      port = record d.port { self_heard = some now };
      heard_now = d.heard_now || not (is_named active d.port);
    })
    else if any (λ p. p == rid) f.peers
    then (record d { port = saw rid (record d.port { peer_heard = some now }); heard_now = true })
    else d

unfoldable pub hear_frame : Fallback → Option String → ℕ → Drained → Bytes → Drained
unfolding hear_rid
hear_frame f active now d frame = elim (hello_router_id frame) [
  | some rid ↦ hear_rid f active now d rid
  | none ↦
      if d.port.escalating && is_some (reply_from frame d.port.mac f.targets)
      then record d { replied = true }
      else d
]

unfoldable pub hear_all : Fallback → Option String → ℕ → Drained → List Bytes → Drained
hear_all f active now d [] = d
hear_all f active now d (frame ∷ frames) =
    hear_all f active now (hear_frame f active now d frame) frames

unfoldable pub drain : Kind → Option String → ℕ → ProbePort → List Bytes → Drained
unfolding hear_all
drain (ingress router) active now s frames = record {
  port = s;
  replied = any (λ frame. is_some (reply_from frame s.mac (router ∷ []))) frames;
  heard_now = false;
}
drain (fallback f) active now s frames =
    hear_all f active now (record { port = s; replied = false; heard_now = false }) frames

-- `last_reply`.
unfoldable pub stamp : ℕ → Drained → ProbePort
stamp now d =
    let s = d.port in
    if d.replied || same_number s.peer_heard now || same_number s.self_heard now
    then record s { last_reply = some now }
    else s

-- The counted evidence.
unfoldable pub fold_ingress : Bool → ProbePort → ProbePort
fold_ingress replied s = if s.probed then record s { state = observe s.state replied } else s

unfoldable pub fold_fallback : Bool → Bool → ProbePort → ProbePort
fold_fallback replied heard_now s =
    let s = record s { hello_dead = if heard_now then false else s.hello_dead } in
    if heard_now || replied
    then record s { state = heard s.state; escalating = false; next_ask = none }
    else if s.escalating && s.probed
    then record s { state = observe s.state false }
    else s

unfoldable pub fold_kind : Kind → Drained → ProbePort → ProbePort
unfolding fold_ingress fold_fallback
fold_kind (ingress router) d s = fold_ingress d.replied s
fold_kind (fallback f) d s = fold_fallback d.replied d.heard_now s

-- From the frames on.
unfoldable pub take_in : Kind → Option String → ℕ → List Bytes → ProbePort → ProbePort
unfolding fold_kind stamp drain
take_in kind active now frames s =
    let d = drain kind active now s frames in fold_kind kind d (stamp now d)

-- The tap of a fallback leg: `some` of the text of the error, if it cannot be opened.
abbrev pub tap_error : Kind → World → ProbePort → Option String
tap_error (ingress router) w s = none
tap_error (fallback f) w s = w.listen s.ifname

abbrev pub opened : Kind → ProbePort → ProbePort
opened (ingress router) s = s
opened (fallback f) s = record s { deaf = none }

-- What the loop over the ports collects.
pub record Round : Type 0 where
  pub ports : List ProbePort
  pub lines : List Line
  pub deaf : ℕ
  pub newly_deaf : List (String × String)
  pub nl_err : Option String

-- What one port adds to it.
pub record Heard : Type 0 where
  pub port : ProbePort
  pub lines : List Line
  pub is_deaf : Bool
  pub newly_deaf : List (String × String)
  pub nl_err : Option String

-- The body of the loop.
unfoldable pub receive_port : Kind → World → Option String → ℕ → ProbePort → Heard
unfolding read_port appear take_in
receive_port kind w active now s =
    let r = read_port (w.bond_port_state s.ifname) s in
    let s = appear now kind r in
    elim (tap_error kind w s) [
      | some why ↦ record {
        port = record s { deaf = some why };
        lines = r.lines;
        is_deaf = true;
        newly_deaf = if same_text s.deaf (some why) then [] else (s.wire, why) ∷ [];
        nl_err = r.nl_err;
      }
      | none ↦ record {
        port = take_in kind active now (w.recv s.ifname) (opened kind s);
        lines = r.lines;
        is_deaf = false;
        newly_deaf = [];
        nl_err = r.nl_err;
      }
    ]

abbrev pub first_error : Option String → Option String → Option String
first_error none b = b
first_error (some a) b = some a

-- The loop; the first error is the one that is kept.
unfoldable pub receive : Kind → World → Option String → ℕ → List ProbePort → Round
receive kind w active now [] = record {
  ports = [];
  lines = [];
  deaf = 0;
  newly_deaf = [];
  nl_err = none;
}
receive kind w active now (s ∷ ss) =
    let h = receive_port kind w active now s in
    let rest = receive kind w active now ss in
    record {
      ports = h.port ∷ rest.ports;
      lines = h.lines ++ rest.lines;
      deaf = (if h.is_deaf then 1 else 0) + rest.deaf;
      newly_deaf = h.newly_deaf ++ rest.newly_deaf;
      nl_err = first_error h.nl_err rest.nl_err;
    }
