-- ===== src/Prober/Leg/State.antt =====
-- The state of one leg, what it says in the journal, and what a tick asks the system
-- (src/prober/mod.rs). A journal line is kept as its choice and the names it is made of.
use Prim.Native.String.{String}
use text.Mathlib.Text.{◌==◌ as str_eq}
use mathlib.Core.Option
use cfab.Prelude.{
  ℕ, ◌%◌, Bool, true, false, not, List, [], ◌∷◌, Option, none, some, ◌==◌, if◌then◌else◌, get_or,
}
use cfab.Prelude.Bytes.{Bytes}
use cfab.Prelude.Search.{find}
use cfab.Prelude.BTreeMap.{string_ord, get, insert}
use cfab.Prober.Passive.{Windows}
use cfab.Prober.Leg.Port.{BondLink, ProbePort}

-- The set of peers is the list of its elements.
pub record Fallback : Type 0 where
  pub targets : List Bytes
  pub peers : List ℕ
  pub self_rid : ℕ
  pub windows : Windows
  pub quiet_now : Bool
  pub noted_quiet : Bool
  pub noted_deaf : Bool
  pub engine_sock : String
  pub noted_engine_unreadable : Bool

pub data Kind : Type 0 where
  ingress : (router : Bytes) → Kind
  fallback : Fallback → Kind

pub record Leg : Type 0 where
  pub zone : String
  pub bond : String
  pub actuates : Bool
  pub prefs : List String
  pub held : String
  pub active_now : Option String
  pub ports : List ProbePort
  pub noted_no_carrier : Option (String × String)
  pub refused : Option (String × Option String)
  pub moves : ℕ
  pub noted_nl_err : Option String
  pub kind : Kind

-- The lines of the journal, in the order of the source. `moved` names the wires.
pub data Reason : Type 0 where
  lost_carrier hello_silent unreachable returned link_not_up preferred : Reason

pub data Line : Type 0 where
  unknown_link : (wire : String) → (state : ℕ) → Line
  unreadable : (why : String) → Line
  cannot_listen : (wire why : String) → (whole_leg : Bool) → Line
  engine_unreadable no_peers_heard : Line
  cannot_move : (wire target why : String) → Line
  moved : Reason → (source wire : String) → Line
  moved_from_none : (wire : String) → Line
  no_carrier : (skipped on : String) → Line

-- The answer of `bond_port_state`: the carrier and the bonding link state; the netdev is gone; or
-- any other error.
pub data PortAnswer : Type 0 where
  answered : (carrier : Bool) → Option BondLink → PortAnswer
  no_device : PortAnswer
  failed : (why : String) → PortAnswer

-- What the system answers during one tick. An error is `some` of its text. `neighbors` is the
-- engine's report on a bond, if it can be read: which Router IDs are at least 2-Way.
pub record World : Type 0 where
  pub active_slave : String → Option String
  pub bond_port_state : String → PortAnswer
  pub listen : String → Option String
  pub recv : String → List Bytes
  pub sends : String → Bytes → Bool
  pub move_to : String → Option String
  pub neighbors : Option (ℕ → Bool)

-- `Option<String>` equality.
abbrev pub same_text : Option String → Option String → Bool
same_text none none = true
same_text (some a) (some b) = str_eq a b
same_text _ _ = false

abbrev pub wire_is : String → ProbePort → Bool
wire_is home s = str_eq s.wire home

abbrev pub ifname_is : String → ProbePort → Bool
ifname_is name s = str_eq s.ifname name

abbrev pub first_of : List ProbePort → Option ProbePort
first_of [] = none
first_of (s ∷ ss) = some s

abbrev pub or_else : Option ProbePort → Option ProbePort → Option ProbePort
or_else none b = b
or_else (some a) b = some a

-- The port a leg starts on: `Leg::new`'s `held`.
unfoldable pub home_port : String → List ProbePort → String
home_port home ports =
    Option.get_or
      (Option.map (λ s. s.ifname) (or_else (find (wire_is home) ports) (first_of ports))) ""

unfoldable pub new : String → String → Bool → List String → String → List ProbePort → Kind → Leg
new zone bond actuates prefs home ports kind = record {
  zone = zone;
  bond = bond;
  actuates = actuates;
  prefs = prefs;
  held = home_port home ports;
  active_now = none;
  ports = ports;
  noted_no_carrier = none;
  refused = none;
  moves = 0;
  noted_nl_err = none;
  kind = kind;
}

abbrev pub is_deaf : Kind → Bool
is_deaf (ingress router) = false
is_deaf (fallback f) = f.noted_deaf

-- `Leg::probed`.
abbrev pub probed : Leg → Bool
probed l = not (is_deaf l.kind)

abbrev pub is_quiet : Kind → Bool
is_quiet (ingress router) = false
is_quiet (fallback f) = f.quiet_now

-- `Leg::quiet`.
abbrev pub quiet : Leg → Bool
quiet l = is_quiet l.kind

abbrev pub grace_of : Kind → ℕ
grace_of (ingress router) = 0
grace_of (fallback f) = f.windows.grace

-- The last octet of an address.
abbrev pub node_of : Bytes → ℕ
node_of t = get_or t 3 0

unfoldable pub target_of : List Bytes → ℕ → Option Bytes
target_of targets rid = find (λ t. node_of t == rid % 256) targets

-- `HeldPrimaries` is the map of bonds to ports.
abbrev pub port_for : String → List (String × String) → Option String
port_for bond held = get bond held

abbrev pub hold : String → String → List (String × String) → List (String × String)
hold bond port held = insert bond port held

-- `Prober::held_primaries`: the map that `collect` makes of the legs that actuate.
unfoldable pub collect_held : List Leg → List (String × String) → List (String × String)
collect_held [] held = held
collect_held (l ∷ ls) held = collect_held ls (if l.actuates then hold l.bond l.held held else held)

unfoldable pub held_primaries : List Leg → List (String × String)
held_primaries ls = collect_held ls []
