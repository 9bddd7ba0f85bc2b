-- ===== src/Prober/Leg/Port.antt =====
-- What the prober keeps of one port: `ProbePort` of src/prober/mod.rs, with `BondLink` of
-- src/prober/decide.rs. A MAC is its six bytes, a Router ID its number; an instant is nanoseconds.
use Prim.Native.String.{String}
use text.Mathlib.Text.{◌==◌ as str_eq}
use cfab.Prelude.{
  ℕ, Bool, true, false, not, ◌&&◌, List, [], ◌∷◌, Option, none, some, ◌==◌, if◌then◌else◌, filter,
  take,
}
use cfab.Prelude.Bytes.{Bytes}
use cfab.Prober.Hysteresis.{Hysteresis, initial}
use cfab.Prober.Decide.{Candidate, usable}
use cfab.Prober.Passive.{Evidence}

pub data BondLink : Type 0 where
  up going_back going_down down : BondLink
  unknown : ℕ → BondLink

pub record ProbePort : Type 0 where
  pub ifname : String
  pub wire : String
  pub island : String
  pub mac : Bytes
  pub state : Hysteresis
  pub probed : Bool
  pub carrier : Bool
  pub bond_link : Option BondLink
  pub noted_bond_link : Option ℕ
  pub present : Bool
  pub last_reply : Option ℕ
  pub peer_heard : Option ℕ
  pub self_heard : Option ℕ
  pub recent : List ℕ
  pub grace_until : Option ℕ
  pub escalating : Bool
  pub hello_dead : Bool
  pub next_ask : Option ℕ
  pub deaf : Option String
  pub usable_prev : Option Bool
  pub returned : Bool

-- `ESCALATION_TARGETS`.
abbrev pub escalation_targets : ℕ
escalation_targets = 4

-- `ProbePort::new`.
abbrev pub new : String → String → String → Bytes → ProbePort
new ifname wire island mac = record {
  ifname = ifname;
  wire = wire;
  island = island;
  mac = mac;
  state = initial;
  probed = false;
  carrier = false;
  bond_link = none;
  noted_bond_link = none;
  present = false;
  last_reply = none;
  peer_heard = none;
  self_heard = none;
  recent = [];
  grace_until = none;
  escalating = false;
  hello_dead = false;
  next_ask = none;
  deaf = none;
  usable_prev = none;
  returned = false;
}

-- `self.bond_link == Some(BondLink::Up)`.
abbrev pub is_up : Option BondLink → Bool
is_up (some up) = true
is_up _ = false

abbrev pub candidate : ProbePort → Candidate
candidate s = record {
  ifname = s.ifname;
  wire = s.wire;
  reachable = s.state.reachable && not s.hello_dead;
  carrier = s.carrier;
  link_up = is_up s.bond_link;
}

-- `self.usable_prev == Some(false)`.
abbrev pub was_unusable : Option Bool → Bool
was_unusable (some b) = not b
was_unusable none = false

unfoldable pub note_usability : ProbePort → ProbePort
note_usability s =
    let cur = usable (candidate s) in
    record s {
      returned = if was_unusable s.usable_prev && cur then true else s.returned;
      usable_prev = some cur;
    }

-- `active == Some(self.ifname.as_str())`.
abbrev pub is_named : Option String → ProbePort → Bool
is_named none s = false
is_named (some name) s = str_eq name s.ifname

abbrev pub evidence : Option String → ProbePort → Evidence
evidence active s = record {
  active = is_named active s;
  peer = s.peer_heard;
  reflected = s.self_heard;
  grace_until = s.grace_until;
}

unfoldable pub saw : ℕ → ProbePort → ProbePort
saw rid s = record s {
  recent = take escalation_targets (rid ∷ filter (λ r. not (r == rid)) s.recent);
}
