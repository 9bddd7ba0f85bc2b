-- ===== src/Prober/Passive.antt =====
-- How long silence on one port may last, and what it means beside the other ports of its leg:
-- src/prober/passive.rs. A `Duration` and an `Instant` are counted in nanoseconds; the numbers
-- of seconds are u32, so no sum here reaches the bounds of either type.
pub mod Standing
mod Tests
use cfab.Prelude.{
  ℕ, ◌+◌, ◌-◌, ◌*◌, ◌/◌, Bool, true, false, not, List, [], ◌∷◌, map, Option, none, some, ltb, leb,
  max, if◌then◌else◌, any,
}
use cfab.Prelude.Time.{from_secs}

pub record Windows : Type 0 where
  pub active : ℕ
  pub backup : ℕ
  pub grace : ℕ
  pub dead : ℕ
  pub hello : ℕ

pub from_ospf : ℕ → ℕ → Windows
from_ospf hello_s dead_s =
    let hello = from_secs hello_s in
    let dead = from_secs dead_s in
    record { active = hello + hello / 2; backup = dead; grace = dead; dead = dead; hello = hello }

pub move_fits_inside_dead : Windows → ℕ → ℕ → Bool
move_fits_inside_dead w tick dead_s = leb (w.active + tick) (from_secs dead_s)

pub record Evidence : Type 0 where
  pub active : Bool
  pub peer : Option ℕ
  pub reflected : Option ℕ
  pub grace_until : Option ℕ

-- A candidate of `last` that passes its filter `t <= now`.
abbrev pub seen : ℕ → Option ℕ → Option ℕ
seen now none = none
seen now (some t) = if leb t now then some t else none

-- The maximum of those that are there.
abbrev pub later : Option ℕ → Option ℕ → Option ℕ
later none b = b
later (some a) none = some a
later (some a) (some b) = some (max a b)

-- `(!self.active).then_some(self.reflected).flatten()`.
abbrev pub own_echo : Evidence → Option ℕ
own_echo e = if not e.active then e.reflected else none

pub last : Evidence → ℕ → Option ℕ
last e now = later (seen now e.peer) (seen now (own_echo e))

pub data Verdict : Type 0 where
  good watch suspect quiet : Verdict

abbrev pub window : Evidence → Windows → ℕ
window e w = if e.active then w.active else w.backup

-- `saturating_duration_since`: the difference stops at 0, as `-` does.
abbrev pub within : ℕ → ℕ → Option ℕ → Bool
within now limit none = false
within now limit (some t) = leb (now - t) limit

-- `is_none_or(|t| now.saturating_duration_since(t) > limit)`.
abbrev pub beyond : ℕ → ℕ → Option ℕ → Bool
beyond now limit none = true
beyond now limit (some t) = ltb limit (now - t)

-- `is_some_and(|t| now < t)`.
abbrev pub in_grace : ℕ → Option ℕ → Bool
in_grace now none = false
in_grace now (some t) = ltb now t

-- The test of the first pass.
pub is_good : ℕ → Windows → Evidence → Bool
is_good now w e = within now (window e w) (last e now)

-- The closure of the second pass, after the first one's result for this port and any port.
pub judge : ℕ → Windows → Bool → Bool → Evidence → Bool → Verdict
judge now w expect_peers any_good e g =
    if g
    then good
    else if in_grace now e.grace_until
    then watch
    else if not expect_peers
    then watch
    else if not (beyond now (window e w) (last e now))
    then watch
    else if any_good
    then suspect
    else quiet

-- `ports.iter().zip(&good).map(..)`.
pub judge_all : ℕ → Windows → Bool → Bool → List Evidence → List Bool → List Verdict
judge_all now w expect any_good [] gs = []
judge_all now w expect any_good (e ∷ es) [] = []
judge_all now w expect any_good (e ∷ es) (g ∷ gs) =
    judge now w expect any_good e g ∷ judge_all now w expect any_good es gs

pub verdicts : ℕ → List Evidence → Windows → Bool → List Verdict
verdicts now ports w expect_peers =
    let heard = map (is_good now w) ports in
    judge_all now w expect_peers (any (λ g. g) heard) ports heard
