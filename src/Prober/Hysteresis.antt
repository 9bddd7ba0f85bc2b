-- ===== src/Prober/Hysteresis.antt =====
-- One wire's router reachability with its 3/3 hysteresis: `Hysteresis` of src/prober/decide.rs.
pub mod Flips
mod Tests
use cfab.Prelude.{ℕ, ◌+◌, ◌-◌, min, Bool, true, false, List, [], ◌∷◌, leb, if◌then◌else◌}

-- `HYSTERESIS`.
abbrev pub hysteresis : ℕ
hysteresis = 3

-- `reachable`, and the consecutive observations of the other state (a u8).
pub record Hysteresis : Type 0 where
  pub reachable : Bool
  pub streak : ℕ

-- `Default`: a wire starts reachable.
abbrev pub initial : Hysteresis
initial = record { reachable = true; streak = 0 }

-- `a == b` on two Booleans.
abbrev pub same : Bool → Bool → Bool
same true b = b
same false true = false
same false false = true

-- `u8::saturating_add(1)` and `u8::saturating_sub`.
abbrev pub saturating_inc : ℕ → ℕ
saturating_inc n = min (n + 1) 255

-- The `&mut self` of the source is the state taken and returned; `reachable` is the result.
pub observe : Hysteresis → Bool → Hysteresis
observe h replied =
    if same replied h.reachable
    then record h { streak = 0 }
    else (let streak = saturating_inc h.streak in
        if leb hysteresis streak
        then record { reachable = replied; streak = 0 }
        else record h { streak = streak })

pub heard : Hysteresis → Hysteresis
heard h = record { reachable = true; streak = 0 }

pub precharge : Hysteresis → Hysteresis
precharge h = if h.reachable then record h { streak = hysteresis - 1 } else h

-- The state after a history of probe ticks, newest first.
pub after : List Bool → Hysteresis
unfolding observe
after [] = initial
after (replied ∷ past) = observe (after past) replied
