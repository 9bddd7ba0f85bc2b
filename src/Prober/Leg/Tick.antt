-- ===== src/Prober/Leg/Tick.antt =====
-- `Leg::tick` and `Leg::read_active` of src/prober/mod.rs: read where the bond is, observe, move it,
-- ask.
use Prim.Native.String.{String}
use cfab.Prelude.{◌&&◌, List, [], ◌++◌, Option, none, some, if◌then◌else◌, ℕ}
use cfab.Prober.Leg.State.{Leg, Line, World, probed}
use cfab.Prober.Leg.Receive.{is_some}
use cfab.Prober.Leg.Judge.{observe}
use cfab.Prober.Leg.Ask.{Probe, ask}
use cfab.Prober.Leg.Actuate.{non_empty, actuate}

-- The text that is read is trimmed already; a failed read leaves what was read before.
unfoldable pub took_active : Option String → Leg → Leg
took_active none l = l
took_active (some a) l = record l { active_now = non_empty (some a) }

unfoldable pub read_active : World → Leg → Leg × Option String
unfolding took_active
read_active w l = let read = w.active_slave l.bond in (took_active read l, read)

-- What a tick leaves, says and sends.
pub record Ticked : Type 0 where
  pub leg : Leg
  pub lines : List Line
  pub probes : List Probe

unfoldable pub tick : World → ℕ → Leg → Ticked
unfolding read_active
tick w now l =
    let (l, active) = if l.actuates then read_active w l else (l, none) in
    let (l, observed) = observe w active now l in
    let (l, moved) = if is_some active && probed l then actuate w active now l else (l, []) in
    let (l, probes) = ask w now l in record { leg = l; lines = observed ++ moved; probes = probes }
