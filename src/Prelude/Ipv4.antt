-- ===== src/Prelude/Ipv4.antt =====
-- `Ipv4Addr::from_str` of Rust's standard library: four decimal numbers of a byte, none with a
-- leading zero, with a point between each two and nothing around them.
use Prim.Native.Nat.{ℕ, ◌+◌, ◌-◌, ◌*◌}
use Prim.Native.Char.{code}
use Prim.Native.String.{String}
use mathlib.Core.Bool.{Bool, ◌&&◌}
use mathlib.Core.Option.{Option, none, some}
use cfab.Prelude.Tests.{leb, ◌==◌, if◌then◌else◌}

abbrev is_digit : ℕ → Bool
is_digit c = leb 48 c && leb c 57

-- A digit after the number that was read so far.
abbrev more : Option ℕ → ℕ → Option ℕ
more none d = some d
more (some v) d = if v == 0 then none else if leb (v * 10 + d) 255 then some (v * 10 + d) else none

-- The text that is left, with the points passed, what they closed, and the number that is open.
scan : ℕ → ℕ → Option ℕ → String → Option ℕ
scan points address open_number String.[] = elim open_number [
  | none ↦ none
  | some v ↦ if points == 3 then some (address * 256 + v) else none
]
scan points address open_number (String.◌∷◌ c s) =
    let closed : Option ℕ = elim open_number [
      | none ↦ none
      | some v ↦ if leb points 2 then scan (points + 1) (address * 256 + v) none s else none
    ] in
    let longer : Option ℕ = elim (more open_number (code c - 48)) [
      | none ↦ none
      | some v ↦ scan points address (some v) s
    ] in
    if code c == 46 then closed else if is_digit (code c) then longer else none

unfoldable pub from_str : String → Option ℕ
unfolding scan
from_str s = scan 0 0 none s
