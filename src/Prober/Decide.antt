-- ===== src/Prober/Decide.antt =====
-- Which port an active-backup bond should be active on: `decide` of src/prober/decide.rs.
-- Texts are compared whole, so they are native strings. A list's positions stay below
-- `usize::MAX - 1`, the rank of a wire that is not in the order.
pub mod Choice
mod Tests
use Prim.Native.String.{String}
use text.Mathlib.Text.{◌==◌ as str_eq}
use cfab.Prelude.{
  ℕ, ◌-◌, ◌^◌, Bool, ◌&&◌, ◌||◌, not, List, Option, none, some, ltb, leb, ◌==◌, if◌then◌else◌,
  filter,
}
use cfab.Prelude.Search.{find, position, enumerate_from, min_by, by_key}
use mathlib.Core.Option

pub record Candidate : Type 0 where
  pub ifname : String
  pub wire : String
  pub reachable : Bool
  pub carrier : Bool
  pub link_up : Bool

abbrev pub usable : Candidate → Bool
usable c = c.reachable && c.carrier && c.link_up

-- `usize::MAX - 1`.
abbrev unranked : ℕ
unranked = 2 ^ 64 - 2

pub rank : List String → String → ℕ
rank prefs wire = Option.get_or (position (λ w. str_eq w wire) prefs) unranked

-- The key `rank(prefs, &c.wire)`.
abbrev pub cost : List String → Candidate → ℕ
cost prefs c = rank prefs c.wire

-- The order of tuples `(rank, index)`.
abbrev pub before : List String → ℕ × Candidate → ℕ × Candidate → Bool
before prefs (i, c) (j, d) =
    ltb (cost prefs c) (cost prefs d) || (cost prefs c == cost prefs d && ltb i j)

abbrev pub named : String → Candidate → Bool
named name c = str_eq c.ifname name

-- `on.and_then(|a| cands.iter().find(|c| c.ifname == a))`.
pub port_of : Option String → List Candidate → Option Candidate
port_of none cands = none
port_of (some name) cands = find (named name) cands

pub skipped_for_carrier : Option String → List Candidate → List String → Option Candidate
skipped_for_carrier on cands prefs = elim (port_of on cands) [
  | none ↦ none
  | some c ↦
      min_by (by_key (cost prefs))
        (filter (λ d. not d.carrier && ltb (cost prefs d) (cost prefs c)) cands)
]

pub best : List Candidate → List String → Option Candidate
best cands prefs =
    Option.map (λ p. p.1)
      (min_by (before prefs) (filter (λ p. usable p.1) (enumerate_from 0 cands)))

-- The `match` at the end of `decide`, once the best port is known.
pub settle : List String → Candidate → Option Candidate → Option String
settle prefs b none = some b.ifname
settle prefs b (some c) =
    if usable c && leb (cost prefs c) (cost prefs b) then none else some b.ifname

pub decide : Option String → List Candidate → List String → Option String
unfolding settle
decide active cands prefs = elim (best cands prefs) [
  | none ↦ none
  | some b ↦ settle prefs b (port_of active cands)
]
