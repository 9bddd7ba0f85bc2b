-- ===== src/Workload/Kernel.antt =====
-- The kernel's neighbor table as the flush actor reads it, `KernelNeighbors` and `Class` of
-- src/workload/actor.rs, and the calls of `ip`, src/workload/writer.rs and `Output` of src/sys.rs.
-- Reading a text as JSON is `serde_json`'s and is an argument here: it yields the array's elements,
-- and nothing where the text is no JSON or no array. Of an element it yields the three members
-- that are looked up, each as `as_str` gives it.
use Prim.Native.String.{String}
use cfab.Prelude.{
  ℕ, ◌+◌, Bool, true, false, not, List, [], ◌∷◌, Option, none, some, ◌==◌, if◌then◌else◌,
}
use cfab.Prelude.BTreeMap.{string_ord, nat_ord, pair_ord, get, insert}
use cfab.Prelude.Ipv4.{from_str}
use cfab.Workload.Table.{Mac, Key, is_none}

-- A status is its 32 bits.
pub record Output : Type 0 where
  pub status : ℕ
  pub stdout : String
  pub stderr : String

abbrev pub ok : Output → Bool
ok o = o.status == 0

-- What a call of `NeighborIo::run` returns: an output, or an error and its text.
pub data Ran : Type 0 where
  ran : Output → Ran
  failed : String → Ran

pub data Class : Type 0 where
  add replace skip : Class

pub record Element : Type 0 where
  pub dst : Option String
  pub dev : Option String
  pub lladdr : Option String

-- `by_key`: a leg and an address, and whether the entry carries an `lladdr`.
abbrev pub KernelNeighbors : Type 0
KernelNeighbors = List (Key × Bool)

-- What one element puts into the map.
abbrev pub place : Option ℕ → Option String → Bool → KernelNeighbors → KernelNeighbors
place (some dst) (some dev) has_lladdr m = insert (dev, dst) has_lladdr m
place (some dst) none has_lladdr m = m
place none dev has_lladdr m = m

-- The address of a `dst`, if it is one.
abbrev pub address : Option String → Option ℕ
address none = none
address (some s) = from_str s

-- The loop over the elements: the map, and how many elements were understood.
pub fill : List Element → KernelNeighbors → ℕ → KernelNeighbors × ℕ
fill [] m understood = (m, understood)
fill (e ∷ es) m understood =
    if is_none e.dst
    then fill es m understood
    else fill es (place (address e.dst) e.dev (not (is_none e.lladdr)) m) (understood + 1)

unfoldable pub parse : (String → Option (List Element)) → String → Option KernelNeighbors
unfolding fill
parse read_json text = elim (read_json text) [
  | none ↦ none
  | some [] ↦ some []
  | some (e ∷ es) ↦
      let (m, understood) = fill (e ∷ es) [] 0 in if understood == 0 then none else some m
]

abbrev pub class_of : Option Bool → Class
class_of none = add
class_of (some true) = skip
class_of (some false) = replace

abbrev pub classify : String → ℕ → KernelNeighbors → Class
classify leg addr m = class_of (get (leg, addr) m)

pub data WriteVerb : Type 0 where
  add replace : WriteVerb

-- What an argv that `write_argv` builds says.
pub record Write : Type 0 where
  pub verb : WriteVerb
  pub addr : ℕ
  pub mac : Mac
  pub leg : String

abbrev pub write_argv : WriteVerb → ℕ → Mac → String → Write
write_argv verb addr mac leg = record { verb = verb; addr = addr; mac = mac; leg = leg }
