-- ===== src/Model/Paths.antt =====
-- `check_no_equal_cost_paths` of src/derive.rs: the graph of a zone, and how many shortest paths lead
-- from each member to each other. What the refusal says of the last hops is text, and not modelled. A
-- sum of costs wraps at 32 bits; a count of paths is not cut. The loop has as many rounds as there are names that an edge
-- leads to, and two more: enough for it to end (Model/Paths/Ends.antt).
pub mod Exact
pub mod Ends
pub mod Calm
pub mod Rounds
pub mod Kept
pub mod Bounded
pub mod Shortest
pub mod Counted
pub mod Ties
pub mod Unique
pub mod Costs
pub mod Once
use Prim.Native.String.{String}
use mathlib.Core.Option
use cfab.Prelude.{
  ℕ, zero, suc, ◌+◌, ◌%◌, ◌^◌, Bool, true, false, not, ◌&&◌, ◌||◌, List, [], ◌∷◌, ◌++◌, map, Option,
  none, some, ltb, ◌==◌, any, filter, if◌then◌else◌, length, ◌>>=◌, map_all,
}
use cfab.Prelude.BTreeMap.{string_ord, key_eq, get, insert}
use cfab.Model.{Member, is_host, Fabric, find, member}
use cfab.Model.Checks.{Checked, pass, refused, panicked, refuse_some, each, is_in}
use cfab.Model.Derive.{ClassRow, FallbackRow, class_rows_of, fallback_rows_of}
use cfab.Model.Refusals.{Check, equal_cost}

-- The sum of two costs, which are u32.
abbrev pub add_u32 : ℕ → ℕ → ℕ
add_u32 a b = (a + b) % 2 ^ 32

-- An entry of `edges`, with the member that it leaves from.
pub record Edge : Type 0 where
  pub start : String
  pub to : String
  pub cost : ℕ
  pub ifname : String

abbrev pub offset_of : Fabric → Member → ℕ
offset_of f m = if is_host m.kind then 0 else f.leaf_cost_offset

abbrev pub concat : {A : Type 0} → List (List A) → List A
concat [] = []
concat (xs ∷ xss) = xs ++ concat xss

abbrev pub edge_to : String → String → ℕ → ℕ → String → Edge
edge_to start to offset cost ifname = record {
  start = start;
  to = to;
  cost = add_u32 cost offset;
  ifname = ifname;
}

-- `their`: the numbers of the segments that the other member is on.
abbrev pub segs_in : String → List ClassRow → List ℕ
segs_in zone rows =
    map (λ (r : ClassRow). r.seg) (filter (λ (r : ClassRow). key_eq r.zone zone) rows)

-- The edges to one other member.
unfoldable pub edges_to :
    Fabric → String → Member → List ClassRow → List FallbackRow → Member → Option (List Edge)
edges_to f zone m rows legs other = if key_eq other.name m.name then some [] else do
  theirs ← class_rows_of f other
  let meets = filter (λ (r : ClassRow). any (λ s. s == r.seg) (segs_in zone theirs)) rows
  some (
      map (λ (r : ClassRow). edge_to m.name other.name (offset_of f m) r.ospf_cost r.ifname) meets
      ++ map (λ (r : FallbackRow). edge_to m.name other.name (offset_of f m) r.ospf_cost r.ifname)
          legs)

unfoldable pub edges_of : Fabric → String → Member → Option (List Edge)
unfolding edges_to
edges_of f zone m = do
  rows ← class_rows_of f m
  legs ← fallback_rows_of f m
  es ←
      map_all
        (edges_to f zone m (filter (λ (r : ClassRow). key_eq r.zone zone) rows)
          (filter (λ (r : FallbackRow). key_eq r.zone zone) legs))
        f.members
  some (concat es)

unfoldable pub edges : Fabric → String → Option (List Edge)
unfolding edges_of
edges f zone = Option.map concat (map_all (edges_of f zone) f.members)

-- What the loop keeps: `dist`, `count` and `done`.
pub record Search : Type 0 where
  pub dist : List (String × ℕ)
  pub count : List (String × ℕ)
  pub done : List String

-- `unwrap_or(0)`.
abbrev pub or_zero : Option ℕ → ℕ
or_zero none = 0
or_zero (some n) = n

abbrev pub nearer : String × ℕ → Option (String × ℕ) → Option (String × ℕ)
nearer x none = some x
nearer x (some y) = if ltb y.1 x.1 then some y else some x

-- `min_by_key`: the nearest that is not done; of two as near the one whose name comes first.
unfoldable pub nearest : List String → List (String × ℕ) → Option (String × ℕ)
nearest done [] = none
nearest done (x ∷ m) = let rest = nearest done m in if is_in x.0 done then rest else nearer x rest

-- An edge to a member that is not done, at the distance `nd` over so many paths.
unfoldable pub improve : Option ℕ → ℕ → ℕ → String → Search → Search
improve none nd paths to s = record {
  dist = insert to nd s.dist;
  count = insert to paths s.count;
  done = s.done;
}
improve (some c) nd paths to s =
    if ltb c nd
    then s
    else if c == nd
    then record {
      dist = s.dist;
      count = insert to (or_zero (get to s.count) + paths) s.count;
      done = s.done;
    }
    else record { dist = insert to nd s.dist; count = insert to paths s.count; done = s.done }

unfoldable pub relax : String × ℕ → Edge → Search → Search
unfolding improve
relax at e s =
    if is_in e.to s.done
    then s
    else improve (get e.to s.dist) (add_u32 at.1 e.cost) (or_zero (get at.0 s.count)) e.to s

unfoldable pub relax_all : String × ℕ → List Edge → Search → Search
unfolding relax
relax_all at [] s = s
relax_all at (e ∷ es) s = relax_all at es (relax at e s)

abbrev pub is_leaf : Option Member → Bool
is_leaf none = false
is_leaf (some m) = not (is_host m.kind)

-- A leaf is reached, and leads nowhere.
abbrev pub stops : Fabric → String → String → Bool
stops f src x = not (key_eq x src) && is_leaf (member x f)

unfoldable pub visit : Fabric → String → List Edge → String × ℕ → Search → Search
unfolding relax_all
visit f src es at s =
    let t : Search = record { dist = s.dist; count = s.count; done = at.0 ∷ s.done } in
    if stops f src at.0 then t else relax_all at (filter (λ (e : Edge). key_eq e.start at.0) es) t

-- The loop, in so many rounds at most. None: it had not ended.
unfoldable pub explore : ℕ → Fabric → String → List Edge → Search → Option Search
unfolding nearest visit
explore zero f src es s = none
explore (suc n) f src es s = elim (nearest s.done s.dist) [
  | none ↦ some s
  | some at ↦ explore n f src es (visit f src es at s)
]

abbrev pub begin : String → Search
begin src = record { dist = (src, 0) ∷ []; count = (src, 1) ∷ []; done = [] }

abbrev pub rounds : List Edge → ℕ
rounds es = suc (suc (length es))

-- A member that is reached over more than one path.
abbrev pub is_tie : String → String × ℕ → Bool
is_tie src x = not (key_eq x.0 src) && ltb 1 x.1

abbrev pub judge : String → String → Option Search → Check
judge zone src none = panicked
judge zone src (some s) =
    refuse_some (λ (x : String × ℕ). equal_cost zone src x.0) (find (is_tie src) s.count)

abbrev pub check_from : Fabric → String → List Edge → String → Check
check_from f zone es src = judge zone src (explore (rounds es) f src es (begin src))

abbrev pub check_paths : Fabric → String → Option (List Edge) → Check
check_paths f zone none = panicked
check_paths f zone (some es) = each (λ (m : Member). check_from f zone es m.name) f.members

unfoldable pub check_no_equal_cost_paths : Fabric → String → Check
unfolding edges explore
check_no_equal_cost_paths f zone = check_paths f zone (edges f zone)
