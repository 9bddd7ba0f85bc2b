-- ===== src/Model/Paths/Exact.antt =====
-- The specification of the search: the same rounds on distances that have no bound (src/derive.rs).
use Prim.Native.String.{String}
use cfab.Prelude.{ℕ, zero, suc, ◌+◌, List, [], ◌∷◌, Option, none, some, filter, if◌then◌else◌}
use cfab.Prelude.BTreeMap.{string_ord, key_eq, get}
use cfab.Model.{Fabric}
use cfab.Model.Checks.{is_in}
use cfab.Model.Paths.{Edge, Search, or_zero, nearest, improve, stops}

unfoldable pub exact_relax : String × ℕ → Edge → Search → Search
exact_relax at e s =
    if is_in e.to s.done
    then s
    else improve (get e.to s.dist) (at.1 + e.cost) (or_zero (get at.0 s.count)) e.to s

unfoldable pub exact_relax_all : String × ℕ → List Edge → Search → Search
unfolding exact_relax
exact_relax_all at [] s = s
exact_relax_all at (e ∷ es) s = exact_relax_all at es (exact_relax at e s)

unfoldable pub exact_visit : Fabric → String → List Edge → String × ℕ → Search → Search
unfolding exact_relax_all
exact_visit f src es at s =
    let t : Search = record { dist = s.dist; count = s.count; done = at.0 ∷ s.done } in
    if stops f src at.0
    then t
    else exact_relax_all at (filter (λ (e : Edge). key_eq e.start at.0) es) t

unfoldable pub exact_explore : ℕ → Fabric → String → List Edge → Search → Option Search
unfolding exact_visit
exact_explore zero f src es s = none
exact_explore (suc n) f src es s = elim (nearest s.done s.dist) [
  | none ↦ some s
  | some at ↦ exact_explore n f src es (exact_visit f src es at s)
]
