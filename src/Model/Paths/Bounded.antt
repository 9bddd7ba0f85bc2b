-- ===== src/Model/Paths/Bounded.antt =====
-- Where costs are small enough, no sum of the search wraps (src/derive.rs).
use Prim.Native.String.{String}
use cfab.Prelude.{
  ℕ, zero, suc, ◌+◌, ◌*◌, ◌^◌, ◌<◌, ◌≤◌, ◌≡◌, refl, ap, ◌∙◌, inl, inr, List, [], ◌∷◌, All, arith,
  filter, if-both, Option-cases, Bool-cases,
}
use cfab.Prelude.BTreeMap.{string_ord, key_eq}
use cfab.Prelude.BTreeMap.Sorted.{IsSorted, get-In}
use cfab.Model.{Fabric}
use cfab.Model.Find.{All-In}
use cfab.Model.Paths.{
  Edge, Search, add_u32, nearest, relax, relax_all, stops, visit, explore, begin, rounds,
}
use cfab.Model.Paths.Exact.{exact_relax, exact_relax_all, exact_visit, exact_explore}
use cfab.Model.Paths.Ends.{nearest-undone, All-filter}
use cfab.Model.Paths.Rounds.{Holds, relax_all-Holds, relax_all-Lowers}

suc_times : (n m : ℕ) → suc n * m ≡ m + n * m
suc_times n m = omega arith

-- The costs are at most so much.
abbrev pub CostAtMost : ℕ → Edge → Type 0
CostAtMost most e = e.cost ≤ most

relax_same :
    (at : String × ℕ) (e : Edge) (s : Search)
    → at.1 + e.cost < 2 ^ 32
    → relax at e s ≡ exact_relax at e s
unfolding relax exact_relax
relax_same at e s small =
    let sum : add_u32 at.1 e.cost ≡ at.1 + e.cost = omega (arith, small) in rw sum refl

relax_all_same :
    (most : ℕ) (at : String × ℕ) (es : List Edge) (s : Search)
    → All (CostAtMost most) es
    → at.1 + most < 2 ^ 32
    → relax_all at es s ≡ exact_relax_all at es s
unfolding relax_all exact_relax_all
relax_all_same most at [] s costs small = refl
relax_all_same most at (e ∷ es) s costs small =
    ap (relax_all at es) (relax_same at e s (omega (arith, costs.0, small)))
    ∙ relax_all_same most at es (exact_relax at e s) costs.1 small

module _ (most : ℕ) (f : Fabric) (src : String) (es : List Edge)
    (costs : All (CostAtMost most) es) where
  abbrev Below : ℕ → Search → Type 0
  Below n s = Holds (λ x d. d ≤ n) s

  visit_same :
      (at : String × ℕ) (s : Search)
      → at.1 + most < 2 ^ 32
      → visit f src es at s ≡ exact_visit f src es at s
  unfolding visit exact_visit
  visit_same at s small = elim (Bool-cases (stops f src at.0)) [
    | inl e ↦ rw (e, visit, exact_visit) refl
    | inr e ↦
        rw (e, visit, exact_visit)
          (relax_all_same most at _ _ (All-filter (CostAtMost most) _ es costs) small)
  ]

  exact_visit-Below :
      (n : ℕ) (at : String × ℕ) (s : Search)
      → at.1 ≤ n
      → IsSorted s.dist
      → Below n s
      → Below (n + most) (exact_visit f src es at s) × IsSorted (exact_visit f src es at s).dist
  unfolding exact_visit
  exact_visit-Below n at s le sorted below =
      let t : Search = record { dist = s.dist; count = s.count; done = at.0 ∷ s.done } in
      let from = filter (λ (e : Edge). key_eq e.start at.0) es in
      let grown : Below (n + most) t = λ x d g. let b = below x d g in omega (arith, b) in
      if-both (λ (u : Search). Below (n + most) u × IsSorted u.dist) (stops f src at.0) _ _
        (grown, sorted)
        (
          relax_all-Holds (λ x d. d ≤ n + most) at from t
              (λ e i.
                let c =
                  All-In (CostAtMost most) from e (All-filter (CostAtMost most) _ es costs) i in
                omega (arith, c, le))
              grown,
          (relax_all-Lowers at from t).sorted sorted,
        )

  explore_same :
      (rounds n : ℕ) (s : Search)
      → n + rounds * most < 2 ^ 32
      → IsSorted s.dist
      → Below n s
      → explore rounds f src es s ≡ exact_explore rounds f src es s
  unfolding explore exact_explore
  explore_same zero n s small sorted below = refl
  explore_same (suc r) n s small sorted below =
      let times = suc_times r most in
      elim (Option-cases (nearest s.done s.dist)) [
        | inl e ↦ rw (e, explore, exact_explore) refl
        | inr (at, e) ↦
            let le =
              below at.0 at.1 (get-In s.dist at sorted (nearest-undone s.done s.dist at e).1) in
            let (later, kept) = exact_visit-Below n at s le sorted below in
            rw (e, explore, exact_explore)
              (ap (explore r f src es) (visit_same at s (omega (arith, le, small, times)))
                ∙ explore_same r (n + most) (exact_visit f src es at s)
                    (omega (arith, small, times)) kept later)
      ]

  -- From every member, the search is the one on distances without a bound.
  pub explore-exact_explore :
      rounds es * most < 2 ^ 32
      → explore (rounds es) f src es (begin src) ≡ exact_explore (rounds es) f src es (begin src)
  explore-exact_explore small =
      explore_same (rounds es) 0 (begin src) (omega (arith, small)) (tt, tt)
        λ x d g. ground (arith, g)
