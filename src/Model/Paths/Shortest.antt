-- ===== src/Model/Paths/Shortest.antt =====
-- The distances of the search are the shortest ones (src/derive.rs).
use Prim.Native.String.{String}
use cfab.Prelude.{
  ℕ, zero, suc, ◌+◌, ◌≤◌, ◌≡◌, ◌*◌, ◌^◌, ◌<◌, All, ◌∙◌, sym, subst, ◌↔◌, inl, inr, false, List,
  none, some, In, arith, filter, Option-cases, if-cases,
}
use cfab.Prelude.BTreeMap.{string_ord, key_eq, key_eq_iff, key_eq_refl, get}
use cfab.Prelude.BTreeMap.Sorted.{get-In}
use cfab.Model.{Fabric}
use cfab.Model.Find
use cfab.Prelude.Search.{In-filter}
use cfab.Model.Paths.{Edge, Search, nearest, stops, explore, begin, rounds}
use cfab.Model.Paths.Ends.{nearest-undone, begin-Yields}
use cfab.Model.Paths.Rounds.{
  AtMost, Lowers-refl, relax_all-Lowers, relax_all-AtMost, relax_all-Holds,
}
use cfab.Model.Paths.Kept.{nearest-all, Route, stay, along, Inv, mark, advance}
use cfab.Model.Paths.Bounded.{explore-exact_explore}
use cfab.Model.Paths.Exact.{exact_relax_all, exact_visit, exact_explore}

module _ (f : Fabric) (src : String) (es : List Edge) where
  edge-Route :
      (at : String × ℕ) (s : Search)
      → nearest s.done s.dist ≡ some at
      → Inv f src es s
      → stops f src at.0 ≡ false
      → (e : Edge) → In e (filter (λ (e : Edge). key_eq e.start at.0) es)
      → Route f src es e.to (at.1 + e.cost)
  edge-Route at s is_next inv on e i =
      let (k, there) = In-filter (λ (e : Edge). key_eq e.start at.0) es i in
      let from : at.0 ≡ e.start = sym ((key_eq_iff e.start at.0).0 k) in
      let had = get-In s.dist at inv.sorted (nearest-undone s.done s.dist at is_next).1 in
      along e at.1 (subst (λ x. Route f src es x at.1) from (inv.real at.0 at.1 had))
        (subst (λ x. stops f src x ≡ false) from on) there

  pub visit-Inv :
      (at : String × ℕ) (s : Search)
      → nearest s.done s.dist ≡ some at
      → Inv f src es s
      → Inv f src es (exact_visit f src es at s)
  unfolding exact_visit
  visit-Inv at s is_next inv =
      let from = filter (λ (e : Edge). key_eq e.start at.0) es in
      if-cases (Inv f src es) (stops f src at.0) _ _
        (λ k.
          advance f src es at s (mark at.0 s) inv is_next (Lowers-refl at.1 (mark at.0 s))
            (λ e i same on new. absurd (ground (arith, k, on))) inv.real)
        λ k.
          advance f src es at s (exact_relax_all at from (mark at.0 s)) inv is_next
            (relax_all-Lowers at from (mark at.0 s))
            (λ e i same on new.
              relax_all-AtMost at from (mark at.0 s) e
                (Find.In-filter _ es e i (ground (arith, same, key_eq_iff e.start at.0))) new)
            (relax_all-Holds (Route f src es) at from (mark at.0 s)
              (λ e i. edge-Route at s is_next inv k e i) inv.real)

  -- At the end every node that was reached is done.
  pub explore-Inv :
      (n : ℕ) (s t : Search)
      → Inv f src es s
      → exact_explore n f src es s ≡ some t
      → Inv f src es t × (nearest t.done t.dist ≡ none)
  unfolding exact_explore
  explore-Inv zero s t inv e = absurd (ground (arith, e))
  explore-Inv (suc n) s t inv e = elim (Option-cases (nearest s.done s.dist)) [
    | inl last ↦
        let same : s ≡ t = ground (arith, e, last) in
        subst (λ u. Inv f src es u × (nearest u.done u.dist ≡ none)) same (inv, last)
    | inr (at, next) ↦
        explore-Inv n (exact_visit f src es at s) t (visit-Inv at s next inv)
          (ground (arith, e, next))
  ]

  pub begin-Inv : Inv f src es (begin src)
  begin-Inv = record {
    sorted = (tt, tt);
    real = λ x d e.
        let at : src ≡ x = (key_eq_iff src x).0 (ground (arith, e)) in
        let zero_cost : 0 ≡ d = ground (arith, e) in
        subst (λ y. Route f src es y d) at (subst (Route f src es src) zero_cost stay);
    origin = (0, ground (arith, key_eq_refl src), omega arith);
    settled = λ x i. absurd (ground (arith, i));
    relaxed = λ e i k. absurd (ground (arith, k));
    ordered = λ u v c d iu. absurd (ground (arith, iu));
  }

  pub reaches :
      (s : Search)
      → Inv f src es s
      → nearest s.done s.dist ≡ none
      → (x : String) (n : ℕ) → Route f src es x n
      → AtMost x n s
  reaches s inv ended _ _ stay = inv.origin
  reaches s inv ended _ _ (along e n route on i) =
      let (d, g, le) = reaches s inv ended e.start n route in
      let k = nearest-all s.done s.dist e.start d ended g in
      let (c, h, below) = inv.relaxed e i k on d g in (c, h, omega (arith, le, below))

-- The cost of a route that no route undercuts.
pub record IsShortest (f : Fabric) (src : String) (es : List Edge) (x : String) (n : ℕ)
    : Type 0 where
  pub walked : Route f src es x n
  pub least : (m : ℕ) → Route f src es x m → n ≤ m

pub explore-IsShortest :
    (f : Fabric) (src : String) (es : List Edge) (most : ℕ) (x : String) (n : ℕ)
    → All (λ (e : Edge). e.cost ≤ most) es
    → rounds es * most < 2 ^ 32
    → (s : Search) × (explore (rounds es) f src es (begin src) ≡ some s)
      × ((get x s.dist ≡ some n) ↔ IsShortest f src es x n)
explore-IsShortest f src es most x n costs small =
    let (s, e) = begin-Yields f src es in
    let exact = sym (explore-exact_explore most f src es costs small) ∙ e in
    let (inv, ended) = explore-Inv f src es (rounds es) (begin src) s (begin-Inv f src es) exact in
    let there : get x s.dist ≡ some n → IsShortest f src es x n = λ g. record {
      walked = inv.real x n g;
      least = λ m route.
          let (d, h, le) = reaches f src es s inv ended x m route in ground (arith, g, h, le);
    } in
    let back : IsShortest f src es x n → get x s.dist ≡ some n = λ shortest.
      let (d, g, le) = reaches f src es s inv ended x n shortest.walked in
      let ge = shortest.least d (inv.real x d g) in ground (arith, g, le, ge) in
    (s, e, (there, back))
