-- ===== src/Model/Paths/Unique.antt =====
-- A member that is accepted as a source reaches each other over one shortest way (src/derive.rs).
use Prim.Native.String.{String}
use cfab.Prelude.{
  ℕ, zero, suc, ◌+◌, ◌*◌, ◌^◌, ◌<◌, ◌≤◌, ◌≡◌, ◌≢◌, sym, subst, ap, ◌∙◌, inl, inr, true, false, List,
  [], ◌∷◌, Option, none, some, All, In, arith, filter, Bool-cases, Option-cases, if-cases,
}
use cfab.Prelude.BTreeMap.{string_ord, key_eq, key_eq_iff, key_eq_refl, get}
use cfab.Prelude.BTreeMap.Sorted.{get-In}
use cfab.Model.{Fabric, find}
use cfab.Model.Checks.{pass, is_in, refuse_some-pass}
use cfab.Model.Find
use cfab.Model.Refusals.{equal_cost}
use cfab.Model.Paths.{Edge, Search, or_zero, nearest, stops, begin, rounds, is_tie, check_from}
use cfab.Model.Paths.Rounds.{Lowers, Lowers-refl, relax_all-Lowers}
use cfab.Model.Paths.Kept.{Route, along, Inv, mark, nearest-all}
use cfab.Model.Paths.Ends.{nearest-undone, begin-Yields, All-filter}
use cfab.Model.Paths.Shortest.{IsShortest, explore-Inv, begin-Inv, visit-Inv, reaches}
use cfab.Model.Paths.Counted.{Offer, ends, ways, Counted}
use cfab.Model.Paths.Ties.{Here, offer, offers, relax_all-Counted, offers-grow, offers-offer}
use cfab.Model.Paths.Bounded.{explore-exact_explore}
use cfab.Model.Paths.Exact.{exact_relax_all, exact_visit, exact_explore}

module _ (f : Fabric) (src : String) (es : List Edge) where
  -- Each edge from a node that is done was looked at, at the node's distance.
  abbrev Complete : List Offer → Search → Type 0
  Complete pool s =
      (e : Edge)
      → In e es
      → is_in e.start s.done ≡ true
      → stops f src e.start ≡ false
      → (d : ℕ) → get e.start s.dist ≡ some d
      → In (e, d + e.cost) pool

  module _ (at : String × ℕ) (s : Search) (inv : Inv f src es s)
      (next : nearest s.done s.dist ≡ some at) where
    had : get at.0 s.dist ≡ some at.1
    had = get-In s.dist at inv.sorted (nearest-undone s.done s.dist at next).1

    mark-Here : Here at (mark at.0 s)
    mark-Here = record {
      here = had;
      its_done = ground (arith, key_eq_refl at.0);
      near = λ u i. elim (Bool-cases (key_eq at.0 u)) [
        | inl k ↦
            (at.1, subst (λ x. get x s.dist ≡ some at.1) ((key_eq_iff at.0 u).0 k) had, omega arith)
        | inr k ↦
            let old : is_in u s.done ≡ true = ground (arith, i, k) in
            let (d, g) = inv.settled u old in
            (d, g, inv.ordered u at.0 d at.1 old (nearest-undone s.done s.dist at next).0 g had)
      ];
    }

    Complete-after :
        (t : Search) (pool pool' : List Offer)
        → Lowers at.1 (mark at.0 s) t
        → ((o : Offer) → In o pool → In o pool')
        → ((e : Edge) → In e es → e.start ≡ at.0 → stops f src at.0 ≡ false → In (offer at e) pool')
        → Complete pool s
        → Complete pool' t
    Complete-after t pool pool' l grows fresh c e i k on d g =
        let k' : is_in e.start (at.0 ∷ s.done) ≡ true =
          subst (λ ds. is_in e.start ds ≡ true) l.same k in
        elim (Bool-cases (key_eq at.0 e.start)) [
          | inl same ↦
              let from : at.0 ≡ e.start = (key_eq_iff at.0 e.start).0 same in
              let has = l.fixed at.0 (ground (arith, key_eq_refl at.0)) ∙ had in
              let dist : at.1 ≡ d = ground (arith, has, from, g) in
              subst (λ n. In (e, n + e.cost) pool') dist
                (fresh e i (sym from) (subst (λ x. stops f src x ≡ false) (sym from) on))
          | inr other ↦
              let old : is_in e.start s.done ≡ true = ground (arith, k', other) in
              grows (e, d + e.cost) (c e i old on d (sym (l.fixed e.start k') ∙ g))
        ]

  abbrev Pool : Search → Type 0
  Pool s = (pool : List Offer) × Counted pool s × Complete pool s

  module _ (pos : All (λ (e : Edge). 0 < e.cost) es) where
    visit-Pool :
        (at : String × ℕ) (s : Search)
        → Inv f src es s
        → nearest s.done s.dist ≡ some at
        → Pool s
        → Pool (exact_visit f src es at s)
    unfolding exact_visit
    visit-Pool at s inv next (pool, k, c) =
        let from = filter (λ (e : Edge). key_eq e.start at.0) es in
        if-cases Pool (stops f src at.0) _ _
          (λ stopped. (
            pool,
            record { paid = k.paid; above = k.above; positive = k.positive },
            Complete-after at s inv next (mark at.0 s) pool pool (Lowers-refl at.1 (mark at.0 s))
                (λ o i. i) (λ e i same on. absurd (ground (arith, stopped, on))) c,
          ))
          λ goes_on. (
            offers at from pool,
            relax_all-Counted at from (mark at.0 s) pool (All-filter _ _ es pos)
                (mark-Here at s inv next)
                (record { paid = k.paid; above = k.above; positive = k.positive }),
            Complete-after at s inv next (exact_relax_all at from (mark at.0 s)) pool
                (offers at from pool) (relax_all-Lowers at from (mark at.0 s))
                (offers-grow at from pool)
                (λ e i same on.
                  offers-offer at from pool e
                    (Find.In-filter _ es e i (ground (arith, same, key_eq_iff e.start at.0))))
                c,
          )

    explore-Pool :
        (n : ℕ) (s t : Search)
        → Inv f src es s
        → Pool s
        → exact_explore n f src es s ≡ some t
        → Pool t
    unfolding exact_explore
    explore-Pool zero s t inv p e = absurd (ground (arith, e))
    explore-Pool (suc n) s t inv p e = elim (Option-cases (nearest s.done s.dist)) [
      | inl last ↦ subst Pool (ground (arith, e, last)) p
      | inr (at, next) ↦
          explore-Pool n (exact_visit f src es at s) t (visit-Inv f src es at s next inv)
            (visit-Pool at s inv next p) (ground (arith, e, next))
    ]

  begin-Pool : Pool (begin src)
  begin-Pool = (
    [],
    record { paid = λ x. omega arith; above = tt; positive = λ x d g. ground (arith, g) },
    λ e i k. absurd (ground (arith, k)),
  )

some_way :
    (pool : List Offer) (x : String) (dist : Option ℕ) (o : Offer)
    → In o pool
    → ends x dist o ≡ true
    → 1 ≤ ways pool x dist
some_way [] x dist o i e = absurd i
some_way (y ∷ pool) x dist o (inl same) e =
    let it : ends x dist y ≡ true = subst (λ z. ends x dist z ≡ true) (sym same) e in
    ground (arith, it)
some_way (y ∷ pool) x dist o (inr i) e = ground (arith, some_way pool x dist o i e)

-- Where there is one way, two are the same.
one_way :
    (pool : List Offer) (x : String) (dist : Option ℕ) (o o' : Offer)
    → In o pool
    → In o' pool
    → ends x dist o ≡ true
    → ends x dist o' ≡ true
    → ways pool x dist ≤ 1
    → o ≡ o'
one_way [] x dist o o' i i' e e' le = absurd i
one_way (y ∷ pool) x dist o o' (inl a) (inl b) e e' le = sym a ∙ b
one_way (y ∷ pool) x dist o o' (inl a) (inr b) e e' le =
    let it : ends x dist y ≡ true = subst (λ z. ends x dist z ≡ true) (sym a) e in
    absurd (ground (arith, it, le, some_way pool x dist o' b e'))
one_way (y ∷ pool) x dist o o' (inr a) (inl b) e e' le =
    let it : ends x dist y ≡ true = subst (λ z. ends x dist z ≡ true) (sym b) e' in
    absurd (ground (arith, it, le, some_way pool x dist o a e))
one_way (y ∷ pool) x dist o o' (inr a) (inr b) e e' le =
    one_way pool x dist o o' a b e e' (ground (arith, le))

no_tie :
    (m : List (String × ℕ)) (src x : String)
    → find (is_tie src) m ≡ none
    → x ≢ src
    → or_zero (get x m) ≤ 1
no_tie [] src x h other = omega arith
no_tie (y ∷ m) src x h other = elim (Bool-cases (key_eq y.0 x)) [
  | inl k ↦
      let same : y.0 ≡ x = (key_eq_iff y.0 x).0 k in
      elim (Bool-cases (key_eq y.0 src)) [
        | inl l ↦ absurd (other (sym same ∙ (key_eq_iff y.0 src).0 l))
        | inr l ↦ ground (arith, h, k, l)
      ]
  | inr k ↦ ground (arith, k, no_tie m src x (ground (arith, h)) other)
]

-- An edge that ends a shortest route.
pub record EndsShortest (f : Fabric) (src : String) (es : List Edge) (x : String) (e : Edge)
    : Type 0 where
  pub before : ℕ
  pub route : Route f src es e.start before
  pub leads : stops f src e.start ≡ false
  pub listed : In e es
  pub its_end : e.to ≡ x
  pub shortest : IsShortest f src es x (before + e.cost)

module _ (f : Fabric) (src : String) (es : List Edge) (x : String) (s : Search)
    (inv : Inv f src es s) (ended : nearest s.done s.dist ≡ none) where
  -- The distance of what an edge ends a shortest route to, and the offer that the edge made.
  ends-Offer :
      (pool : List Offer) (e : Edge)
      → Complete f src es pool s
      → EndsShortest f src es x e
      → (n : ℕ) × (get x s.dist ≡ some n) × In (e, n) pool
  ends-Offer pool e c w =
      let (d, g, le) = reaches f src es s inv ended e.start w.before w.route in
      let there = c e w.listed (nearest-all s.done s.dist e.start d ended g) w.leads d g in
      let (n, h, below) = reaches f src es s inv ended x (w.before + e.cost) w.shortest.walked in
      let least = w.shortest.least n (inv.real x n h) in
      let through = w.shortest.least (d + e.cost) (
        subst (λ y. Route f src es y (d + e.cost)) w.its_end
          (along e d (inv.real e.start d g) w.leads w.listed)) in
      let same : d + e.cost ≡ n = omega (arith, le, below, least, through) in
      (n, h, subst (λ k. In (e, k) pool) same there)

-- From a source that is accepted, the last edge of a shortest route is known by where it leads.
pub check_from_unique :
    (f : Fabric) (zone : String) (es : List Edge) (most : ℕ) (src x : String) (e e' : Edge)
    → All (λ (e : Edge). 0 < e.cost) es
    → All (λ (e : Edge). e.cost ≤ most) es
    → rounds es * most < 2 ^ 32
    → check_from f zone es src ≡ pass
    → x ≢ src
    → EndsShortest f src es x e
    → EndsShortest f src es x e'
    → e ≡ e'
check_from_unique f zone es most src x e e' pos costs small accepted other w w' =
    let (s, found) = begin-Yields f src es in
    let run = sym (explore-exact_explore most f src es costs small) ∙ found in
    let (inv, ended) = explore-Inv f src es (rounds es) (begin src) s (begin-Inv f src es) run in
    let (pool, k, c) =
      explore-Pool f src es pos (rounds es) (begin src) s (begin-Inv f src es) (begin-Pool f src es)
        run in
    let untied =
      refuse_some-pass (λ (y : String × ℕ). equal_cost zone src y.0) (find (is_tie src) s.count)
        (ground (arith, accepted, found)) in
    let (n, h, there) = ends-Offer f src es x s inv ended pool e c w in
    let (n', h', there') = ends-Offer f src es x s inv ended pool e' c w' in
    let few : ways pool x (get x s.dist) ≤ 1 =
      omega (arith, k.paid x, no_tie s.count src x untied other) in
    let same : (e, n) ≡ (e', n') =
      one_way pool x (get x s.dist) (e, n) (e', n') there there'
        (ground (arith, h, w.its_end, key_eq_refl x))
        (ground (arith, h', w'.its_end, key_eq_refl x)) few in
    ap (λ (o : Offer). o.0) same
