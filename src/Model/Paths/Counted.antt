-- ===== src/Model/Paths/Counted.antt =====
-- What the counts of the search are (src/derive.rs): no fewer than the edges that end a shortest way.
use Prim.Native.String.{String}
use cfab.Prelude.{
  ℕ, ◌+◌, ◌<◌, ◌≤◌, ◌≡◌, refl, sym, subst, inl, inr, Bool, false, ◌&&◌, List, [], ◌∷◌, Option, none,
  some, All, arith, filter, length, ltb, ◌==◌, if◌then◌else◌, Bool-cases, Option-cases, All-mono,
}
use cfab.Prelude.BTreeMap.{string_ord, key_eq, key_eq_iff, key_eq_refl, get, get-insert}
use cfab.Model.Paths.{Edge, Search, improve, or_zero}
use cfab.Model.Paths.Rounds.{AtMost, improve-AtMost, improve-goes_down, improve-dist}

-- An edge that was looked at, and the distance that it offered.
abbrev pub Offer : Type 0
Offer = Edge × ℕ

abbrev pub is_at : Option ℕ → ℕ → Bool
is_at none n = false
is_at (some d) n = d == n

-- The offer is of the distance that the name has.
abbrev pub ends : String → Option ℕ → Offer → Bool
ends x dist o = key_eq o.0.to x && is_at dist o.1

abbrev pub ways : List Offer → String → Option ℕ → ℕ
ways pool x dist = length (filter (ends x dist) pool)

abbrev pub count_of : String → Search → ℕ
count_of x s = or_zero (get x s.count)

pub record Counted (pool : List Offer) (s : Search) : Type 0 where
  pub paid : (x : String) → ways pool x (get x s.dist) ≤ count_of x s
  pub above : All (λ o. AtMost o.0.to o.1 s) pool
  pub positive : (x : String) (d : ℕ) → get x s.dist ≡ some d → 1 ≤ count_of x s

-- No offer was below the distance.
no_ways :
    (pool : List Offer) (x : String) (n : ℕ) (s : Search)
    → All (λ o. AtMost o.0.to o.1 s) pool
    → ((d : ℕ) → get x s.dist ≡ some d → n < d)
    → ways pool x (some n) ≡ 0
no_ways [] x n s a h = refl
no_ways (o ∷ pool) x n s a h =
    let (d, g, le) = a.0 in
    elim (Bool-cases (key_eq o.0.to x)) [
      | inl k ↦
          let same : o.0.to ≡ x = (key_eq_iff o.0.to x).0 k in
          let less = h d (subst (λ y. get y s.dist ≡ some d) same g) in
          ground (arith, k, less, le, no_ways pool x n s a.1 h)
      | inr k ↦ ground (arith, k, no_ways pool x n s a.1 h)
    ]

abbrev counted : Option ℕ → ℕ → ℕ → ℕ → ℕ
counted none nd paths old = paths
counted (some c) nd paths old = if ltb c nd then old else if c == nd then old + paths else paths

improve-count :
    (c : Option ℕ) (nd paths : ℕ) (to x : String) (s : Search)
    → count_of x (improve c nd paths to s)
      ≡ (if key_eq to x then counted c nd paths (count_of to s) else count_of x s)
unfolding improve
improve-count none nd paths to x s = ground (arith, get-insert to x paths s.count)
improve-count (some c) nd paths to x s = ground (
  arith,
  key_eq_iff to x,
  get-insert to x paths s.count,
  get-insert to x (or_zero (get to s.count) + paths) s.count,
)

module _ (e : Edge) (nd paths : ℕ) (s : Search) (one : 1 ≤ paths) (pool : List Offer)
    (k : Counted pool s) where
  abbrev after : Search
  after = improve (get e.to s.dist) nd paths e.to s

  improve-positive : (x : String) (d : ℕ) → get x after.dist ≡ some d → 1 ≤ count_of x after
  improve-positive x d g =
      let dist = improve-dist (get e.to s.dist) nd paths e.to x s refl in
      let count = improve-count (get e.to s.dist) nd paths e.to x s in
      elim (Bool-cases (key_eq e.to x)) [
        | inl same ↦ elim (Option-cases (get e.to s.dist)) [
          | inl none_yet ↦ ground (arith, count, same, none_yet, one)
          | inr (c, known) ↦ ground (arith, count, same, known, one, k.positive e.to c known)
        ]
        | inr other ↦ ground (arith, count, other, k.positive x d (ground (arith, dist, other, g)))
      ]

  -- Once the distance and the count of the edge's end are known.
  paid_at :
      (v n : ℕ)
      → get e.to after.dist ≡ some v
      → count_of e.to after ≡ n
      → (if v == nd then 1 else 0) + ways pool e.to (some v) ≤ n
      → ways ((e, nd) ∷ pool) e.to (get e.to after.dist) ≤ count_of e.to after
  paid_at v n dist count le =
      subst (λ o. ways ((e, nd) ∷ pool) e.to o ≤ count_of e.to after) (sym dist)
        (subst (λ m. ways ((e, nd) ∷ pool) e.to (some v) ≤ m) (sym count)
          (ground (arith, key_eq_refl e.to, le)))

  improve-paid_end : ways ((e, nd) ∷ pool) e.to (get e.to after.dist) ≤ count_of e.to after
  improve-paid_end =
      let same = key_eq_refl e.to in
      let dist = improve-dist (get e.to s.dist) nd paths e.to e.to s refl in
      let count = improve-count (get e.to s.dist) nd paths e.to e.to s in
      elim (Option-cases (get e.to s.dist)) [
        | inl none_yet ↦
            let none_other =
              no_ways pool e.to nd s k.above λ d g. absurd (ground (arith, g, none_yet)) in
            paid_at nd paths (ground (arith, dist, same, none_yet))
              (ground (arith, count, same, none_yet)) (ground (arith, none_other, one))
        | inr (c, known) ↦
            let old : ways pool e.to (some c) ≤ count_of e.to s =
              subst (λ o. ways pool e.to o ≤ count_of e.to s) known (k.paid e.to) in
            elim (Bool-cases (ltb c nd)) [
              | inl less ↦
                  paid_at c (count_of e.to s) (ground (arith, dist, same, known, less))
                    (ground (arith, count, same, known, less)) (ground (arith, old, less))
              | inr more ↦ elim (Bool-cases (c == nd)) [
                | inl tie ↦
                    paid_at c (count_of e.to s + paths)
                      (ground (arith, dist, same, known, more, tie))
                      (ground (arith, count, same, known, more, tie)) (ground (arith, old, one))
                | inr apart ↦
                    let below : nd < c = ground (arith, more, apart) in
                    let none_other =
                      no_ways pool e.to nd s k.above λ d g. ground (arith, g, known, below) in
                    paid_at nd paths (ground (arith, dist, same, known, below))
                      (ground (arith, count, same, known, more, apart))
                      (ground (arith, none_other, one))
              ]
            ]
      ]

  improve-paid : (x : String) → ways ((e, nd) ∷ pool) x (get x after.dist) ≤ count_of x after
  improve-paid x =
      let dist = improve-dist (get e.to s.dist) nd paths e.to x s refl in
      let count = improve-count (get e.to s.dist) nd paths e.to x s in
      elim (Bool-cases (key_eq e.to x)) [
        | inl same ↦
            let it : e.to ≡ x = (key_eq_iff e.to x).0 same in
            subst (λ y. ways ((e, nd) ∷ pool) y (get y after.dist) ≤ count_of y after) it
              improve-paid_end
        | inr other ↦
            let kept : get x after.dist ≡ get x s.dist = ground (arith, dist, other) in
            let as_many : count_of x after ≡ count_of x s = ground (arith, count, other) in
            let there : ways ((e, nd) ∷ pool) x (get x s.dist) ≤ count_of x s =
              ground (arith, other, k.paid x) in
            subst (λ o. ways ((e, nd) ∷ pool) x o ≤ count_of x after) (sym kept)
              (subst (λ n. ways ((e, nd) ∷ pool) x (get x s.dist) ≤ n) (sym as_many) there)
      ]

  improve-above : All (λ o. AtMost o.0.to o.1 after) ((e, nd) ∷ pool)
  improve-above = (
    improve-AtMost nd paths e.to s,
    All-mono _ _ pool (λ o a. improve-goes_down nd paths e.to o.0.to o.1 s a) k.above,
  )

  pub improve-Counted : Counted ((e, nd) ∷ pool) after
  improve-Counted = record {
    paid = improve-paid;
    above = improve-above;
    positive = improve-positive;
  }
