-- ===== src/Model/Paths/Kept.antt =====
-- What each round of the search keeps (src/derive.rs).
use Prim.Native.String.{String}
use cfab.Prelude.{
  ℕ, ◌+◌, ◌≤◌, ◌≡◌, sym, subst, ◌∙◌, inl, inr, Bool, true, false, List, [], ◌∷◌, none, some, In,
  arith, Bool-cases, Option-cases,
}
use cfab.Prelude.BTreeMap.{string_ord, key_eq, key_eq_iff, key_eq_refl, get}
use cfab.Prelude.BTreeMap.Sorted.{IsSorted, get-In}
use cfab.Model.{Fabric}
use cfab.Model.Checks.{is_in}
use cfab.Model.Paths.{Edge, Search, nearest, stops}
use cfab.Model.Paths.Ends.{nearest-undone}
use cfab.Model.Paths.Rounds.{AtMost, Lowers, Holds}

pub nearest-all :
    (done : List String) (m : List (String × ℕ)) (v : String) (d : ℕ)
    → nearest done m ≡ none
    → get v m ≡ some d
    → is_in v done ≡ true
unfolding nearest
nearest-all done [] v d h g = absurd (ground (arith, g))
nearest-all done (y ∷ m) v d h g = elim (Option-cases (nearest done m)) [
  | inl e ↦ ground (arith, h, e, g, key_eq_iff y.0 v, nearest-all done m v d e)
  | inr (z, e) ↦ absurd (ground (arith, h, e))
]

nearest-least :
    (done : List String) (m : List (String × ℕ)) (x : String × ℕ) (v : String) (d : ℕ)
    → nearest done m ≡ some x
    → is_in v done ≡ false
    → get v m ≡ some d
    → x.1 ≤ d
unfolding nearest
nearest-least done [] x v d h new g = absurd (ground (arith, h))
nearest-least done (y ∷ m) x v d h new g = elim (Option-cases (nearest done m)) [
  | inl e ↦ ground (arith, h, e, new, g, key_eq_iff y.0 v, nearest-all done m v d e)
  | inr (z, e) ↦ ground (arith, h, e, new, g, key_eq_iff y.0 v, nearest-least done m z v d e new)
]

-- A walk along edges, and what it costs; it does not go on from a leaf that it reaches.
pub data Route (f : Fabric) (src : String) (es : List Edge) : String → ℕ → Type 0 where
  stay : Route f src es src 0
  along :
      (e : Edge) (d : ℕ)
      → Route f src es e.start d
      → stops f src e.start ≡ false
      → In e es
      → Route f src es e.to (d + e.cost)

abbrev pub mark : String → Search → Search
mark x s = record { dist = s.dist; count = s.count; done = x ∷ s.done }

module _ (f : Fabric) (src : String) (es : List Edge) where
  -- What each round keeps.
  pub record Inv (s : Search) : Type 0 where
    pub sorted : IsSorted s.dist
    pub real : Holds (Route f src es) s
    pub origin : AtMost src 0 s
    pub settled : (x : String) → is_in x s.done ≡ true → (d : ℕ) × (get x s.dist ≡ some d)
    pub relaxed :
        (e : Edge)
        → In e es
        → is_in e.start s.done ≡ true
        → stops f src e.start ≡ false
        → (d : ℕ) → get e.start s.dist ≡ some d
        → AtMost e.to (d + e.cost) s
    pub ordered :
        (u v : String) (c d : ℕ)
        → is_in u s.done ≡ true
        → is_in v s.done ≡ false
        → get u s.dist ≡ some c
        → get v s.dist ≡ some d
        → c ≤ d

  -- A round, once its node is marked: from `at` on, `t` is what the edges made of the search.
  module _ (at : String × ℕ) (s t : Search) (inv : Inv s)
      (is_next : nearest s.done s.dist ≡ some at) (l : Lowers at.1 (mark at.0 s) t) where
    is_new : is_in at.0 s.done ≡ false
    is_new = (nearest-undone s.done s.dist at is_next).0

    had : get at.0 s.dist ≡ some at.1
    had = get-In s.dist at inv.sorted (nearest-undone s.done s.dist at is_next).1

    has : get at.0 t.dist ≡ some at.1
    has = l.fixed at.0 (ground (arith, key_eq_refl at.0)) ∙ had

    keeps_old : (u : String) → is_in u s.done ≡ true → get u t.dist ≡ get u s.dist
    keeps_old u i = l.fixed u (ground (arith, i))

    -- No distance of a node that is done is above this one's.
    done_before :
        (u : String) (c : ℕ) → is_in u (at.0 ∷ s.done) ≡ true → get u t.dist ≡ some c → c ≤ at.1
    done_before u c i g = elim (Bool-cases (key_eq at.0 u)) [
      | inl k ↦ let same : at.0 ≡ u = (key_eq_iff at.0 u).0 k in ground (arith, same, g, has)
      | inr k ↦
          let old : is_in u s.done ≡ true = ground (arith, i, k) in
          inv.ordered u at.0 c at.1 old is_new (sym (keeps_old u old) ∙ g) had
    ]

    undone_after :
        (v : String) (d : ℕ) → is_in v (at.0 ∷ s.done) ≡ false → get v t.dist ≡ some d → at.1 ≤ d
    undone_after v d i g = elim (l.comes_late v d g) [
      | inl old ↦ nearest-least s.done s.dist at v d is_next (ground (arith, i)) old
      | inr late ↦ late
    ]

    settled_after :
        (x : String) → is_in x (at.0 ∷ s.done) ≡ true → (d : ℕ) × (get x t.dist ≡ some d)
    settled_after x i = elim (Bool-cases (key_eq at.0 x)) [
      | inl k ↦ (at.1, subst (λ y. get y t.dist ≡ some at.1) ((key_eq_iff at.0 x).0 k) has)
      | inr k ↦
          let old : is_in x s.done ≡ true = ground (arith, i, k) in
          let (d, e) = inv.settled x old in (d, keeps_old x old ∙ e)
    ]

    -- The edges that leave from the node lead on at its distance, to nodes that are done too.
    abbrev Leads : Type 0
    Leads =
        (e : Edge)
        → In e es
        → e.start ≡ at.0
        → stops f src at.0 ≡ false
        → is_in e.to (at.0 ∷ s.done) ≡ false
        → AtMost e.to (at.1 + e.cost) t

    leads_to :
        (e : Edge)
        → Leads
        → In e es
        → e.start ≡ at.0
        → stops f src at.0 ≡ false
        → AtMost e.to (at.1 + e.cost) t
    leads_to e leads i from on = elim (Bool-cases (is_in e.to (at.0 ∷ s.done))) [
      | inl k ↦
          let (d, g) = settled_after e.to k in
          let before = done_before e.to d k g in (d, g, omega (arith, before))
      | inr k ↦ leads e i from on k
    ]

    relaxed_after :
        (e : Edge)
        → Leads
        → In e es
        → is_in e.start (at.0 ∷ s.done) ≡ true
        → stops f src e.start ≡ false
        → (d : ℕ) → get e.start t.dist ≡ some d
        → AtMost e.to (d + e.cost) t
    relaxed_after e leads i k on d g = elim (Bool-cases (key_eq at.0 e.start)) [
      | inl same ↦
          let from : at.0 ≡ e.start = (key_eq_iff at.0 e.start).0 same in
          let dist : at.1 ≡ d = ground (arith, has, from, g) in
          subst (λ n. AtMost e.to (n + e.cost) t) dist
            (leads_to e leads i (sym from) (subst (λ x. stops f src x ≡ false) (sym from) on))
      | inr other ↦
          let old : is_in e.start s.done ≡ true = ground (arith, k, other) in
          l.goes_down e.to (d + e.cost) (inv.relaxed e i old on d (sym (keeps_old e.start old) ∙ g))
    ]

    in_done : (x : String) (b : Bool) → is_in x t.done ≡ b → is_in x (at.0 ∷ s.done) ≡ b
    in_done x b k = subst (λ ds. is_in x ds ≡ b) l.same k

    pub advance : Leads → Holds (Route f src es) t → Inv t
    advance leads real = record {
      sorted = l.sorted inv.sorted;
      real = real;
      origin = l.goes_down src 0 inv.origin;
      settled = λ x k. settled_after x (in_done x true k);
      relaxed = λ e i k. relaxed_after e leads i (in_done e.start true k);
      ordered = λ u v c d iu iv gu gv.
          let below = done_before u c (in_done u true iu) gu in
          let above = undone_after v d (in_done v false iv) gv in omega (arith, below, above);
    }
