-- ===== src/Model/Paths/Ties.antt =====
-- A count of one means one way to end a shortest route (src/derive.rs).
use Prim.Native.String.{String}
use cfab.Prelude.{
  ℕ, ◌+◌, ◌<◌, ◌≤◌, ◌≡◌, sym, subst, ap, ◌∙◌, inl, inr, true, List, [], ◌∷◌, some, All, In, arith,
  Bool-cases,
}
use cfab.Prelude.BTreeMap.{string_ord, key_eq, key_eq_iff, key_eq_refl, get}
use cfab.Model.Checks.{is_in}
use cfab.Model.Paths.{Edge, Search, or_zero}
use cfab.Model.Paths.Rounds.{AtMost, relax-Lowers}
use cfab.Model.Paths.Counted.{Offer, ways, count_of, Counted, improve-Counted}
use cfab.Model.Paths.Exact.{exact_relax, exact_relax_all}

module _ (at : String × ℕ) where
  -- The node whose edges are looked at is done, and no node that is done is farther.
  pub record Here (s : Search) : Type 0 where
    pub here : get at.0 s.dist ≡ some at.1
    pub its_done : is_in at.0 s.done ≡ true
    pub near : (u : String) → is_in u s.done ≡ true → AtMost u at.1 s

  abbrev pub offer : Edge → Offer
  offer e = (e, at.1 + e.cost)

  -- An edge to a node that is done is no way, as it costs something.
  skip-Counted :
      (e : Edge) (s : Search) (pool : List Offer)
      → 0 < e.cost
      → AtMost e.to at.1 s
      → Counted pool s
      → Counted (offer e ∷ pool) s
  skip-Counted e s pool pos (c, g, le) k = record {
    paid = λ x. elim (Bool-cases (key_eq e.to x)) [
      | inl same ↦
          let it : e.to ≡ x = (key_eq_iff e.to x).0 same in
          let old : ways pool e.to (some c) ≤ count_of e.to s =
            subst (λ o. ways pool e.to o ≤ count_of e.to s) g (k.paid e.to) in
          subst (λ y. ways (offer e ∷ pool) y (get y s.dist) ≤ count_of y s) it
            (subst (λ o. ways (offer e ∷ pool) e.to o ≤ count_of e.to s) (sym g)
              (ground (arith, key_eq_refl e.to, le, pos, old)))
      | inr other ↦ ground (arith, other, k.paid x)
    ];
    above = ((c, g, omega (arith, le)), k.above);
    positive = k.positive;
  }

  relax-Counted :
      (e : Edge) (s : Search) (pool : List Offer)
      → 0 < e.cost
      → Here s
      → Counted pool s
      → Counted (offer e ∷ pool) (exact_relax at e s)
  unfolding exact_relax
  relax-Counted e s pool pos h k = elim (Bool-cases (is_in e.to s.done)) [
    | inl i ↦ rw i (skip-Counted e s pool pos (h.near e.to i) k)
    | inr i ↦ rw i (
        improve-Counted e (at.1 + e.cost) (or_zero (get at.0 s.count)) s
          (k.positive at.0 at.1 h.here) pool k)
  ]

  relax-Here : (e : Edge) (s : Search) → Here s → Here (exact_relax at e s)
  relax-Here e s h =
      let l = relax-Lowers at e s in
      record {
        here = l.fixed at.0 h.its_done ∙ h.here;
        its_done = subst (λ ds. is_in at.0 ds ≡ true) (sym l.same) h.its_done;
        near = λ u i. l.goes_down u at.1 (h.near u (subst (λ ds. is_in u ds ≡ true) l.same i));
      }

  abbrev pub offers : List Edge → List Offer → List Offer
  offers [] pool = pool
  offers (e ∷ es) pool = offers es (offer e ∷ pool)

  pub relax_all-Counted :
      (es : List Edge) (s : Search) (pool : List Offer)
      → All (λ (e : Edge). 0 < e.cost) es
      → Here s
      → Counted pool s
      → Counted (offers es pool) (exact_relax_all at es s)
  unfolding exact_relax_all
  relax_all-Counted [] s pool pos h k = k
  relax_all-Counted (e ∷ es) s pool pos h k =
      relax_all-Counted es (exact_relax at e s) (offer e ∷ pool) pos.1 (relax-Here e s h)
        (relax-Counted e s pool pos.0 h k)

  pub offers-grow :
      (es : List Edge) (pool : List Offer) (o : Offer) → In o pool → In o (offers es pool)
  offers-grow [] pool o i = i
  offers-grow (e ∷ es) pool o i = offers-grow es (offer e ∷ pool) o (inr i)

  pub offers-offer :
      (es : List Edge) (pool : List Offer) (e : Edge) → In e es → In (offer e) (offers es pool)
  offers-offer [] pool e i = absurd i
  offers-offer (y ∷ es) pool e (inl same) =
      offers-grow es (offer y ∷ pool) (offer e) (inl (ap offer same))
  offers-offer (y ∷ es) pool e (inr i) = offers-offer es (offer y ∷ pool) e i
