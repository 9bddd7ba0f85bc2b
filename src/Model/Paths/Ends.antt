-- ===== src/Model/Paths/Ends.antt =====
-- The search for shortest paths ends (src/derive.rs).
use Prim.Native.String.{String}
use cfab.Prelude.{
  ℕ, zero, suc, ◌<◌, ◌≤◌, ◌≡◌, refl, ◌∙◌, inl, inr, Bool, true, false, not, List, [], ◌∷◌, map,
  Option, none, some, All, In, arith, ltb, ◌==◌, filter, length, length-map, if-both, Bool-cases,
  Option-cases,
}
use cfab.Prelude.BTreeMap.{string_ord, key_eq, key_eq_iff, key_eq_refl, get, AllKeys-insert}
use cfab.Model.{Fabric}
use cfab.Model.Checks.{is_in}
use cfab.Model.Find.{All-In, is_in-map}
use cfab.Model.Derive.Total.{Yields}
use cfab.Model.Paths.{
  Edge, Search, nearest, improve, relax, relax_all, stops, visit, explore, begin, rounds, or_zero,
  add_u32,
}

-- How many of the names are not done.
abbrev undone : List String → List String → ℕ
undone names done = length (filter (λ n. not (is_in n done)) names)

undone-le : (k : String) (done names : List String) → undone names (k ∷ done) ≤ undone names done
undone-le k done [] = omega arith
undone-le k done (n ∷ ns) = ground (arith, undone-le k done ns)

-- A name that is done now, and was not, is one less.
undone-less :
    (k : String) (done names : List String)
    → is_in k names ≡ true
    → is_in k done ≡ false
    → undone names (k ∷ done) < undone names done
undone-less k done [] i new = absurd (ground (arith, i))
undone-less k done (n ∷ ns) i new = elim (Bool-cases (key_eq n k)) [
  | inl e ↦
      let same : n ≡ k = (key_eq_iff n k).0 e in
      ground (arith, new, same, key_eq_refl k, undone-le k done ns)
  | inr e ↦ ground (arith, e, undone-less k done ns (ground (arith, i, e)) new)
]

pub nearest-undone :
    (done : List String) (m : List (String × ℕ)) (x : String × ℕ)
    → nearest done m ≡ some x
    → (is_in x.0 done ≡ false) × In x m
unfolding nearest
nearest-undone done [] x h = absurd (ground (arith, h))
nearest-undone done (y ∷ m) x h = elim (Option-cases (nearest done m)) [
  | inl e ↦ ground (arith, h, e)
  | inr (z, e) ↦ ground (arith, h, e, nearest-undone done m z e)
]

module _ {A : Type 0} (P : A → Type 0) where
  pub All-filter : (p : A → Bool) (xs : List A) → All P xs → All P (filter p xs)
  All-filter p [] a = tt
  All-filter p (x ∷ xs) a =
      if-both (All P) (p x) _ _ (a.0, All-filter p xs a.1) (All-filter p xs a.1)

  In-All : (xs : List A) → ((x : A) → In x xs → P x) → All P xs
  In-All [] h = tt
  In-All (x ∷ xs) h = (h x (inl refl), In-All xs λ y i. h y (inr i))

module _ (names : List String) where
  abbrev Knows : Search → Type 0
  Knows s = All (λ x. is_in x.0 names ≡ true) s.dist

  -- What a round may do to the search while it looks at edges.
  abbrev Keeps : Search → Search → Type 0
  Keeps s t = Knows t × (t.done ≡ s.done)

  improve-Knows :
      (c : Option ℕ) (nd paths : ℕ) (to : String) (s : Search)
      → is_in to names ≡ true
      → Knows s
      → Keeps s (improve c nd paths to s)
  unfolding improve
  improve-Knows none nd paths to s i a =
      (AllKeys-insert (λ n. is_in n names ≡ true) to nd s.dist i a, refl)
  improve-Knows (some c) nd paths to s i a =
      if-both (Keeps s) (ltb c nd) _ _ (a, refl)
        (if-both (Keeps s) (c == nd) _ _ (a, refl)
          (AllKeys-insert (λ n. is_in n names ≡ true) to nd s.dist i a, refl))

  relax-Knows :
      (at : String × ℕ) (e : Edge) (s : Search)
      → is_in e.to names ≡ true
      → Knows s
      → Keeps s (relax at e s)
  unfolding relax
  relax-Knows at e s i a =
      if-both (Keeps s) (is_in e.to s.done) _ _ (a, refl)
        (improve-Knows (get e.to s.dist) (add_u32 at.1 e.cost) (or_zero (get at.0 s.count)) e.to s i
          a)

  relax_all-Knows :
      (at : String × ℕ) (es : List Edge) (s : Search)
      → All (λ (e : Edge). is_in e.to names ≡ true) es
      → Knows s
      → Keeps s (relax_all at es s)
  unfolding relax_all
  relax_all-Knows at [] s i a = (a, refl)
  relax_all-Knows at (e ∷ es) s i a =
      let (k, d) = relax-Knows at e s i.0 a in
      let (k', d') = relax_all-Knows at es (relax at e s) i.1 k in (k', d' ∙ d)

  module _ (f : Fabric) (src : String) (es : List Edge) where
    visit-Knows :
        (at : String × ℕ) (s : Search)
        → All (λ (e : Edge). is_in e.to names ≡ true) es
        → Knows s
        → Knows (visit f src es at s) × ((visit f src es at s).done ≡ (at.0 ∷ s.done))
    unfolding visit
    visit-Knows at s i a =
        let t : Search = record { dist = s.dist; count = s.count; done = at.0 ∷ s.done } in
        if-both (Keeps t) (stops f src at.0) _ _ (a, refl)
          (relax_all-Knows at (filter (λ (e : Edge). key_eq e.start at.0) es) t
            (All-filter _ _ es i) a)

    -- With a round for each name that is not done, and one more, the search ends.
    explore-Yields :
        (n : ℕ) (s : Search)
        → All (λ (e : Edge). is_in e.to names ≡ true) es
        → Knows s
        → undone names s.done < n
        → Yields (explore n f src es s)
    unfolding explore
    explore-Yields zero s i a fuel = absurd (omega (arith, fuel))
    explore-Yields (suc n) s i a fuel = elim (Option-cases (nearest s.done s.dist)) [
      | inl e ↦ (s, rw (e, explore) refl)
      | inr (at, e) ↦
          let (new, there) = nearest-undone s.done s.dist at e in
          let (k, d) = visit-Knows at s i a in
          let less = undone-less at.0 s.done names (All-In _ s.dist at a there) new in
          rw (e, explore)
            (explore-Yields n (visit f src es at s) i k (rw d (omega (arith, less, fuel))))
    ]

undone-bound : (done names : List String) → undone names done ≤ length names
undone-bound done [] = omega arith
undone-bound done (n ∷ ns) = ground (arith, undone-bound done ns)

-- From every member the rounds are enough.
pub begin-Yields :
    (f : Fabric) (src : String) (es : List Edge) → Yields (explore (rounds es) f src es (begin src))
begin-Yields f src es =
    let names = src ∷ map (λ (e : Edge). e.to) es in
    explore-Yields names f src es (rounds es) (begin src)
      (In-All _ es λ e i. ground (arith, is_in-map (λ (e : Edge). e.to) es e i))
      (ground (arith, key_eq_refl src), tt)
      (omega (arith, undone-bound [] names, length-map (λ (e : Edge). e.to) es))
