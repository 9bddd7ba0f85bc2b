-- ===== src/Model/Paths/Rounds.antt =====
-- What one round does to the distances (src/derive.rs).
use Prim.Native.String.{String}
use cfab.Prelude.{
  ℕ, ◌+◌, ◌≤◌, ◌≡◌, refl, sym, subst, ◌∙◌, ◌⊎◌, inl, inr, true, false, List, [], ◌∷◌, Option, none,
  some, In, arith, ltb, if◌then◌else◌, Bool-cases, Option-cases, if-both, min,
}
use cfab.Prelude.BTreeMap.{string_ord, key_eq, key_eq_iff, key_eq_refl, get, get-insert}
use cfab.Prelude.BTreeMap.Sorted.{IsSorted, insert-IsSorted}
use cfab.Model.Checks.{is_in}
use cfab.Model.Paths.{Edge, Search, improve, or_zero}
use cfab.Model.Paths.Exact.{exact_relax, exact_relax_all}

-- A distance of the name that is not above `n`.
abbrev pub AtMost : String → ℕ → Search → Type 0
AtMost x n s = (d : ℕ) × (get x s.dist ≡ some d) × (d ≤ n)

abbrev pub lower : Option ℕ → ℕ → ℕ
lower none nd = nd
lower (some c) nd = min c nd

pub improve-dist :
    (c : Option ℕ) (nd paths : ℕ) (to x : String) (s : Search)
    → get to s.dist ≡ c
    → get x (improve c nd paths to s).dist
      ≡ (if key_eq to x then some (lower c nd) else get x s.dist)
unfolding improve
improve-dist none nd paths to x s e = get-insert to x nd s.dist
improve-dist (some c) nd paths to x s e =
    ground (arith, e, key_eq_iff to x, get-insert to x nd s.dist)

pub improve-done :
    (c : Option ℕ) (nd paths : ℕ) (to : String) (s : Search)
    → (improve c nd paths to s).done ≡ s.done
unfolding improve
improve-done none nd paths to s = refl
improve-done (some c) nd paths to s = ground arith

improve-IsSorted :
    (c : Option ℕ) (nd paths : ℕ) (to : String) (s : Search)
    → IsSorted s.dist
    → IsSorted (improve c nd paths to s).dist
unfolding improve
improve-IsSorted none nd paths to s h = insert-IsSorted to nd s.dist h
improve-IsSorted (some c) nd paths to s h = ground (arith, h, insert-IsSorted to nd s.dist h)

-- What looking at edges from the distance `dk` may do to a search.
pub record Lowers (dk : ℕ) (s t : Search) : Type 0 where
  pub same : t.done ≡ s.done
  pub fixed : (x : String) → is_in x s.done ≡ true → get x t.dist ≡ get x s.dist
  pub goes_down : (x : String) (n : ℕ) → AtMost x n s → AtMost x n t
  pub comes_late : (x : String) (d : ℕ) → get x t.dist ≡ some d → (get x s.dist ≡ some d) ⊎ (dk ≤ d)
  pub sorted : IsSorted s.dist → IsSorted t.dist

pub Lowers-refl : (dk : ℕ) (s : Search) → Lowers dk s s
Lowers-refl dk s = record {
  same = refl;
  fixed = λ x i. refl;
  goes_down = λ x n a. a;
  comes_late = λ x d e. inl e;
  sorted = λ h. h;
}

Lowers-trans : (dk : ℕ) (s t u : Search) → Lowers dk s t → Lowers dk t u → Lowers dk s u
Lowers-trans dk s t u a b = record {
  same = b.same ∙ a.same;
  fixed = λ x i. b.fixed x (rw a.same i) ∙ a.fixed x i;
  goes_down = λ x n h. b.goes_down x n (a.goes_down x n h);
  comes_late = λ x d e. elim (b.comes_late x d e) [ inl h ↦ a.comes_late x d h | inr h ↦ inr h ];
  sorted = λ h. b.sorted (a.sorted h);
}

pub improve-AtMost :
    (nd paths : ℕ) (to : String) (s : Search) → AtMost to nd (improve (get to s.dist) nd paths to s)
improve-AtMost nd paths to s =
    let e = improve-dist (get to s.dist) nd paths to to s refl in
    (lower (get to s.dist) nd, ground (arith, e, key_eq_refl to), ground arith)

pub improve-goes_down :
    (nd paths : ℕ) (to x : String) (n : ℕ) (s : Search)
    → AtMost x n s
    → AtMost x n (improve (get to s.dist) nd paths to s)
improve-goes_down nd paths to x n s (d, e, le) =
    let r = improve-dist (get to s.dist) nd paths to x s refl in
    elim (Bool-cases (key_eq to x)) [
      | inl k ↦
          let same : to ≡ x = (key_eq_iff to x).0 k in
          (lower (get to s.dist) nd, ground (arith, r, k), ground (arith, same, e, le))
      | inr k ↦ (d, ground (arith, r, k, e), le)
    ]

improve-Lowers :
    (dk nd paths : ℕ) (to : String) (s : Search)
    → is_in to s.done ≡ false
    → dk ≤ nd
    → Lowers dk s (improve (get to s.dist) nd paths to s)
improve-Lowers dk nd paths to s new late =
    let r = λ (x : String). improve-dist (get to s.dist) nd paths to x s refl in
    record {
      same = improve-done (get to s.dist) nd paths to s;
      fixed = λ x i. ground (arith, r x, new, i, key_eq_iff to x);
      goes_down = λ x n a. improve-goes_down nd paths to x n s a;
      comes_late = λ x d e. ground (arith, e, r x, key_eq_iff to x, late);
      sorted = improve-IsSorted (get to s.dist) nd paths to s;
    }

pub relax-Lowers : (at : String × ℕ) (e : Edge) (s : Search) → Lowers at.1 s (exact_relax at e s)
unfolding exact_relax
relax-Lowers at e s = elim (Bool-cases (is_in e.to s.done)) [
  | inl i ↦ rw i (Lowers-refl at.1 s)
  | inr i ↦
      rw i (improve-Lowers at.1 (at.1 + e.cost) (or_zero (get at.0 s.count)) e.to s i (omega arith))
]

pub relax-AtMost :
    (at : String × ℕ) (e : Edge) (s : Search)
    → is_in e.to s.done ≡ false
    → AtMost e.to (at.1 + e.cost) (exact_relax at e s)
unfolding exact_relax
relax-AtMost at e s i = rw i (improve-AtMost (at.1 + e.cost) (or_zero (get at.0 s.count)) e.to s)

pub relax_all-Lowers :
    (at : String × ℕ) (es : List Edge) (s : Search) → Lowers at.1 s (exact_relax_all at es s)
unfolding exact_relax_all
relax_all-Lowers at [] s = Lowers-refl at.1 s
relax_all-Lowers at (e ∷ es) s =
    Lowers-trans at.1 s (exact_relax at e s) _ (relax-Lowers at e s)
      (relax_all-Lowers at es (exact_relax at e s))

-- Every edge that is looked at counts.
pub relax_all-AtMost :
    (at : String × ℕ) (es : List Edge) (s : Search) (e : Edge)
    → In e es
    → is_in e.to s.done ≡ false
    → AtMost e.to (at.1 + e.cost) (exact_relax_all at es s)
unfolding exact_relax_all
relax_all-AtMost at [] s e i new = absurd i
relax_all-AtMost at (y ∷ es) s e (inl same) new =
    subst (λ (z : Edge). AtMost z.to (at.1 + z.cost) (exact_relax_all at es (exact_relax at y s)))
      same
      ((relax_all-Lowers at es (exact_relax at y s)).goes_down y.to (at.1 + y.cost)
        (relax-AtMost at y s (subst (λ (z : Edge). is_in z.to s.done ≡ false) (sym same) new)))
relax_all-AtMost at (y ∷ es) s e (inr i) new =
    relax_all-AtMost at es (exact_relax at y s) e i (rw (relax-Lowers at y s).same new)

-- What is true of every distance stays true, if the edges lead to what it is true of.
module _ (P : String → ℕ → Type 0) where
  abbrev pub Holds : Search → Type 0
  Holds s = (x : String) (d : ℕ) → get x s.dist ≡ some d → P x d

  improve-Holds :
      (nd paths : ℕ) (to : String) (s : Search)
      → P to nd
      → Holds s
      → Holds (improve (get to s.dist) nd paths to s)
  improve-Holds nd paths to s p h x d e =
      let r = improve-dist (get to s.dist) nd paths to x s refl in
      elim (Bool-cases (key_eq to x)) [
        | inl k ↦
            let same : to ≡ x = (key_eq_iff to x).0 k in
            elim (Option-cases (get to s.dist)) [
              | inl none_yet ↦
                  let at : nd ≡ d = ground (arith, e, r, k, none_yet) in
                  subst (λ y. P y d) same (subst (P to) at p)
              | inr (c, known) ↦ elim (Bool-cases (ltb c nd)) [
                | inl l ↦ h x d (ground (arith, e, r, k, known, l, same))
                | inr l ↦
                    let at : nd ≡ d = ground (arith, e, r, k, known, l) in
                    subst (λ y. P y d) same (subst (P to) at p)
              ]
            ]
        | inr k ↦ h x d (ground (arith, e, r, k))
      ]

  pub relax_all-Holds :
      (at : String × ℕ) (es : List Edge) (s : Search)
      → ((e : Edge) → In e es → P e.to (at.1 + e.cost))
      → Holds s
      → Holds (exact_relax_all at es s)
  unfolding exact_relax_all exact_relax
  relax_all-Holds at [] s p h = h
  relax_all-Holds at (e ∷ es) s p h =
      relax_all-Holds at es (exact_relax at e s) (λ y i. p y (inr i))
        (if-both Holds (is_in e.to s.done) _ _ h
          (improve-Holds (at.1 + e.cost) (or_zero (get at.0 s.count)) e.to s (p e (inl refl)) h))
