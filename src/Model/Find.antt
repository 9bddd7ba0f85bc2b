-- ===== src/Model/Find.antt =====
-- Lookups in lists: `find`, `position` and the tests for membership (src/model.rs, src/derive.rs).
use Prim.Native.String.{String}
use cfab.Prelude.{
  ℕ, suc, ◌≡◌, refl, sym, ap, ◌∙◌, subst, inl, inr, Bool, true, List, [], ◌∷◌, map, some, All, In,
  arith, any, filter, Bool-cases,
}
use cfab.Prelude.BTreeMap.{Ord, string_ord, key_eq, key_eq_iff}
use cfab.Model.{find}
use cfab.Model.Derive.{position}
use cfab.Model.Checks.{is_in, Distinct}

module _ {A : Type 0} where
  pub find-holds :
      (p : A → Bool) (xs : List A) (x : A) → find p xs ≡ some x → (p x ≡ true) × In x xs
  find-holds p [] x h = absurd (ground (arith, h))
  find-holds p (y ∷ ys) x h = ground (arith, h, find-holds p ys x)

  pub find-filter :
      (p q : A → Bool) (xs : List A) (x : A)
      → find p xs ≡ some x
      → q x ≡ true
      → find p (filter q xs) ≡ some x
  find-filter p q [] x h k = absurd (ground (arith, h))
  find-filter p q (y ∷ ys) x h k = ground (arith, h, k, find-filter p q ys x)

  pub In-filter : (q : A → Bool) (xs : List A) (x : A) → In x xs → q x ≡ true → In x (filter q xs)
  In-filter q [] x i k = absurd i
  In-filter q (y ∷ ys) x i k = ground (arith, i, k, In-filter q ys x)

  pub All-In : (P : A → Type 0) (xs : List A) (x : A) → All P xs → In x xs → P x
  All-In P [] x a i = absurd i
  All-In P (y ∷ ys) x a (inl e) = subst P e a.0
  All-In P (y ∷ ys) x a (inr i) = All-In P ys x a.1 i

  pub any-In : (p : A → Bool) (xs : List A) (x : A) → In x xs → p x ≡ true → any p xs ≡ true
  any-In p [] x i k = absurd i
  any-In p (y ∷ ys) x i k = ground (arith, i, k, any-In p ys x)

  module _ {K : Type 0} ⦃o : Ord K⦄ (f : A → K) where
    pub is_in-map : (xs : List A) (x : A) → In x xs → is_in (f x) (map f xs) ≡ true
    is_in-map [] x i = absurd i
    is_in-map (y ∷ ys) x (inl e) = ground (arith, ap f e, key_eq_iff (f y) (f x))
    is_in-map (y ∷ ys) x (inr i) = ground (arith, is_in-map ys x i)

    -- What is distinct under `f` is told apart by `f`.
    pub Distinct-injective :
        (xs : List A) (x y : A) → Distinct (map f xs) → In x xs → In y xs → f x ≡ f y → x ≡ y
    Distinct-injective [] x y d i j e = absurd i
    Distinct-injective (z ∷ zs) x y d (inl i) (inl j) e = sym i ∙ j
    Distinct-injective (z ∷ zs) x y d (inl i) (inr j) e =
        absurd (ground (arith, d.0, is_in-map zs y j, ap f i, e))
    Distinct-injective (z ∷ zs) x y d (inr i) (inl j) e =
        absurd (ground (arith, d.0, is_in-map zs x i, ap f j, e))
    Distinct-injective (z ∷ zs) x y d (inr i) (inr j) e = Distinct-injective zs x y d.1 i j e

    -- The lookup by a distinct key finds the element itself.
    pub find-Distinct :
        (xs : List A) (x : A)
        → Distinct (map f xs)
        → In x xs
        → find (λ y. key_eq (f y) (f x)) xs ≡ some x
    find-Distinct [] x d i = absurd i
    find-Distinct (y ∷ ys) x d (inl e) = ground (arith, e, ap f e, key_eq_iff (f y) (f x))
    find-Distinct (y ∷ ys) x d (inr i) =
        ground (arith, find-Distinct ys x d.1 i, d.0, key_eq_iff (f y) (f x), is_in-map ys x i)

pub position-is_in :
    (n : String) (xs : List String) → is_in n xs ≡ true → (i : ℕ) × (position n xs ≡ some i)
position-is_in n [] h = absurd (ground (arith, h))
position-is_in n (x ∷ xs) h = elim (Bool-cases (key_eq x n)) [
  | inl e ↦ (0, ground (arith, e))
  | inr e ↦
      let (i, there) = position-is_in n xs (ground (arith, h, e)) in (suc i, rw (e, there) refl)
]
