-- ===== src/Prelude/Results.antt =====
-- A result or a refusal, as Rust's `Result`, with `?` as its bind.
use mathlib.Core.Path.{◌≡◌, refl, subst}
use mathlib.Core.List.{List, [], ◌∷◌}
use mathlib.Core.Option.{Option, none, some}
use native.Mathlib.Omega.{arith}

pub data Result (R A : Type 0) : Type 0 where
  ok : A → Result R A
  err : R → Result R A

abbrev pub ok_or : {R A : Type 0} → R → Option A → Result R A
ok_or r none = err r
ok_or r (some a) = ok a

-- What each element became.
module _ {A B : Type 0} where
  abbrev pub Pairwise : (A → B → Type 0) → List A → List B → Type 0
  Pairwise P [] [] = Unit
  Pairwise P [] (y ∷ ys) = ⊥
  Pairwise P (x ∷ xs) [] = ⊥
  Pairwise P (x ∷ xs) (y ∷ ys) = P x y × Pairwise P xs ys

module _ {R A B : Type 0} where
  infixl 5 ◌>>=◌
  abbrev pub ◌>>=◌ : Result R A → (A → Result R B) → Result R B
  ok a >>= f = f a
  err r >>= f = err r

  pub >>=-ok :
      (o : Result R A) (f : A → Result R B) (b : B)
      → o >>= f ≡ ok b
      → (a : A) × (o ≡ ok a) × (f a ≡ ok b)
  >>=-ok (ok a) f b h = (a, refl, h)
  >>=-ok (err r) f b h = absurd (ground (arith, h))

module _ {R A B : Type 0} where
  -- `collect` of results: all of them, or the first refusal.
  abbrev pub collect : (A → Result R B) → List A → Result R (List B)
  collect g [] = ok []
  collect g (x ∷ xs) = g x >>= λ y. collect g xs >>= λ ys. ok (y ∷ ys)

  pub collect-Pairwise :
      (g : A → Result R B) (xs : List A) (ys : List B)
      → collect g xs ≡ ok ys
      → Pairwise (λ x y. g x ≡ ok y) xs ys
  collect-Pairwise g [] ys h =
      let same : [] ≡ ys = ground (arith, h) in subst (Pairwise (λ x y. g x ≡ ok y) []) same tt
  collect-Pairwise g (x ∷ xs) ys h =
      let (y, e, later) = >>=-ok (g x) _ ys h in
      let (zs, es, last) = >>=-ok (collect g xs) _ ys later in
      let same : (y ∷ zs) ≡ ys = ground (arith, last) in
      subst (Pairwise (λ x y. g x ≡ ok y) (x ∷ xs)) same (e, collect-Pairwise g xs zs es)
