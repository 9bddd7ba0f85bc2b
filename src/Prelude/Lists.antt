-- ===== src/Prelude/Lists.antt =====
-- Lists measured and indexed by native numbers, under the library's names, and predicates on them.
use Prim.Native.Nat.{ℕ, zero, suc, ◌+◌, ◌≤◌}
use mathlib.Core.Path.{◌≡◌, refl}
use mathlib.Core.Logic.{◌⊎◌}
use mathlib.Core.Bool.{Bool, false, ◌||◌}
use mathlib.Core.List.{List, [], ◌∷◌, ◌++◌, map}
use native.Mathlib.Omega.{arith}
use cfab.Prelude.Tests.{if◌then◌else◌}

module _ {ℓ} {A : Type ℓ} where
  abbrev pub length : List A → ℕ
  length [] = 0
  length (x ∷ xs) = suc (length xs)

  abbrev pub get_or : List A → ℕ → A → A
  get_or [] i d = d
  get_or (x ∷ xs) zero d = x
  get_or (x ∷ xs) (suc i) d = get_or xs i d

  abbrev pub take : ℕ → List A → List A
  take zero xs = []
  take (suc n) [] = []
  take (suc n) (x ∷ xs) = x ∷ take n xs

  abbrev pub drop : ℕ → List A → List A
  drop zero xs = xs
  drop (suc n) [] = []
  drop (suc n) (x ∷ xs) = drop n xs

  abbrev pub replicate : ℕ → A → List A
  replicate zero a = []
  replicate (suc n) a = a ∷ replicate n a

  -- `filter` by a Boolean test.
  abbrev pub filter : (A → Bool) → List A → List A
  filter p [] = []
  filter p (x ∷ xs) = if p x then x ∷ filter p xs else filter p xs

  abbrev pub any : (A → Bool) → List A → Bool
  any p [] = false
  any p (x ∷ xs) = p x || any p xs

  pub length-append : (xs ys : List A) → length (xs ++ ys) ≡ length xs + length ys
  length-append [] ys = omega arith
  length-append (x ∷ xs) ys = omega (arith, length-append xs ys)

  pub length-filter-le : (p : A → Bool) (xs : List A) → length (filter p xs) ≤ length xs
  length-filter-le p [] = omega arith
  length-filter-le p (x ∷ xs) = ground (arith, length-filter-le p xs)

  pub any-append : (p : A → Bool) (xs ys : List A) → any p (xs ++ ys) ≡ (any p xs || any p ys)
  any-append p [] ys = refl
  any-append p (x ∷ xs) ys = ground (arith, any-append p xs ys)

-- A predicate that holds of all elements, and of one of them.
module _ {ℓ κ} {A : Type ℓ} where
  abbrev pub All : (A → Type κ) → List A → Type κ
  All P [] = Unit
  All P (x ∷ xs) = P x × All P xs

  pub All-mono : (P Q : A → Type κ) (xs : List A) → ((x : A) → P x → Q x) → All P xs → All Q xs
  All-mono P Q [] f a = tt
  All-mono P Q (x ∷ xs) f a = (f x a.0, All-mono P Q xs f a.1)

module _ {A : Type 0} (P : A → Type 0) where
  pub All-++ : (xs ys : List A) → All P xs → All P ys → All P (xs ++ ys)
  All-++ [] ys a b = b
  All-++ (x ∷ xs) ys a b = (a.0, All-++ xs ys a.1 b)

  pub All-map : {B : Type 0} (g : B → A) (xs : List B) → All (λ b. P (g b)) xs → All P (map g xs)
  All-map g [] a = tt
  All-map g (x ∷ xs) a = (a.0, All-map g xs a.1)

-- Membership by recursion: a sum that the tactics take apart.
module _ {A : Type 0} where
  abbrev pub In : A → List A → Type 0
  In a [] = ⊥
  In a (x ∷ xs) = (x ≡ a) ⊎ In a xs

-- Two lists of the same length, related place by place.
module _ {A : Type 0} where
  abbrev pub Pairs : (A → A → Type 0) → List A → List A → Type 0
  Pairs R [] [] = Unit
  Pairs R [] (y ∷ ys) = ⊥
  Pairs R (x ∷ xs) [] = ⊥
  Pairs R (x ∷ xs) (y ∷ ys) = R x y × Pairs R xs ys

  pub Pairs-refl : (R : A → A → Type 0) → ((x : A) → R x x) → (xs : List A) → Pairs R xs xs
  Pairs-refl R r [] = tt
  Pairs-refl R r (x ∷ xs) = (r x, Pairs-refl R r xs)

  pub Pairs-trans :
      (R S T : A → A → Type 0)
      → ((x y z : A) → R x y → S y z → T x z)
      → (xs ys zs : List A) → Pairs R xs ys
      → Pairs S ys zs
      → Pairs T xs zs
  Pairs-trans R S T t [] [] [] p q = tt
  Pairs-trans R S T t [] [] (z ∷ zs) p q = absurd q
  Pairs-trans R S T t [] (y ∷ ys) zs p q = absurd p
  Pairs-trans R S T t (x ∷ xs) [] zs p q = absurd p
  Pairs-trans R S T t (x ∷ xs) (y ∷ ys) [] p q = absurd q
  Pairs-trans R S T t (x ∷ xs) (y ∷ ys) (z ∷ zs) p q =
      (t x y z p.0 q.0, Pairs-trans R S T t xs ys zs p.1 q.1)

  pub Pairs-map :
      (R : A → A → Type 0) (f : A → A)
      → ((x : A) → R x (f x))
      → (xs : List A) → Pairs R xs (map f xs)
  Pairs-map R f h [] = tt
  Pairs-map R f h (x ∷ xs) = (h x, Pairs-map R f h xs)

  pub Pairs-mono :
      (R S : A → A → Type 0)
      → ((x y : A) → R x y → S x y)
      → (xs ys : List A) → Pairs R xs ys
      → Pairs S xs ys
  Pairs-mono R S h [] [] p = tt
  Pairs-mono R S h [] (y ∷ ys) p = absurd p
  Pairs-mono R S h (x ∷ xs) [] p = absurd p
  Pairs-mono R S h (x ∷ xs) (y ∷ ys) p = (h x y p.0, Pairs-mono R S h xs ys p.1)

  pub Pairs-All :
      (R : A → A → Type 0) (P Q : A → Type 0)
      → ((x y : A) → R x y → P x → Q y)
      → (xs ys : List A) → Pairs R xs ys
      → All P xs
      → All Q ys
  Pairs-All R P Q h [] [] p a = tt
  Pairs-All R P Q h [] (y ∷ ys) p a = absurd p
  Pairs-All R P Q h (x ∷ xs) [] p a = absurd p
  Pairs-All R P Q h (x ∷ xs) (y ∷ ys) p a = (h x y p.0 a.0, Pairs-All R P Q h xs ys p.1 a.1)

  pub Pairs-length : (R : A → A → Type 0) (xs ys : List A) → Pairs R xs ys → length ys ≡ length xs
  Pairs-length R [] [] p = refl
  Pairs-length R [] (y ∷ ys) p = absurd p
  Pairs-length R (x ∷ xs) [] p = absurd p
  Pairs-length R (x ∷ xs) (y ∷ ys) p = omega (arith, Pairs-length R xs ys p.1)

module _ {A : Type 0} where
  pub length-map : {B : Type 0} (f : A → B) (xs : List A) → length (map f xs) ≡ length xs
  length-map f [] = refl
  length-map f (x ∷ xs) = omega (arith, length-map f xs)

  pub length-take-le : (n : ℕ) (xs : List A) → length (take n xs) ≤ n
  length-take-le zero xs = omega arith
  length-take-le (suc n) [] = omega arith
  length-take-le (suc n) (x ∷ xs) = omega (arith, length-take-le n xs)
