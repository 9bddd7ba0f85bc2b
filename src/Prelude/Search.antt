-- ===== src/Prelude/Search.antt =====
-- Searches through a list, as Rust's `position`, `find`, `enumerate` and `min_by_key` make them.
use cfab.Prelude.Tests.{ltb, ltb→lt, if◌then◌else◌, Bool-cases}
use cfab.Prelude.Lists.{All, In, any, filter}
use Prim.Native.Nat.{ℕ, suc, ◌≤◌, ◌<◌}
use mathlib.Core.Path.{◌≡◌, refl, sym, subst}
use mathlib.Core.Logic.{inl, inr}
use mathlib.Core.Bool.{Bool, true}
use mathlib.Core.Option.{Option, none, some}
use mathlib.Core.Option
use mathlib.Core.List.{List, [], ◌∷◌, map}
use native.Mathlib.Omega.{arith}

module _ {ℓ} {A : Type ℓ} where
  -- The first element that passes the test.
  abbrev pub find : (A → Bool) → List A → Option A
  find p [] = none
  find p (x ∷ xs) = if p x then some x else find p xs

  -- The index of the first element that passes the test.
  abbrev pub position : (A → Bool) → List A → Option ℕ
  position p [] = none
  position p (x ∷ xs) = if p x then some 0 else Option.map suc (position p xs)

  -- Each element behind its index, counted from `n`.
  abbrev pub enumerate_from : ℕ → List A → List (ℕ × A)
  enumerate_from n [] = []
  enumerate_from n (x ∷ xs) = (n, x) ∷ enumerate_from (suc n) xs

  -- The loop of `min_by_key`: an element replaces the best one only if it is strictly less.
  abbrev pub least : (A → A → Bool) → A → List A → A
  least lt b [] = b
  least lt b (x ∷ xs) = least lt (if lt x b then x else b) xs

  abbrev pub min_by : (A → A → Bool) → List A → Option A
  min_by lt [] = none
  min_by lt (x ∷ xs) = some (least lt x xs)

  abbrev pub by_key : (A → ℕ) → A → A → Bool
  by_key key x y = ltb (key x) (key y)

module _ {A : Type 0} where
  pub find_sound :
      (p : A → Bool) (xs : List A) {x : A} → find p xs ≡ some x → (p x ≡ true) × In x xs
  find_sound p [] h = absurd (ground arith)
  find_sound p (y ∷ ys) {x} h = ground (arith, find_sound p ys {x = x})

-- `r` stands first among the elements of least key.
pub data FirstMin {A : Type 0} (key : A → ℕ) (r : A) : List A → Type 0 where
  here : {x : A} {xs : List A} → r ≡ x → All (λ c. key r ≤ key c) xs → FirstMin key r (x ∷ xs)
  there : {x : A} {xs : List A} → key r < key x → FirstMin key r xs → FirstMin key r (x ∷ xs)

module _ {A : Type 0} (key : A → ℕ) where
  FirstMin-skip :
      (r b x : A) (xs : List A)
      → key b ≤ key x
      → FirstMin key r (b ∷ xs)
      → FirstMin key r (b ∷ x ∷ xs)
  FirstMin-skip r b x xs h (here e rest) = here e (rw e h, rest)
  FirstMin-skip r b x xs h (there lt m) = there lt (there (omega arith) m)

  FirstMin-head : (r x : A) (xs : List A) → FirstMin key r (x ∷ xs) → key r ≤ key x
  FirstMin-head r x xs (here e rest) = rw e (omega arith)
  FirstMin-head r x xs (there lt m) = omega arith

  pub least-FirstMin : (b : A) (xs : List A) → FirstMin key (least (by_key key) b xs) (b ∷ xs)
  least-FirstMin b [] = here refl tt
  least-FirstMin b (x ∷ xs) = elim (Bool-cases (ltb (key x) (key b))) [
    | inl e ↦ rw e (
        there (omega (arith, ltb→lt _ _ e, FirstMin-head _ x xs (least-FirstMin x xs)))
          (least-FirstMin x xs))
    | inr e ↦ rw e (FirstMin-skip _ b x xs (ground arith) (least-FirstMin b xs))
  ]

  pub min_by-FirstMin : (xs : List A) {r : A} → min_by (by_key key) xs ≡ some r → FirstMin key r xs
  min_by-FirstMin [] h = absurd (ground arith)
  min_by-FirstMin (x ∷ xs) {r} h = rw (← found) (least-FirstMin x xs)
    where
      found : least (by_key key) x xs ≡ r
      found = cc

  pub FirstMin-In : (r : A) (xs : List A) → FirstMin key r xs → In r xs
  FirstMin-In r [] m = elim m [ ]
  FirstMin-In r (x ∷ xs) (here e rest) = inl (sym e)
  FirstMin-In r (x ∷ xs) (there lt m) = inr (FirstMin-In r xs m)

  pub FirstMin-All : (r : A) (xs : List A) → FirstMin key r xs → All (λ c. key r ≤ key c) xs
  FirstMin-All r [] m = elim m [ ]
  FirstMin-All r (x ∷ xs) (here e rest) = (rw e (omega arith), rest)
  FirstMin-All r (x ∷ xs) (there lt m) = (omega arith, FirstMin-All r xs m)

module _ {A : Type 0} where
  pub In-filter : (p : A → Bool) (xs : List A) {x : A} → In x (filter p xs) → (p x ≡ true) × In x xs
  In-filter p [] h = absurd h
  In-filter p (y ∷ ys) {x} h = ground (arith, In-filter p ys {x = x})

  pub In-All {κ} : (P : A → Type κ) (xs : List A) {x : A} → All P xs → In x xs → P x
  In-All P [] a i = absurd i
  In-All P (y ∷ ys) a (inl e) = subst P e a.0
  In-All P (y ∷ ys) a (inr i) = In-All P ys a.1 i

  pub any-map : (p : A → Bool) (xs : List A) → any (λ g. g) (map p xs) ≡ any p xs
  any-map p [] = refl
  any-map p (x ∷ xs) = rw (any-map p xs)

  pub In-map :
      {B : Type 0} (f : A → B) (xs : List A) {b : B}
      → In b (map f xs)
      → (a : A) × In a xs × (f a ≡ b)
  In-map f [] i = absurd i
  In-map f (x ∷ xs) (inl e) = (x, inl refl, e)
  In-map f (x ∷ xs) (inr i) = let (a, m, e) = In-map f xs i in (a, inr m, e)

  pub any-In : (p : A → Bool) (xs : List A) → any p xs ≡ true → (a : A) × In a xs × (p a ≡ true)
  any-In p [] h = absurd (ground arith)
  any-In p (x ∷ xs) h = elim (Bool-cases (p x)) [
    | inl e ↦ (x, inl refl, e)
    | inr e ↦ let (a, m, t) = any-In p xs (ground arith) in (a, inr m, t)
  ]

  pub In-any : (p : A → Bool) (xs : List A) (a : A) → In a xs → p a ≡ true → any p xs ≡ true
  In-any p [] a i e = absurd i
  In-any p (x ∷ xs) a (inl s) e = rw (s, e)
  In-any p (x ∷ xs) a (inr i) e = ground (arith, In-any p xs a i e)
