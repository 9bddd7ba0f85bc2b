-- ===== src/Model/Checks.antt =====
-- The checks of `Fabric::validate` (src/model.rs) one after the other: the first that refuses is the
-- result, and a check may panic.
use cfab.Prelude.{
  ◌≡◌, refl, inl, inr, Bool, true, false, List, [], ◌∷◌, Option, none, some, All, In, arith, any,
  if◌then◌else◌,
}
use cfab.Prelude.BTreeMap.{Ord, key_eq, key_eq_iff, key_eq_refl}

pub data Checked (R : Type 0) : Type 0 where
  pass : Checked R
  refused : R → Checked R
  panicked : Checked R

module _ {R : Type 0} where
  infixr 3 ◌>>◌
  unfoldable pub ◌>>◌ : Checked R → Checked R → Checked R
  pass >> c = c
  (refused r) >> c = refused r
  panicked >> c = panicked

  unfoldable pub refuse_if : Bool → R → Checked R
  refuse_if b r = if b then refused r else pass

  abbrev pub refuse_some : {A : Type 0} → (A → R) → Option A → Checked R
  refuse_some f none = pass
  refuse_some f (some a) = refused (f a)

  abbrev pub each : {A : Type 0} → (A → Checked R) → List A → Checked R
  each f [] = pass
  each f (x ∷ xs) = f x >> each f xs

  pub >>-pass : (a b : Checked R) → (a >> b) ≡ pass → (a ≡ pass) × (b ≡ pass)
  unfolding ◌>>◌
  >>-pass pass b h = (refl, h)
  >>-pass (refused r) b h = absurd (ground (arith, h))
  >>-pass panicked b h = absurd (ground (arith, h))

  pub each-pass :
      {A : Type 0} (f : A → Checked R) (xs : List A) → each f xs ≡ pass → All (λ x. f x ≡ pass) xs
  each-pass f [] h = tt
  each-pass f (x ∷ xs) h =
      let (here, rest) = >>-pass (f x) (each f xs) h in (here, each-pass f xs rest)

  pub refuse_if-pass : (b : Bool) (r : R) → refuse_if b r ≡ pass → b ≡ false
  unfolding refuse_if
  refuse_if-pass b r h = ground (arith, h)

  pub refuse_some-pass : {A : Type 0} (f : A → R) (o : Option A) → refuse_some f o ≡ pass → o ≡ none
  refuse_some-pass f none h = refl
  refuse_some-pass f (some a) h = absurd (ground (arith, h))

  -- A check that does not panic.
  pub data IsCalm : Checked R → Type 0 where
    passes : IsCalm pass
    refuses : (r : R) → IsCalm (refused r)

  pub >>-IsCalm : (a b : Checked R) → IsCalm a → (a ≡ pass → IsCalm b) → IsCalm (a >> b)
  unfolding ◌>>◌
  >>-IsCalm pass b c d = d refl
  >>-IsCalm (refused r) b c d = refuses r
  >>-IsCalm panicked b c d = elim c [ ]

  pub both-IsCalm : (a b : Checked R) → IsCalm a → IsCalm b → IsCalm (a >> b)
  both-IsCalm a b c d = >>-IsCalm a b c λ _. d

  pub each-IsCalm :
      {A : Type 0} (f : A → Checked R) (xs : List A) → ((x : A) → IsCalm (f x)) → IsCalm (each f xs)
  each-IsCalm f [] h = passes
  each-IsCalm f (x ∷ xs) h = both-IsCalm (f x) (each f xs) (h x) (each-IsCalm f xs h)

  pub each-In-IsCalm :
      {A : Type 0} (f : A → Checked R) (xs : List A)
      → ((x : A) → In x xs → IsCalm (f x))
      → IsCalm (each f xs)
  each-In-IsCalm f [] h = passes
  each-In-IsCalm f (x ∷ xs) h =
      both-IsCalm (f x) (each f xs) (h x (inl refl)) (each-In-IsCalm f xs λ y i. h y (inr i))

  pub refuse_if-IsCalm : (b : Bool) (r : R) → IsCalm (refuse_if b r)
  unfolding refuse_if
  refuse_if-IsCalm true r = refuses r
  refuse_if-IsCalm false r = passes

  pub refuse_some-IsCalm : {A : Type 0} (f : A → R) (o : Option A) → IsCalm (refuse_some f o)
  refuse_some-IsCalm f none = passes
  refuse_some-IsCalm f (some a) = refuses (f a)

module _ {K : Type 0} ⦃o : Ord K⦄ where
  abbrev pub is_in : K → List K → Bool
  is_in k xs = any (λ x. key_eq x k) xs

  -- `dup`: the first item that was seen before.
  abbrev pub dup_from : List K → List K → Option K
  dup_from seen [] = none
  dup_from seen (x ∷ xs) = if is_in x seen then some x else dup_from (x ∷ seen) xs

  abbrev pub dup : List K → Option K
  dup xs = dup_from [] xs

  abbrev pub Distinct : List K → Type 0
  Distinct [] = Unit
  Distinct (x ∷ xs) = (is_in x xs ≡ false) × Distinct xs

  -- No item stands in `seen`, and none twice.
  dup_from-none :
      (seen xs : List K)
      → dup_from seen xs ≡ none
      → ((k : K) → is_in k seen ≡ true → is_in k xs ≡ false) × Distinct xs
  dup_from-none seen [] h = (λ k s. refl, tt)
  dup_from-none seen (x ∷ xs) h =
      let new : is_in x seen ≡ false = ground (arith, h) in
      let (away, rest) = dup_from-none (x ∷ seen) xs (ground (arith, h, new)) in
      (
        λ k s. ground (arith, new, s, away k, key_eq_iff x k),
        (away x (ground (arith, key_eq_refl x)), rest),
      )

  pub dup-none : (xs : List K) → dup xs ≡ none → Distinct xs
  dup-none xs h = (dup_from-none [] xs h).1
