-- ===== src/Prelude/Sorting.antt =====
-- `Vec::sort` in a total order, and `Vec::dedup_by` on the first part of sorted pairs.
use Prim.Native.Nat.{Ordering}
use mathlib.Core.Path.{◌≡◌, refl, sym, subst}
use mathlib.Core.Logic.{◌↔◌, inl, inr}
use mathlib.Core.Bool.{Bool, true, false}
use mathlib.Core.List.{List, [], ◌∷◌}
use native.Mathlib.Omega.{arith}
use cfab.Prelude.Tests.{if◌then◌else◌, Bool-cases}
use cfab.Prelude.Lists.{All, In}
use cfab.Prelude.BTreeMap.{Ord, key_eq, key_eq_iff, pair_ord}

abbrev pub bool_cmp : Bool → Bool → Ordering
bool_cmp false false = Ordering.eq
bool_cmp false true = Ordering.lt
bool_cmp true false = Ordering.gt
bool_cmp true true = Ordering.eq

pub bool_cmp_iff : (a b : Bool) → (bool_cmp a b ≡ Ordering.eq) ↔ (a ≡ b)
bool_cmp_iff a b = ground arith

pub bool_cmp_flip : (a b : Bool) → bool_cmp a b ≡ Ordering.gt → bool_cmp b a ≡ Ordering.lt
bool_cmp_flip a b h = ground arith

pub bool_cmp_trans :
    (a b c : Bool)
    → bool_cmp a b ≡ Ordering.lt
    → bool_cmp b c ≡ Ordering.lt
    → bool_cmp a c ≡ Ordering.lt
bool_cmp_trans a b c h k = ground arith

-- `false` comes first.
instance abbrev pub bool_ord : Ord Bool
bool_ord = record {
  cmp = bool_cmp;
  cmp_iff = bool_cmp_iff;
  cmp_flip = bool_cmp_flip;
  cmp_trans = bool_cmp_trans;
}

abbrev is_gt : Ordering → Bool
is_gt Ordering.gt = true
is_gt _ = false

module _ {A : Type 0} ⦃o : Ord A⦄ where
  abbrev pub is_after : A → A → Bool
  is_after x y = is_gt (o.cmp x y)

  abbrev pub insert_sorted : A → List A → List A
  insert_sorted x [] = x ∷ []
  insert_sorted x (y ∷ ys) = if is_after x y then y ∷ insert_sorted x ys else x ∷ y ∷ ys

  abbrev pub sort : List A → List A
  sort [] = []
  sort (x ∷ xs) = insert_sorted x (sort xs)

  abbrev pub AtMost : A → A → Type 0
  AtMost x y = is_after x y ≡ false

  abbrev pub Ascends : List A → Type 0
  Ascends [] = Unit
  Ascends (x ∷ xs) = All (AtMost x) xs × Ascends xs

  AtMost-trans : (x y z : A) → AtMost x y → AtMost y z → AtMost x z
  AtMost-trans x y z h k =
      ground (arith, h, k, o.cmp_iff x y, o.cmp_iff y z, o.cmp_trans x y z, o.cmp_iff x z)

  All-trans : (x y : A) (zs : List A) → AtMost x y → All (AtMost y) zs → All (AtMost x) zs
  All-trans x y [] h a = tt
  All-trans x y (z ∷ zs) h a = (AtMost-trans x y z h a.0, All-trans x y zs h a.1)

  All-insert :
      (x y : A) (zs : List A) → AtMost y x → All (AtMost y) zs → All (AtMost y) (insert_sorted x zs)
  All-insert x y [] h a = (h, tt)
  All-insert x y (z ∷ zs) h a = ground (arith, h, a.0, a.1, All-insert x y zs h a.1)

  insert_sorted-Ascends : (x : A) (xs : List A) → Ascends xs → Ascends (insert_sorted x xs)
  insert_sorted-Ascends x [] s = (tt, tt)
  insert_sorted-Ascends x (y ∷ ys) s = elim (Bool-cases (is_after x y)) [
    | inl e ↦
        let back : AtMost y x = ground (arith, e, o.cmp_flip x y) in
        rw e (All-insert x y ys back s.0, insert_sorted-Ascends x ys s.1)
    | inr e ↦ rw e ((e, All-trans x y ys e s.0), s)
  ]

  pub sort-Ascends : (xs : List A) → Ascends (sort xs)
  sort-Ascends [] = tt
  sort-Ascends (x ∷ xs) = insert_sorted-Ascends x (sort xs) (sort-Ascends xs)

  pub In-insert_sorted : (z x : A) (xs : List A) → In z (x ∷ xs) → In z (insert_sorted x xs)
  In-insert_sorted z x [] i = i
  In-insert_sorted z x (y ∷ ys) i = elim (Bool-cases (is_after x y)) [
    | inl e ↦ rw e (elim i [
      | inl k ↦ inr (In-insert_sorted z x ys (inl k))
      | inr (inl k) ↦ inl k
      | inr (inr k) ↦ inr (In-insert_sorted z x ys (inr k))
    ])
    | inr e ↦ rw e i
  ]

  pub In-sort : (z : A) (xs : List A) → In z xs → In z (sort xs)
  In-sort z [] i = absurd i
  In-sort z (x ∷ xs) (inl e) = In-insert_sorted z x (sort xs) (inl e)
  In-sort z (x ∷ xs) (inr i) = In-insert_sorted z x (sort xs) (inr (In-sort z xs i))

  module _ (P : A → Type 0) where
    insert_sorted-All : (x : A) (xs : List A) → P x → All P xs → All P (insert_sorted x xs)
    insert_sorted-All x [] p a = (p, tt)
    insert_sorted-All x (y ∷ ys) p a = ground (arith, p, a.0, a.1, insert_sorted-All x ys p a.1)

    pub sort-All : (xs : List A) → All P xs → All P (sort xs)
    sort-All [] a = tt
    sort-All (x ∷ xs) a = insert_sorted-All x (sort xs) a.0 (sort-All xs a.1)

module _ {K V : Type 0} ⦃k : Ord K⦄ ⦃v : Ord V⦄ where
  -- The rest of a list behind `p`, without those that follow one with their key.
  abbrev pub dedup_from : K × V → List (K × V) → List (K × V)
  dedup_from p [] = []
  dedup_from p (q ∷ qs) =
      let here = dedup_from p qs in
      let there = dedup_from q qs in if key_eq q.0 p.0 then here else q ∷ there

  abbrev pub dedup : List (K × V) → List (K × V)
  dedup [] = []
  dedup (q ∷ qs) = q ∷ dedup_from q qs

  -- The keys of `qs` come after `p`'s.
  abbrev pub Later : K × V → List (K × V) → Type 0
  Later p qs = All (λ (q : K × V). k.cmp p.0 q.0 ≡ Ordering.lt) qs

  Later-trans :
      (p q : K × V) (rs : List (K × V)) → k.cmp p.0 q.0 ≡ Ordering.lt → Later q rs → Later p rs
  Later-trans p q [] h a = tt
  Later-trans p q (r ∷ rs) h a = (k.cmp_trans p.0 q.0 r.0 h a.0, Later-trans p q rs h a.1)

  next_later : (p q : K × V) → AtMost p q → key_eq q.0 p.0 ≡ false → k.cmp p.0 q.0 ≡ Ordering.lt
  next_later (a, x) (b, y) h e = ground (arith, h, e, k.cmp_iff a b, k.cmp_iff b a)

  abbrev pub Rises : List (K × V) → Type 0
  Rises [] = Unit
  Rises (q ∷ qs) = Later q qs × Rises qs

  dedup_from-Later :
      (p : K × V) (qs : List (K × V)) → All (AtMost p) qs → Ascends qs → Later p (dedup_from p qs)
  dedup_from-Later p [] a s = tt
  dedup_from-Later p (q ∷ qs) a s = elim (Bool-cases (key_eq q.0 p.0)) [
    | inl e ↦ rw e (dedup_from-Later p qs a.1 s.1)
    | inr e ↦
        let lt = next_later p q a.0 e in
        rw e (lt, Later-trans p q (dedup_from q qs) lt (dedup_from-Later q qs s.0 s.1))
  ]

  dedup_from-Rises :
      (p : K × V) (qs : List (K × V)) → All (AtMost p) qs → Ascends qs → Rises (dedup_from p qs)
  dedup_from-Rises p [] a s = tt
  dedup_from-Rises p (q ∷ qs) a s = elim (Bool-cases (key_eq q.0 p.0)) [
    | inl e ↦ rw e (dedup_from-Rises p qs a.1 s.1)
    | inr e ↦ rw e (dedup_from-Later q qs s.0 s.1, dedup_from-Rises q qs s.0 s.1)
  ]

  pub dedup-Rises : (qs : List (K × V)) → Ascends qs → Rises (dedup qs)
  dedup-Rises [] s = tt
  dedup-Rises (q ∷ qs) s = (dedup_from-Later q qs s.0 s.1, dedup_from-Rises q qs s.0 s.1)

  module _ (P : K × V → Type 0) where
    dedup_from-All : (p : K × V) (qs : List (K × V)) → All P qs → All P (dedup_from p qs)
    dedup_from-All p [] a = tt
    dedup_from-All p (q ∷ qs) a =
        ground (arith, a.0, a.1, dedup_from-All p qs a.1, dedup_from-All q qs a.1)

    pub dedup-All : (qs : List (K × V)) → All P qs → All P (dedup qs)
    dedup-All [] a = tt
    dedup-All (q ∷ qs) a = (a.0, dedup_from-All q qs a.1)

  -- One that stands for `q`: it has its key, and is the least that does.
  abbrev pub Kept : K × V → List (K × V) → Type 0
  Kept q rs = (r : K × V) × In r rs × (r.0 ≡ q.0) × AtMost r q

  self-Kept : (q : K × V) (rs : List (K × V)) → Kept q (q ∷ rs)
  self-Kept (a, x) rs = ((a, x), inl refl, refl, ground (arith, k.cmp_iff a a, v.cmp_iff x x))

  further : (q p : K × V) (rs : List (K × V)) → Kept q rs → Kept q (p ∷ rs)
  further q p rs (r, i, e, h) = (r, inr i, e, h)

  dedup_from-Kept :
      (p q : K × V) (qs : List (K × V))
      → All (AtMost p) qs
      → Ascends qs
      → In q qs
      → Kept q (p ∷ dedup_from p qs)
  dedup_from-Kept p q [] a s i = absurd i
  dedup_from-Kept p q (r ∷ qs) a s i = elim (Bool-cases (key_eq r.0 p.0)) [
    | inl e ↦ rw e (elim i [
      | inl same ↦
          subst (λ (x : K × V). Kept x (p ∷ dedup_from p qs)) same
            (p, inl refl, sym ((key_eq_iff r.0 p.0).0 e), a.0)
      | inr j ↦ dedup_from-Kept p q qs a.1 s.1 j
    ])
    | inr e ↦ rw e (
        further q p (r ∷ dedup_from r qs) (elim i [
          | inl same ↦ subst (λ (x : K × V). Kept x (r ∷ dedup_from r qs)) same (self-Kept r _)
          | inr j ↦ dedup_from-Kept r q qs s.0 s.1 j
        ]))
  ]

  pub dedup-Kept : (q : K × V) (qs : List (K × V)) → Ascends qs → In q qs → Kept q (dedup qs)
  dedup-Kept q [] s i = absurd i
  dedup-Kept q (p ∷ qs) s (inl e) =
      subst (λ (x : K × V). Kept x (p ∷ dedup_from p qs)) e (self-Kept p _)
  dedup-Kept q (p ∷ qs) s (inr i) = dedup_from-Kept p q qs s.0 s.1 i
