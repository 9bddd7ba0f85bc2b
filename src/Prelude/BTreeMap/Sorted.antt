-- ===== src/Prelude/BTreeMap/Sorted.antt =====
-- A map whose keys ascend, and sums over its values.
use Prim.Native.Nat.{ℕ, ◌+◌, Ordering}
use mathlib.Core.Path.{◌≡◌, refl}
use mathlib.Core.Option.{Option, none, some}
use mathlib.Core.List.{List, [], ◌∷◌}
use native.Mathlib.Omega.{arith}
use mathlib.Core.Logic.{inl, inr}
use cfab.Prelude.Lists.{All, In}
use cfab.Prelude.BTreeMap.{Ord, get, insert}

-- What a value that may be missing is worth.
abbrev pub worth : {V : Type 0} → (V → ℕ) → Option V → ℕ
worth f none = 0
worth f (some v) = f v

module _ {K V : Type 0} ⦃o : Ord K⦄ where
  -- Every key comes after `k`.
  abbrev pub Above : K → List (K × V) → Type 0
  Above k m = All (λ e. o.cmp k e.0 ≡ Ordering.lt) m

  abbrev pub IsSorted : List (K × V) → Type 0
  IsSorted [] = Unit
  IsSorted ((k, v) ∷ m) = Above k m × IsSorted m

  Above-trans : (j k : K) (m : List (K × V)) → o.cmp j k ≡ Ordering.lt → Above k m → Above j m
  Above-trans j k [] h a = tt
  Above-trans j k ((i, v) ∷ m) h a = (o.cmp_trans j k i h a.0, Above-trans j k m h a.1)

  Above-insert :
      (j k : K) (v : V) (m : List (K × V))
      → o.cmp j k ≡ Ordering.lt
      → Above j m
      → Above j (insert k v m)
  Above-insert j k v [] h a = (h, tt)
  Above-insert j k v ((i, w) ∷ m) h a = ground (arith, h, a.0, a.1, Above-insert j k v m h a.1)

  pub insert-IsSorted : (k : K) (v : V) (m : List (K × V)) → IsSorted m → IsSorted (insert k v m)
  insert-IsSorted k v [] s = (tt, tt)
  insert-IsSorted k v ((j, w) ∷ m) s = ground (
    arith,
    o.cmp_iff k j,
    o.cmp_flip k j,
    Above-trans k j m,
    Above-insert j k v m,
    insert-IsSorted k v m s.1,
    s.0,
  )

  Above-get : (k : K) (m : List (K × V)) → Above k m → get k m ≡ none
  Above-get k [] a = refl
  Above-get k ((j, v) ∷ m) a = ground (arith, o.cmp_iff j k, o.cmp_iff k k, Above-get k m a.1, a.0)

  -- An entry is what its key is looked up as.
  pub get-In : (m : List (K × V)) (x : K × V) → IsSorted m → In x m → get x.0 m ≡ some x.1
  get-In [] x s i = absurd i
  get-In ((j, v) ∷ m) x s (inl e) = ground (arith, o.cmp_iff j x.0, e)
  get-In ((j, v) ∷ m) x s (inr i) =
      ground (arith, o.cmp_iff j x.0, Above-get j m s.0, get-In m x s.1 i)

  -- The sum of what the values are worth.
  abbrev pub total : (V → ℕ) → List (K × V) → ℕ
  total f [] = 0
  total f ((k, v) ∷ m) = f v + total f m

  pub total-insert :
      (f : V → ℕ) (k : K) (v : V) (m : List (K × V))
      → IsSorted m
      → total f (insert k v m) + worth f (get k m) ≡ total f m + f v
  total-insert f k v [] s = omega arith
  total-insert f k v ((j, w) ∷ m) s = ground (
    arith,
    o.cmp_iff k j,
    o.cmp_iff j k,
    Above-get k m,
    Above-trans k j m,
    total-insert f k v m s.1,
    s.0,
  )
