-- ===== src/Prelude/BTreeMap.antt =====
-- An ordered map, as Rust's `BTreeMap`: an association list that insertion keeps in key order.
pub mod Sorted
use Prim.Native.Nat.{ℕ, ◌+◌, ◌≤◌, compare, Ordering}
use Prim.Native.Char.{code}
use Prim.Native.String.{String, then as and_then, compare as compare_str}
use Prim.Native.String.compare as compare_str
use text.Mathlib.TextEquality.{path_by_compare}
use text.Mathlib.TextPositions.{compare_refl}
use mathlib.Core.Path.{◌≡◌, refl, sym, subst, ◌∙◌}
use mathlib.Core.Logic.{◌↔◌, inl, inr}
use mathlib.Core.Bool.{Bool, true, false}
use mathlib.Core.Option.{Option, none, some}
use mathlib.Core.Option
use mathlib.Core.List.{List, [], ◌∷◌}
use native.Mathlib.Omega.{arith}
use cfab.Prelude.Tests.{if◌then◌else◌, Bool-cases}
use cfab.Prelude.Lists.{length, filter, All}

-- The order of the keys, `Ord` of the source.
pub record Ord (A : Type 0) : Type 0 where
  pub cmp : A → A → Ordering
  pub cmp_iff : (a b : A) → (cmp a b ≡ Ordering.eq) ↔ (a ≡ b)
  pub cmp_flip : (a b : A) → cmp a b ≡ Ordering.gt → cmp b a ≡ Ordering.lt
  pub cmp_trans :
      (a b c : A) → cmp a b ≡ Ordering.lt → cmp b c ≡ Ordering.lt → cmp a c ≡ Ordering.lt

abbrev pub is_eq : Ordering → Bool
is_eq Ordering.eq = true
is_eq _ = false

pub compare_iff : (a b : ℕ) → (compare a b ≡ Ordering.eq) ↔ (a ≡ b)
compare_iff a b = ground arith

pub compare_str_iff : (a b : String) → (compare_str a b ≡ Ordering.eq) ↔ (a ≡ b)
compare_str_iff a b = (
  path_by_compare a b,
  λ e. subst (λ (s : String). compare_str a s ≡ Ordering.eq) e (compare_refl a),
)

pub compare_flip : (a b : ℕ) → compare a b ≡ Ordering.gt → compare b a ≡ Ordering.lt
compare_flip a b h = ground arith

then_flip :
    (a b : ℕ) (s t : Ordering)
    → (s ≡ Ordering.gt → t ≡ Ordering.lt)
    → and_then (compare a b) s ≡ Ordering.gt
    → and_then (compare b a) t ≡ Ordering.lt
then_flip a b s t f h = ground arith

pub compare_str_flip :
    (a b : String) → compare_str a b ≡ Ordering.gt → compare_str b a ≡ Ordering.lt
compare_str_flip String.[] String.[] h = cc (compare_str.nil-nil)
compare_str_flip String.[] (String.◌∷◌ d t) h = cc (compare_str.nil-cons d t)
compare_str_flip (String.◌∷◌ c s) String.[] h = compare_str.nil-cons c s
compare_str_flip (String.◌∷◌ c s) (String.◌∷◌ d t) h =
    compare_str.cons-cons d c t s
    ∙ then_flip (code c) (code d) _ _ (compare_str_flip s t)
        (sym (compare_str.cons-cons c d s t) ∙ h)

pub compare_trans :
    (a b c : ℕ) → compare a b ≡ Ordering.lt → compare b c ≡ Ordering.lt → compare a c ≡ Ordering.lt
compare_trans a b c h k = ground arith

then_trans :
    (a b c : ℕ) (s t u : Ordering)
    → (s ≡ Ordering.lt → t ≡ Ordering.lt → u ≡ Ordering.lt)
    → and_then (compare a b) s ≡ Ordering.lt
    → and_then (compare b c) t ≡ Ordering.lt
    → and_then (compare a c) u ≡ Ordering.lt
then_trans a b c s t u f h k = ground arith

pub compare_str_trans :
    (a b c : String)
    → compare_str a b ≡ Ordering.lt
    → compare_str b c ≡ Ordering.lt
    → compare_str a c ≡ Ordering.lt
compare_str_trans String.[] String.[] c h k = absurd (ground (arith, sym compare_str.nil-nil ∙ h))
compare_str_trans String.[] (String.◌∷◌ d t) String.[] h k =
    absurd (ground (arith, sym (compare_str.cons-nil d t) ∙ k))
compare_str_trans String.[] (String.◌∷◌ d t) (String.◌∷◌ e u) h k = compare_str.nil-cons e u
compare_str_trans (String.◌∷◌ a s) String.[] c h k =
    absurd (ground (arith, sym (compare_str.cons-nil a s) ∙ h))
compare_str_trans (String.◌∷◌ a s) (String.◌∷◌ d t) String.[] h k =
    absurd (ground (arith, sym (compare_str.cons-nil d t) ∙ k))
compare_str_trans (String.◌∷◌ a s) (String.◌∷◌ d t) (String.◌∷◌ e u) h k =
    compare_str.cons-cons a e s u
    ∙ then_trans (code a) (code d) (code e) _ _ _ (compare_str_trans s t u)
        (sym (compare_str.cons-cons a d s t) ∙ h) (sym (compare_str.cons-cons d e t u) ∙ k)

instance abbrev pub nat_ord : Ord ℕ
nat_ord = record {
  cmp = compare;
  cmp_iff = compare_iff;
  cmp_flip = compare_flip;
  cmp_trans = compare_trans;
}

instance abbrev pub string_ord : Ord String
string_ord = record {
  cmp = compare_str;
  cmp_iff = compare_str_iff;
  cmp_flip = compare_str_flip;
  cmp_trans = compare_str_trans;
}

-- Pairs go by their first part, then by their second.
abbrev pub lex : Ordering → Ordering → Ordering
lex Ordering.eq o = o
lex Ordering.lt o = Ordering.lt
lex Ordering.gt o = Ordering.gt

module _ {A B : Type 0} ⦃a : Ord A⦄ ⦃b : Ord B⦄ where
  abbrev pub cmp_pair : A × B → A × B → Ordering
  cmp_pair (x, y) (u, v) = lex (a.cmp x u) (b.cmp y v)

  pub cmp_pair_iff : (p q : A × B) → (cmp_pair p q ≡ Ordering.eq) ↔ (p ≡ q)
  cmp_pair_iff (x, y) (u, v) = ground (arith, a.cmp_iff x u, b.cmp_iff y v)

  pub cmp_pair_flip : (p q : A × B) → cmp_pair p q ≡ Ordering.gt → cmp_pair q p ≡ Ordering.lt
  cmp_pair_flip (x, y) (u, v) h =
      ground (arith, a.cmp_iff x u, a.cmp_iff u x, a.cmp_flip x u, b.cmp_flip y v)

  pub cmp_pair_trans :
      (p q r : A × B)
      → cmp_pair p q ≡ Ordering.lt
      → cmp_pair q r ≡ Ordering.lt
      → cmp_pair p r ≡ Ordering.lt
  cmp_pair_trans (x, y) (u, v) (w, z) h k =
      ground
        (arith, a.cmp_iff x u, a.cmp_iff u w, a.cmp_iff x w, a.cmp_trans x u w, b.cmp_trans y v z)

  instance abbrev pub pair_ord : Ord (A × B)
  pair_ord = record {
    cmp = cmp_pair;
    cmp_iff = cmp_pair_iff;
    cmp_flip = cmp_pair_flip;
    cmp_trans = cmp_pair_trans;
  }

module _ {K : Type 0} ⦃o : Ord K⦄ where
  abbrev pub key_eq : K → K → Bool
  key_eq a b = is_eq (o.cmp a b)

  pub key_eq_iff : (a b : K) → (key_eq a b ≡ true) ↔ (a ≡ b)
  key_eq_iff a b = ground (arith, o.cmp_iff a b)

  pub key_eq_refl : (a : K) → key_eq a a ≡ true
  key_eq_refl a = (key_eq_iff a a).1 refl

module _ {K V : Type 0} ⦃o : Ord K⦄ where
  -- `get`.
  abbrev pub get : K → List (K × V) → Option V
  get k [] = none
  get k ((j, v) ∷ m) = if key_eq j k then some v else get k m

  -- `insert`: a key that is there keeps its place and has its value replaced.
  abbrev pub insert : K → V → List (K × V) → List (K × V)
  insert k v [] = (k, v) ∷ []
  insert k v ((j, w) ∷ m) =
      let rest = insert k v m in
      elim (o.cmp k j) [
        | Ordering.lt ↦ (k, v) ∷ (j, w) ∷ m
        | Ordering.eq ↦ (k, v) ∷ m
        | Ordering.gt ↦ (j, w) ∷ rest
      ]

  abbrev pub remove : K → List (K × V) → List (K × V)
  remove k [] = []
  remove k ((j, w) ∷ m) = if key_eq j k then remove k m else (j, w) ∷ remove k m

  -- An assignment through `get_mut`, which changes nothing where the key is missing.
  abbrev pub update : K → V → List (K × V) → List (K × V)
  update k v [] = []
  update k v ((j, w) ∷ m) = if key_eq j k then (j, v) ∷ m else (j, w) ∷ update k v m

  -- No key stands twice.
  abbrev pub IsMap : List (K × V) → Type 0
  IsMap [] = Unit
  IsMap ((k, v) ∷ m) = (get k m ≡ none) × IsMap m

  pub get-insert :
      (k j : K) (v : V) (m : List (K × V))
      → get j (insert k v m) ≡ (if key_eq k j then some v else get j m)
  get-insert k j v [] = refl
  get-insert k j v ((i, w) ∷ m) =
      ground (arith, o.cmp_iff k i, o.cmp_iff i j, o.cmp_iff k j, get-insert k j v m)

  pub get-remove :
      (k j : K) (m : List (K × V)) → get j (remove k m) ≡ (if key_eq k j then none else get j m)
  get-remove k j [] = ground arith
  get-remove k j ((i, w) ∷ m) =
      ground (arith, o.cmp_iff i k, o.cmp_iff i j, o.cmp_iff k j, get-remove k j m)

  pub insert-IsMap :
      (k : K) (v : V) (m : List (K × V)) → IsMap m → get k m ≡ none → IsMap (insert k v m)
  insert-IsMap k v [] h f = (refl, tt)
  insert-IsMap k v ((j, w) ∷ m) h f =
      ground (arith, o.cmp_iff k j, o.cmp_iff j k, get-insert k j v m, insert-IsMap k v m h.1)

  pub get-update :
      (k j : K) (v : V) (m : List (K × V))
      → get j (update k v m) ≡ (if key_eq k j then Option.map (λ _. v) (get j m) else get j m)
  get-update k j v [] = ground arith
  get-update k j v ((i, w) ∷ m) =
      ground (arith, o.cmp_iff i k, o.cmp_iff i j, o.cmp_iff k j, get-update k j v m)

  pub update-IsMap : (k : K) (v : V) (m : List (K × V)) → IsMap m → IsMap (update k v m)
  update-IsMap k v [] h = tt
  update-IsMap k v ((j, w) ∷ m) h =
      ground (arith, o.cmp_iff j k, get-update k j v m, update-IsMap k v m h.1)

  pub remove-IsMap : (k : K) (m : List (K × V)) → IsMap m → IsMap (remove k m)
  remove-IsMap k [] h = tt
  remove-IsMap k ((j, w) ∷ m) h = ground (arith, get-remove k j m, remove-IsMap k m h.1)

  -- What a filter keeps of one key's value.
  abbrev pub kept : (K × V → Bool) → K → Option V → Option V
  kept p k none = none
  kept p k (some v) = if p (k, v) then some v else none

  pub get-filter :
      (p : K × V → Bool) (k : K) (m : List (K × V))
      → IsMap m
      → get k (filter p m) ≡ kept p k (get k m)
  get-filter p k [] h = refl
  get-filter p k ((j, w) ∷ m) h = elim (Bool-cases (key_eq j k)) [
    | inl e ↦ let same : j ≡ k = (key_eq_iff j k).0 e in ground (arith, get-filter p k m h.1)
    | inr e ↦ ground (arith, get-filter p k m h.1)
  ]

  pub filter-IsMap : (p : K × V → Bool) (m : List (K × V)) → IsMap m → IsMap (filter p m)
  filter-IsMap p [] h = tt
  filter-IsMap p ((j, w) ∷ m) h = ground (arith, get-filter p j m h.1, filter-IsMap p m h.1)

  -- How many keys pass a test.
  abbrev pub count : (K → Bool) → List (K × V) → ℕ
  count p m = length (filter (λ e. p e.0) m)

  pub count-insert :
      (p : K → Bool) (k : K) (v : V) (m : List (K × V))
      → get k m ≡ none
      → count p (insert k v m) ≡ count p m + (if p k then 1 else 0)
  count-insert p k v [] f = ground arith
  count-insert p k v ((j, w) ∷ m) f =
      ground (arith, o.cmp_iff k j, o.cmp_iff j k, count-insert p k v m)

  pub count-update :
      (p : K → Bool) (k : K) (v : V) (m : List (K × V)) → count p (update k v m) ≡ count p m
  count-update p k v [] = refl
  count-update p k v ((j, w) ∷ m) = ground (arith, count-update p k v m)

  pub count-remove-le : (p : K → Bool) (k : K) (m : List (K × V)) → count p (remove k m) ≤ count p m
  count-remove-le p k [] = omega arith
  count-remove-le p k ((j, w) ∷ m) = ground (arith, count-remove-le p k m)

  pub count-filter-le :
      (p : K → Bool) (q : K × V → Bool) (m : List (K × V)) → count p (filter q m) ≤ count p m
  count-filter-le p q [] = omega arith
  count-filter-le p q ((j, w) ∷ m) = ground (arith, count-filter-le p q m)

  -- What holds of all keys goes on holding.
  module _ (P : K → Type 0) where
    pub AllKeys-insert :
        (k : K) (v : V) (m : List (K × V))
        → P k
        → All (λ e. P e.0) m
        → All (λ e. P e.0) (insert k v m)
    AllKeys-insert k v [] p a = (p, tt)
    AllKeys-insert k v ((j, w) ∷ m) p a = ground (arith, AllKeys-insert k v m p a.1)

    pub AllKeys-update :
        (k : K) (v : V) (m : List (K × V)) → All (λ e. P e.0) m → All (λ e. P e.0) (update k v m)
    AllKeys-update k v [] a = tt
    AllKeys-update k v ((j, w) ∷ m) a = ground (arith, AllKeys-update k v m a.1)

    pub AllKeys-remove :
        (k : K) (m : List (K × V)) → All (λ e. P e.0) m → All (λ e. P e.0) (remove k m)
    AllKeys-remove k [] a = tt
    AllKeys-remove k ((j, w) ∷ m) a = ground (arith, AllKeys-remove k m a.1)

    pub AllKeys-filter :
        (p : K × V → Bool) (m : List (K × V)) → All (λ e. P e.0) m → All (λ e. P e.0) (filter p m)
    AllKeys-filter p [] a = tt
    AllKeys-filter p ((j, w) ∷ m) a = ground (arith, AllKeys-filter p m a.1)
