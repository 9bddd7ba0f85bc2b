-- ===== src/Workload/Actor/Publish/Filled.antt =====
-- What the loops of `publish` do to a row: each name is there, and is changed once by each map
-- (src/workload/actor.rs).
use Prim.Native.String.{String}
use mathlib.Core.Option
use cfab.Prelude.{
  ◌≡◌, refl, inl, inr, Bool, true, List, [], ◌∷◌, Option, none, some, arith, any, All, All-mono,
  ◌∙◌, subst, Bool-cases, Option-cases, if◌then◌else◌,
}
use cfab.Prelude.BTreeMap.{
  string_ord, key_eq, key_eq_iff, get, update, IsMap, get-insert, insert-IsMap, get-update,
  update-IsMap,
}
use cfab.Model.{is_some}
use cfab.Workload.Report.{NeighborRowInfo}
use cfab.Workload.Actor.Publish.{unfilled, or_insert, name_all, fill, names}

abbrev pub Rows : Type 0
Rows = List (String × NeighborRowInfo)

-- What is looked up once `names` are there.
abbrev pub or_named : String → Bool → Option NeighborRowInfo → Option NeighborRowInfo
or_named name there none = if there then some (unfilled name) else none
or_named name there (some r) = some r

abbrev pub is_listed : String → List String → Bool
is_listed name ns = any (λ n. key_eq n name) ns

get-or_insert :
    (name n : String) (m : Rows)
    → get name (or_insert n (get n m) m) ≡ or_named name (key_eq n name) (get name m)
get-or_insert name n m = elim (Option-cases (get n m)) [
  | inl e ↦ elim (Bool-cases (key_eq n name)) [
    | inl k ↦
        let same : n ≡ name = (key_eq_iff n name).0 k in
        ground (arith, e, k, same, get-insert n name (unfilled n) m)
    | inr k ↦ ground (arith, e, k, get-insert n name (unfilled n) m)
  ]
  | inr (r, e) ↦ elim (Bool-cases (key_eq n name)) [
    | inl k ↦ let same : n ≡ name = (key_eq_iff n name).0 k in ground (arith, e, k, same)
    | inr k ↦ ground (arith, e, k)
  ]
]

pub get-name_all :
    (name : String) (ns : List String) (m : Rows)
    → get name (name_all ns m) ≡ or_named name (is_listed name ns) (get name m)
get-name_all name [] m = ground arith
get-name_all name (n ∷ ns) m =
    ground (arith, get-name_all name ns (or_insert n (get n m) m), get-or_insert name n m)

or_insert-IsMap : (n : String) (m : Rows) → IsMap m → IsMap (or_insert n (get n m) m)
or_insert-IsMap n m h = elim (Option-cases (get n m)) [
  | inl e ↦ rw e (insert-IsMap n (unfilled n) m h e)
  | inr (r, e) ↦ rw e h
]

pub name_all-IsMap : (ns : List String) (m : Rows) → IsMap m → IsMap (name_all ns m)
name_all-IsMap [] m h = h
name_all-IsMap (n ∷ ns) m h = name_all-IsMap ns (or_insert n (get n m) m) (or_insert-IsMap n m h)

pub updated :
    (name n : String) (v : NeighborRowInfo) (m : Rows)
    → is_some (get name m) ≡ true
    → is_some (get name (update n v m)) ≡ true
updated name n v m t = ground (arith, t, get-update n name v m)

module _ {A : Type 0} where
  -- The value changed by what the other map has.
  abbrev pub changed :
      (A → NeighborRowInfo → NeighborRowInfo)
      → Option A
      → Option NeighborRowInfo
      → Option NeighborRowInfo
  changed f none r = r
  changed f (some a) r = Option.map (f a) r

  -- One round, as the map's first entry says.
  first :
      (f : A → NeighborRowInfo → NeighborRowInfo) (n name : String) (a : A) (r : NeighborRowInfo)
      (xs : List (String × A)) (m : Rows)
      → get n xs ≡ none
      → get n m ≡ some r
      → changed f (get name xs) (get name (update n (f a r) m))
        ≡ changed f (get name ((n, a) ∷ xs)) (get name m)
  first f n name a r xs m alone e = elim (Bool-cases (key_eq n name)) [
    | inl k ↦
        let same : n ≡ name = (key_eq_iff n name).0 k in
        let alone' : get name xs ≡ none = subst (λ x. get x xs ≡ none) same alone in
        let e' : get name m ≡ some r = subst (λ x. get x m ≡ some r) same e in
        ground (arith, k, alone', e', get-update n name (f a r) m)
    | inr k ↦ ground (arith, k, get-update n name (f a r) m)
  ]

  -- The loop ends, and each row is changed by what the map has for it.
  pub fill-changed :
      (f : A → NeighborRowInfo → NeighborRowInfo) (xs : List (String × A)) (m : Rows)
      → All (λ (x : String × A). is_some (get x.0 m) ≡ true) xs
      → IsMap xs
      → IsMap m
      → (after : Rows) × (fill f xs m ≡ some after)
        × IsMap after
        × ((name : String) → get name after ≡ changed f (get name xs) (get name m))
  fill-changed f [] m there d h = (m, refl, h, λ name. refl)
  fill-changed f ((n, a) ∷ xs) m there d h = elim (Option-cases (get n m)) [
    | inl e ↦ absurd (ground (arith, there.0, e))
    | inr (r, e) ↦
        let m' = update n (f a r) m in
        let still =
          All-mono _ _ xs
            (λ (x : String × A) (t : is_some (get x.0 m) ≡ true). updated x.0 n (f a r) m t)
            there.1 in
        let (after, made, kept, looked) =
          fill-changed f xs m' still d.1 (update-IsMap n (f a r) m h) in
        (after, rw e made, kept, λ name. looked name ∙ first f n name a r xs m d.0 e)
  ]

  pub listed-names :
      (name : String) (xs : List (String × A)) → is_listed name (names xs) ≡ is_some (get name xs)
  listed-names name [] = refl
  listed-names name ((n, a) ∷ xs) = ground (arith, listed-names name xs)
