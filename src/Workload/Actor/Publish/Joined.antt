-- ===== src/Workload/Actor/Publish/Joined.antt =====
-- What the flush actor publishes: the maps' rows, joined by name (src/workload/actor.rs).
use Prim.Native.String.{String}
use mathlib.Core.Option
use cfab.Prelude.{
  ℕ, ◌≡◌, refl, ap, Bool, true, ◌||◌, List, [], ◌∷◌, ◌++◌, Option, none, some, arith, any-append,
  All, All-mono, ◌∙◌, if◌then◌else◌,
}
use cfab.Prelude.BTreeMap.{string_ord, key_eq, key_eq_refl, get, IsMap}
use cfab.Model.{is_some}
use cfab.Workload.Report.{NeighborRowInfo}
use cfab.Workload.Actor.{RowCounts, no_row_counts}
use cfab.Workload.Actor.Publish.{name_all, with_size, with_refusals, with_counts, names, joined}
use cfab.Workload.Actor.Publish.Filled.{
  Rows, or_named, get-name_all, name_all-IsMap, changed, fill-changed, listed-names,
}

-- A row of the three maps, by its name.
abbrev pub joined_row : String → Option ℕ → Option ℕ → Option RowCounts → Option NeighborRowInfo
joined_row name size refusals counts =
    let c = Option.get_or counts no_row_counts in
    if (is_some size || is_some refusals) || is_some counts
    then some (record {
      name = name;
      table_size = Option.get_or size 0;
      writes = c.writes;
      write_failures = c.write_failures;
      read_failures = 0;
      cap_refusals = Option.get_or refusals 0;
      expiries = c.expiries;
      skips = c.skips;
    })
    else none

changed_all :
    (name : String) (size refusals : Option ℕ) (counts : Option RowCounts)
    → changed with_counts counts (
        changed with_refusals refusals (
          changed with_size size
            (or_named name ((is_some size || is_some refusals) || is_some counts) none)))
      ≡ joined_row name size refusals counts
changed_all name none none none = refl
changed_all name none none (some c) = refl
changed_all name none (some r) none = refl
changed_all name none (some r) (some c) = refl
changed_all name (some s) none none = refl
changed_all name (some s) none (some c) = refl
changed_all name (some s) (some r) none = refl
changed_all name (some s) (some r) (some c) = refl

changed-is_some :
    {A : Type 0} (f : A → NeighborRowInfo → NeighborRowInfo) (o : Option A)
    (r : Option NeighborRowInfo)
    → is_some (changed f o r) ≡ is_some r
changed-is_some f none r = refl
changed-is_some f (some a) none = refl
changed-is_some f (some a) (some r) = refl

module _ {A : Type 0} where
  own_keys : (xs : List (String × A)) → All (λ (x : String × A). is_some (get x.0 xs) ≡ true) xs
  own_keys [] = tt
  own_keys ((n, a) ∷ xs) = (
    ground (arith, key_eq_refl n),
    All-mono _ _ xs (λ (x : String × A) (t : is_some (get x.0 xs) ≡ true). ground (arith, t))
        (own_keys xs),
  )

  -- Each row of one map is in the other.
  pub within :
      (xs : List (String × A)) (m : Rows)
      → ((name : String) → is_some (get name xs) ≡ true → is_some (get name m) ≡ true)
      → All (λ (x : String × A). is_some (get x.0 m) ≡ true) xs
  within xs m h = All-mono _ _ xs (λ (x : String × A) t. h x.0 t) (own_keys xs)

module _ (sizes refusals : List (String × ℕ)) (per_row : List (String × RowCounts)) where
  abbrev pub named : Rows
  named = name_all (names sizes ++ names refusals ++ names per_row) []

  abbrev pub is_known : String → Bool
  is_known name =
      (is_some (get name sizes) || is_some (get name refusals)) || is_some (get name per_row)

  pub get-named : (name : String) → get name named ≡ or_named name (is_known name) none
  get-named name = ground (
    arith,
    get-name_all name (names sizes ++ names refusals ++ names per_row) [],
    any-append (λ n. key_eq n name) (names sizes ++ names refusals) (names per_row),
    any-append (λ n. key_eq n name) (names sizes) (names refusals),
    listed-names name sizes,
    listed-names name refusals,
    listed-names name per_row,
  )

  through :
      (name : String) (r1 r2 r3 : Option NeighborRowInfo)
      → r1 ≡ changed with_size (get name sizes) (get name named)
      → r2 ≡ changed with_refusals (get name refusals) r1
      → r3 ≡ changed with_counts (get name per_row) r2
      → r3 ≡ joined_row name (get name sizes) (get name refusals) (get name per_row)
  through name r1 r2 r3 a b c =
      c
      ∙ ap (changed with_counts (get name per_row)) (
          b
          ∙ ap (changed with_refusals (get name refusals))
              (a ∙ ap (changed with_size (get name sizes)) (get-named name)))
      ∙ changed_all name (get name sizes) (get name refusals) (get name per_row)

  -- Where no key stands twice in the three maps, the rows that are published are each there once: one
  -- for each name that any of the maps has, with what each of them has for it, or with zeros. No row is
  -- looked up that is not there.
  pub joined-get :
      IsMap sizes
      → IsMap refusals
      → IsMap per_row
      → (m : Rows) × (joined sizes refusals per_row ≡ some m)
        × IsMap m
        × ((name : String)
            → get name m ≡ joined_row name (get name sizes) (get name refusals) (get name per_row))
  unfolding joined
  joined-get s r c =
      let start : (name : String) → is_known name ≡ true → is_some (get name named) ≡ true =
        λ name t. ground (arith, t, get-named name) in
      let (m1, made1, once1, got1) =
        fill-changed with_size sizes named
          (within sizes named (λ name t. start name (ground (arith, t)))) s
          (name_all-IsMap (names sizes ++ names refusals ++ names per_row) [] tt) in
      let still1 : (name : String) → is_known name ≡ true → is_some (get name m1) ≡ true = λ name t.
        ground (
          arith,
          start name t,
          got1 name,
          changed-is_some with_size (get name sizes) (get name named),
        ) in
      let (m2, made2, once2, got2) =
        fill-changed with_refusals refusals m1
          (within refusals m1 (λ name t. still1 name (ground (arith, t)))) r once1 in
      let still2 : (name : String) → is_known name ≡ true → is_some (get name m2) ≡ true = λ name t.
        ground (
          arith,
          still1 name t,
          got2 name,
          changed-is_some with_refusals (get name refusals) (get name m1),
        ) in
      let (m3, made3, once3, got3) =
        fill-changed with_counts per_row m2
          (within per_row m2 (λ name t. still2 name (ground (arith, t)))) c once2 in
      (
        m3,
        rw (made1, made2) made3,
        once3,
        λ name.
            through name (get name m1) (get name m2) (get name m3) (got1 name) (got2 name)
              (got3 name),
      )
