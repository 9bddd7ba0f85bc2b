-- ===== src/Workload/Actor/Publish/Total.antt =====
-- Publishing does not panic, and keeps what the actor counts (src/workload/actor.rs).
use Prim.Native.String.{String}
use mathlib.Core.Option
use cfab.Prelude.{
  ℕ, ◌≡◌, refl, ap, subst, inl, inr, true, List, [], ◌∷◌, Option, none, some, arith, All, All-mono,
  Option-cases,
}
use cfab.Prelude.BTreeMap.{string_ord, get, update}
use cfab.Model.{is_some}
use cfab.Workload.Table.{row_sizes}
use cfab.Workload.Report.{NeighborRowInfo, Shared}
use cfab.Workload.Actor.{RowCounts, FlushActor}
use cfab.Workload.Actor.Batch.{claims}
use cfab.Workload.Actor.Batch.Coherent.{IsCoherent, IsClaim, claims-IsValid}
use cfab.Workload.Actor.Publish.{
  fill, with_size, with_refusals, with_counts, joined, PublishIo, published, publish_to, publish,
}
use cfab.Workload.Actor.Publish.Filled.{updated}
use cfab.Workload.Actor.Publish.Joined.{named, is_known, get-named, within}

module _ {A : Type 0} (f : A → NeighborRowInfo → NeighborRowInfo) where
  -- The loop ends where each row is there, and leaves each there.
  fill-some :
      (xs : List (String × A)) (m : List (String × NeighborRowInfo))
      → All (λ (x : String × A). is_some (get x.0 m) ≡ true) xs
      → (after : List (String × NeighborRowInfo)) × (fill f xs m ≡ some after)
        × ((name : String) → is_some (get name m) ≡ true → is_some (get name after) ≡ true)
  fill-some [] m there = (m, refl, λ name t. t)
  fill-some ((n, a) ∷ xs) m there = elim (Option-cases (get n m)) [
    | inl e ↦ absurd (ground (arith, there.0, e))
    | inr (r, e) ↦
        let still =
          All-mono _ _ xs
            (λ (x : String × A) (t : is_some (get x.0 m) ≡ true). updated x.0 n (f a r) m t)
            there.1 in
        let (after, made, kept) = fill-some xs (update n (f a r) m) still in
        (after, rw e made, λ name t. kept name (updated name n (f a r) m t))
  ]

joined-some :
    (sizes refusals : List (String × ℕ)) (per_row : List (String × RowCounts))
    → (m : List (String × NeighborRowInfo)) × (joined sizes refusals per_row ≡ some m)
unfolding joined
joined-some sizes refusals per_row =
    let start : (name : String)
        → is_known sizes refusals per_row name ≡ true
        → is_some (get name (named sizes refusals per_row)) ≡ true =
      λ name t. ground (arith, t, get-named sizes refusals per_row name) in
    let (m1, made1, kept1) =
      fill-some with_size sizes (named sizes refusals per_row)
        (within sizes _ (λ name t. start name (ground (arith, t)))) in
    let (m2, made2, kept2) =
      fill-some with_refusals refusals m1
        (within refusals m1 (λ name t. kept1 name (start name (ground (arith, t))))) in
    let (m3, made3, _) =
      fill-some with_counts per_row m2
        (within per_row m2 (λ name t. kept2 name (kept1 name (start name (ground (arith, t)))))) in
    (m3, rw (made1, made2) made3)

publish_to-some :
    (io : PublishIo) (s : Option Shared) (a : FlushActor)
    → (after : FlushActor) × (publish_to io s a ≡ some after)
publish_to-some io none a = (a, refl)
publish_to-some io (some s) a =
    let g = claims io.before_sizes a.table in
    let (m, e) = joined-some (row_sizes g) (claims io.before_refusals g).cap_refusals a.per_row in
    (published io s m a, ap (Option.map (λ m. published io s m a)) e)

-- Publishing never panics, whatever the relays claim between its reads of the table.
pub publish-some :
    (io : PublishIo) (a : FlushActor) → (after : FlushActor) × (publish io a ≡ some after)
unfolding publish
publish-some io a = publish_to-some io a.shared a

-- The claims that publishing meets are of u32 addresses.
abbrev pub IsPublishIo : PublishIo → Type 0
IsPublishIo io =
    All IsClaim io.before_sizes
    × All IsClaim io.before_refusals
    × All IsClaim io.before_depth
    × All IsClaim io.before_age

published-IsCoherent :
    (io : PublishIo) (s : Shared) (m : List (String × NeighborRowInfo)) (a : FlushActor)
    → IsPublishIo io
    → IsCoherent a
    → IsCoherent (published io s m a)
published-IsCoherent io s m a small c = record {
  valid = claims-IsValid io.before_age _ small.3 (
      claims-IsValid io.before_depth _ small.2 (
        claims-IsValid io.before_refusals _ small.1
          (claims-IsValid io.before_sizes a.table small.0 c.valid)));
  balanced = c.balanced;
}

publish_to-IsCoherent :
    (io : PublishIo) (s : Option Shared) (a after : FlushActor)
    → IsPublishIo io
    → IsCoherent a
    → publish_to io s a ≡ some after
    → IsCoherent after
publish_to-IsCoherent io none a after small c h = ground (arith, h, c)
publish_to-IsCoherent io (some s) a after small c h =
    let g = claims io.before_sizes a.table in
    let (m, e) = joined-some (row_sizes g) (claims io.before_refusals g).cap_refusals a.per_row in
    let same : published io s m a ≡ after = ground (arith, rw e at h) in
    subst IsCoherent same (published-IsCoherent io s m a small c)

pub publish-IsCoherent :
    (io : PublishIo) (a after : FlushActor)
    → IsPublishIo io
    → IsCoherent a
    → publish io a ≡ some after
    → IsCoherent after
unfolding publish
publish-IsCoherent io a after small c h = publish_to-IsCoherent io a.shared a after small c h
