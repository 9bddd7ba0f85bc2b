-- ===== src/Prober/Build/Built.antt =====
-- The prober of a member of an accepted fabric is built, and tells its peers apart (src/prober/mod.rs).
use Prim.Native.String.{String}
use cfab.Prelude.{
  ◌<◌, ◌≡◌, refl, subst, arith, map_all, Option-cases, inl, inr, List, [], ◌∷◌, ◌++◌, map, Option,
  none, some, All, In, present, Bool-cases,
}
use cfab.Prelude.BTreeMap.{string_ord, key_eq}
use cfab.Model.{Member, Zone, Fabric, zone}
use cfab.Model.Checks.{pass}
use cfab.Model.Derive.{FallbackRow, fallback_rows_of}
use cfab.Model.Derive.Total.{Yields, >>=-Yields, map_all-Yields, map-Yields, accepted-Yields}
use cfab.Model.Validate.{validate}
use cfab.Model.Validate.Accepted.{validate-Blocks, Blocks-IsSound}
use cfab.Model.View.{View}
use cfab.Prober.Leg.State.{Leg, new}
use cfab.Prelude.Gives.{Gives, map-Gives}
use cfab.Prober.Build.{
  Prober, prober_of, peers_among, ingress_leg, fallback_leg, fallback_with, from_view,
}
use cfab.Prober.Build.Asked.{Told, Nodes, legs-Told}

peers_among-Yields :
    (v : View) (zone : String) (ms : List Member)
    → ((m : Member) → In m ms → Yields (fallback_rows_of v.fabric m))
    → Yields (peers_among v zone ms)
peers_among-Yields v zone [] h = ([], refl)
peers_among-Yields v zone (m ∷ ms) h =
    let rest = peers_among-Yields v zone ms λ p i. h p (inr i) in
    elim (Bool-cases (key_eq m.name v.member.name)) [
      | inl e ↦ rw e rest
      | inr e ↦ rw e (
          >>=-Yields (fallback_rows_of v.fabric m) _ (h m (inl refl))
            λ rows. map-Yields _ (peers_among v zone ms) rest)
    ]

fallback_leg-Yields :
    (v : View) (r : FallbackRow) (z : Option Zone)
    → ((m : Member) → In m v.fabric.members → Yields (fallback_rows_of v.fabric m))
    → Yields (fallback_leg v r z)
fallback_leg-Yields v r none h = (none, refl)
fallback_leg-Yields v r (some z) h =
    map-Yields _ (peers_among v r.zone v.fabric.members)
      (peers_among-Yields v r.zone v.fabric.members h)

map_all-parts :
    {A B : Type 0} (g : A → Option B) (a : A) (xs : List A) (ys : List B)
    → map_all g (a ∷ xs) ≡ some ys
    → (b : B) × (bs : List B) × (g a ≡ some b) × (map_all g xs ≡ some bs) × ((b ∷ bs) ≡ ys)
map_all-parts g a xs ys h = elim (Option-cases (g a)) [
  | inl e ↦ absurd (ground (arith, h, e))
  | inr (b, e) ↦ elim (Option-cases (map_all g xs)) [
    | inl m ↦ absurd (ground (arith, h, e, m))
    | inr (bs, m) ↦ (b, bs, e, m, ground (arith, h, e, m))
  ]
]

map_all-In :
    {A B : Type 0} (g : A → Option B) (xs : List A) (ys : List B) (x : A)
    → map_all g xs ≡ some ys
    → In x xs
    → (y : B) × (g x ≡ some y) × In y ys
map_all-In g [] ys x h i = absurd i
map_all-In g (a ∷ xs) ys x h (inl s) =
    let (b, bs, e, m, same) = map_all-parts g a xs ys h in
    (b, subst (λ z. g z ≡ some b) s e, subst (In b) same (inl refl))
map_all-In g (a ∷ xs) ys x h (inr j) =
    let (b, bs, e, m, same) = map_all-parts g a xs ys h in
    let (y, q, k) = map_all-In g xs bs x m j in (y, q, subst (In y) same (inr k))

In-present : {A : Type 0} (os : List (Option A)) (a : A) → In (some a) os → In a (present os)
In-present [] a i = absurd i
In-present (none ∷ os) a (inl e) = absurd (ground (arith, e))
In-present (none ∷ os) a (inr i) = In-present os a i
In-present (some x ∷ os) a (inl e) = inl (ground (arith, e))
In-present (some x ∷ os) a (inr i) = inr (In-present os a i)

In-right : {A : Type 0} (xs ys : List A) (a : A) → In a ys → In a (xs ++ ys)
In-right [] ys a i = i
In-right (x ∷ xs) ys a i = inr (In-right xs ys a i)

-- A bond row whose zone there is has its leg.
abbrev pub Served : Fabric → List Leg → FallbackRow → Type 0
Served f legs r = (z : Zone) → zone r.zone f ≡ some z → (l : Leg) × In l legs × (l.bond ≡ r.ifname)

fallback_leg-bond :
    (v : View) (r : FallbackRow) (z : Zone)
    → Gives
        (λ (o : Option Leg). (l : Leg) × (o ≡ some l) × (l.bond ≡ r.ifname))
        (fallback_leg v r (some z))
unfolding new
fallback_leg-bond v r z =
    map-Gives (λ _. Unit) _ _ (peers_among v r.zone v.fabric.members) (λ _ _. tt)
      λ peers _. (fallback_with v r z peers, refl, refl)

legs-Served :
    (v : View) (before : List Leg) (rows : List FallbackRow) (legs : List (Option Leg))
    (r : FallbackRow)
    → map_all (λ (r : FallbackRow). fallback_leg v r (zone r.zone v.fabric)) rows ≡ some legs
    → In r rows
    → Served v.fabric (before ++ present legs) r
legs-Served v before rows legs r e i z is =
    let (o, made, j) =
      map_all-In (λ (r : FallbackRow). fallback_leg v r (zone r.zone v.fabric)) rows legs r e i in
    let made' : fallback_leg v r (some z) ≡ some o =
      subst (λ (w : Option Zone). fallback_leg v r w ≡ some o) is made in
    let (l, same, bond) = fallback_leg-bond v r z o made' in
    let there : In (some l) legs = subst (λ (x : Option Leg). In x legs) same j in
    (l, In-right before (present legs) l (In-present legs l there), bond)

from_each : {A : Type 0} (P : A → Type 0) (xs : List A) → ((x : A) → In x xs → P x) → All P xs
from_each P [] h = tt
from_each P (x ∷ xs) h = (h x (inl refl), from_each P xs (λ y i. h y (inr i)))

-- Of each member of an accepted fabric whose nodes are bytes, the prober is built without a panic, and
-- has a leg for each of the member's bond rows whose zone there is. Each of its fallback legs is that
-- of one of the bond rows, and tells its peers apart: they are the Router IDs, in the row's zone, of
-- just the other members that have a bond leg in that zone; each is asked at that member's address on
-- the row's segment; and the member's own is none of them.
pub from_view-Told :
    (f : Fabric) (m : Member)
    → validate f ≡ pass
    → In m f.members
    → All (λ (m : Member). m.node < 256) f.members
    → let v : View = record { fabric = f; member = m } in
      (p : Prober) × (rows : List FallbackRow) × (from_view v ≡ some p)
      × (fallback_rows_of f m ≡ some rows)
      × All (Served f p.legs) rows
      × All (λ (l : Leg). Told v l l.kind) p.legs
unfolding from_view
from_view-Told f m h i bytes =
    let v : View = record { fabric = f; member = m } in
    let (_, (rows, has_rows), (gws, has_gws), _) = accepted-Yields f m "" h i in
    let (legs, has_legs) =
      map_all-Yields (λ (r : FallbackRow). fallback_leg v r (zone r.zone f)) rows
        λ r _. fallback_leg-Yields v r (zone r.zone f) λ p j. (accepted-Yields f p "" h j).1 in
    let nodes : Nodes f = ((Blocks-IsSound f pass (validate-Blocks f h)).nodes, bytes) in
    (
      prober_of f (present (map (ingress_leg v) gws) ++ present legs),
      rows,
      rw (has_gws, has_rows, has_legs) refl,
      has_rows,
      from_each _ rows
          λ r j. legs-Served v (present (map (ingress_leg v) gws)) rows legs r has_legs j,
      legs-Told v nodes i gws rows legs has_rows has_legs,
    )
