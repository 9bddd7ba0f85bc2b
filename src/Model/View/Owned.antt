-- ===== src/Model/View/Owned.antt =====
-- The list that `owned_forwarding` pushes, and what sorting and merging it keeps (src/derive.rs).
use Prim.Native.String.{String}
use cfab.Prelude.{
  ◌≡◌, refl, subst, inl, inr, Bool, true, false, List, [], ◌∷◌, ◌++◌, map, All, All-mono, All-++,
  All-map, In, arith,
}
use cfab.Prelude.Gives.{everywhere}
use cfab.Prelude.BTreeMap.{string_ord, pair_ord, key_eq_iff}
use cfab.Prelude.Sorting.{
  bool_ord, sort, dedup, AtMost, sort-Ascends, In-sort, Later, Rises, dedup-Kept,
}
use cfab.Model.{Wire, Zone, identity_ifnames, leg_ifname}
use cfab.Model.Checks.{Distinct, is_in}
use cfab.Model.Derive.{ClassRow, Port, FallbackRow, GwRow}
use cfab.Model.View.{
  View, WorkloadRow, workload_rows, transit, Flagged, port_flags, gw_flags, leg_flags,
  identity_flags, pushed,
}

pub In-left : {A : Type 0} (x : A) (xs ys : List A) → In x xs → In x (xs ++ ys)
In-left x [] ys i = absurd i
In-left x (y ∷ xs) ys (inl e) = inl e
In-left x (y ∷ xs) ys (inr i) = inr (In-left x xs ys i)

pub In-right : {A : Type 0} (x : A) (xs ys : List A) → In x ys → In x (xs ++ ys)
In-right x [] ys i = i
In-right x (y ∷ xs) ys i = inr (In-right x xs ys i)

Later-new :
    (q : Flagged) (rs : List Flagged)
    → Later q rs
    → is_in q.0 (map (λ (r : Flagged). r.0) rs) ≡ false
Later-new q [] a = refl
Later-new q (r ∷ rs) a =
    ground (arith, a.0, string_ord.cmp_iff q.0 r.0, key_eq_iff r.0 q.0, Later-new q rs a.1)

pub Rises-Distinct : (rs : List Flagged) → Rises rs → Distinct (map (λ (r : Flagged). r.0) rs)
Rises-Distinct [] a = tt
Rises-Distinct (r ∷ rs) a = (Later-new r rs a.0, Rises-Distinct rs a.1)

-- Listed as one that does not forward.
abbrev pub Fixed : List Flagged → String → Type 0
Fixed out n = In (n, false) out

false_first : (n : String) (r : Flagged) → r.0 ≡ n → AtMost r (n, false) → r ≡ (n, false)
false_first n (m, false) e h = ground (arith, e)
false_first n (m, true) e h = absurd (ground (arith, e, h, string_ord.cmp_iff m n))

-- What is pushed once with `false` keeps it.
pub stays_false : (n : String) (xs : List Flagged) → Fixed xs n → Fixed (dedup (sort xs)) n
stays_false n xs i =
    let (r, j, same, least) =
      dedup-Kept (n, false) (sort xs) (sort-Ascends xs) (In-sort (n, false) xs i) in
    subst (λ (x : Flagged). In x (dedup (sort xs))) (false_first n r same least) j

abbrev pub Transits : Bool → Flagged → Type 0
Transits t r = r.1 ≡ true → t ≡ true

ports-Transits : (t : Bool) (ports : List Port) → All (Transits t) (port_flags ports)
ports-Transits t ports =
    All-map (Transits t) _ ports (everywhere _ (λ p h. ground (arith, h)) ports)

gws-Transits : (t : Bool) (rows : List GwRow) → All (Transits t) (gw_flags t rows)
gws-Transits t [] = tt
gws-Transits t (r ∷ rows) = (
  λ h. h,
  All-++ (Transits t) (port_flags r.ports) (gw_flags t rows) (ports-Transits t r.ports)
      (gws-Transits t rows),
)

legs-Transits : (t : Bool) (rows : List FallbackRow) → All (Transits t) (leg_flags t rows)
legs-Transits t [] = tt
legs-Transits t (r ∷ rows) = (
  λ h. h,
  All-++ (Transits t) (port_flags r.ports) (leg_flags t rows) (ports-Transits t r.ports)
      (legs-Transits t rows),
)

identities-Transits : (t : Bool) (zs : List Zone) → All (Transits t) (identity_flags zs)
identities-Transits t [] = tt
identities-Transits t (z ∷ zs) =
    (λ h. ground (arith, h), (λ h. ground (arith, h), identities-Transits t zs))

map-false :
    {A : Type 0} (t : Bool) (g : A → String) (xs : List A)
    → All (Transits t) (map (λ x. (g x, false)) xs)
map-false t g xs = All-map (Transits t) _ xs (everywhere _ (λ x h. ground (arith, h)) xs)

map-transit :
    {A : Type 0} (t : Bool) (g : A → String) (xs : List A)
    → All (Transits t) (map (λ x. (g x, t)) xs)
map-transit t g xs = All-map (Transits t) _ xs (everywhere _ (λ x h. h) xs)

pub pushed-Transits :
    (v : View) (rows : List ClassRow) (gws : List GwRow) (legs : List FallbackRow)
    → All (Transits (transit v)) (pushed v rows gws legs)
pushed-Transits v rows gws legs =
    let t = transit v in
    let T = Transits t in
    All-++ T (map (λ (w : Wire). (w.name, false)) v.member.wires) _ (map-false t _ v.member.wires) (
      All-++ T (map (λ (r : ClassRow). (r.ifname, t)) rows) _ (map-transit t _ rows) (
        All-++ T (gw_flags t gws) _ (gws-Transits t gws) (
          All-++ T (leg_flags t legs) _ (legs-Transits t legs) (
            All-++ T (map (λ (r : WorkloadRow). (leg_ifname r.wl, t)) (workload_rows v)) _
              (map-transit t _ (workload_rows v)) (identities-Transits t v.fabric.zones)))))

-- All names of a list are listed as ones that do not forward.
abbrev pub Names : {A : Type 0} → (A → String) → List Flagged → List A → Type 0
Names g out xs = All (λ x. Fixed out (g x)) xs

pub map-Names :
    {A : Type 0} (g : A → String) (xs : List A) → Names g (map (λ x. (g x, false)) xs) xs
map-Names g [] = tt
map-Names g (x ∷ xs) = (inl refl, All-mono _ _ xs (λ y i. inr i) (map-Names g xs))

abbrev pub PortsFixed : List Flagged → List Port → Type 0
PortsFixed out ports = All (λ (p : Port). Fixed out p.ifname) ports

-- A larger list has what the smaller one has.
PortsFixed-mono :
    (xs ys : List Flagged) (ports : List Port)
    → ((x : Flagged) → In x xs → In x ys)
    → PortsFixed xs ports
    → PortsFixed ys ports
PortsFixed-mono xs ys ports h a = All-mono _ _ ports (λ (p : Port) i. h (p.ifname, false) i) a

pub gws-Fixed :
    (t : Bool) (rows : List GwRow) → All (λ (r : GwRow). PortsFixed (gw_flags t rows) r.ports) rows
gws-Fixed t [] = tt
gws-Fixed t (r ∷ rows) =
    let ports = port_flags r.ports in
    let here = map-Names (λ (p : Port). p.ifname) r.ports in
    (
      PortsFixed-mono ports (gw_flags t (r ∷ rows)) r.ports
          (λ x i. inr (In-left x ports (gw_flags t rows) i)) here,
      All-mono _ _ rows
          (λ (q : GwRow) a.
            PortsFixed-mono (gw_flags t rows) (gw_flags t (r ∷ rows)) q.ports
              (λ x i. inr (In-right x ports (gw_flags t rows) i)) a)
          (gws-Fixed t rows),
    )

pub legs-Fixed :
    (t : Bool) (rows : List FallbackRow)
    → All (λ (r : FallbackRow). PortsFixed (leg_flags t rows) r.ports) rows
legs-Fixed t [] = tt
legs-Fixed t (r ∷ rows) =
    let ports = port_flags r.ports in
    let here = map-Names (λ (p : Port). p.ifname) r.ports in
    (
      PortsFixed-mono ports (leg_flags t (r ∷ rows)) r.ports
          (λ x i. inr (In-left x ports (leg_flags t rows) i)) here,
      All-mono _ _ rows
          (λ (q : FallbackRow) a.
            PortsFixed-mono (leg_flags t rows) (leg_flags t (r ∷ rows)) q.ports
              (λ x i. inr (In-right x ports (leg_flags t rows) i)) a)
          (legs-Fixed t rows),
    )

abbrev pub IdentityFixed : List Flagged → Zone → Type 0
IdentityFixed out z = Fixed out (identity_ifnames z.id).0 × Fixed out (identity_ifnames z.id).1

pub identities-Fixed : (zs : List Zone) → All (IdentityFixed (identity_flags zs)) zs
identities-Fixed [] = tt
identities-Fixed (z ∷ zs) = (
  (inr (inl refl), inl refl),
  All-mono _ _ zs (λ z i. (inr (inr i.0), inr (inr i.1))) (identities-Fixed zs),
)
