-- ===== src/Model/Derived/Calm.antt =====
-- The checks of what is derived do not panic (src/derive.rs).
use Prim.Native.String.{String}
use cfab.Prelude.{
  ◌≡◌, inl, inr, Bool, List, [], ◌∷◌, some, All, In, arith, if-both, Bool-cases, Option-cases,
}
use cfab.Prelude.BTreeMap.{string_ord, key_eq}
use cfab.Model.{Member, Zone, Fabric, find, is_host, wire_named}
use cfab.Model.Checks.{
  IsCalm, passes, refuses, both-IsCalm, each-IsCalm, each-In-IsCalm, refuse_if-IsCalm,
}
use cfab.Model.Find.{find-holds, All-In}
use cfab.Model.Derive.{HostZonePref, prefs_of}
use cfab.Model.Derive.Named.{IsNamed, prefs_of-IsNamed}
use cfab.Model.Derive.Total.{universal_cost-Yields}
use cfab.Model.Paths.Calm.{check_no_equal_cost_paths-IsCalm}
use cfab.Model.Derived.{
  has_universal, check_universal_cost, is_shared, shared_wire, find_reaching, check_order,
  check_pref, check_rank0_is_shared, validate_derived,
}
use cfab.Model.Validate.Accepted.{IsSound}

check_universal_cost-IsCalm :
    (f : Fabric) (z : Zone) → IsSound f → IsCalm (check_universal_cost f z)
unfolding check_universal_cost
check_universal_cost-IsCalm f z v =
    let (cost, e) = universal_cost-Yields f v z.name in
    if-both IsCalm (has_universal f z) _ _ (rw e (refuse_if-IsCalm _ _)) passes

shared_wire-some :
    (f : Fabric) (m : Member) (n : String) → IsNamed m n → (b : Bool) × (shared_wire f m n ≡ some b)
shared_wire-some f m n h = elim (Option-cases (wire_named n m)) [
  | inl e ↦ absurd (ground (arith, h, e))
  | inr (w, e) ↦ (is_shared f m w.domain, ground (arith, e))
]

find_reaching-IsCalm :
    (f : Fabric) (m : Member) (zone : String) (ws : List String)
    → All (IsNamed m) ws
    → IsCalm (find_reaching f m zone ws)
unfolding find_reaching
find_reaching-IsCalm f m zone [] a = passes
find_reaching-IsCalm f m zone (w ∷ ws) a =
    let (b, e) = shared_wire-some f m w a.0 in
    elim (Bool-cases b) [
      | inl t ↦ rw (e, find_reaching) (rw t (refuses _))
      | inr t ↦ rw (e, find_reaching) (rw t (find_reaching-IsCalm f m zone ws a.1))
    ]

check_order-IsCalm :
    (f : Fabric) (m : Member) (zone : String) (ws : List String)
    → All (IsNamed m) ws
    → IsCalm (check_order f m zone ws)
unfolding check_order
check_order-IsCalm f m zone [] a = passes
check_order-IsCalm f m zone (w ∷ ws) a =
    let (b, e) = shared_wire-some f m w a.0 in
    elim (Bool-cases b) [
      | inl t ↦ rw (e, check_order) (rw t passes)
      | inr t ↦ rw (e, check_order) (rw t (find_reaching-IsCalm f m zone ws a.1))
    ]

check_pref-IsCalm :
    (f : Fabric) (m : Member) (zone : String)
    → IsSound f
    → In m f.members
    → IsCalm (check_pref f m zone (find (λ (p : HostZonePref). key_eq p.zone zone) (prefs_of f m)))
check_pref-IsCalm f m zone v im =
    elim (Option-cases (find (λ (p : HostZonePref). key_eq p.zone zone) (prefs_of f m))) [
      | inl e ↦ rw e passes
      | inr (p, e) ↦
          let (_, there) =
            find-holds (λ (p : HostZonePref). key_eq p.zone zone) (prefs_of f m) p e in
          rw e (
            check_order-IsCalm f m zone p.order
              (All-In _ (prefs_of f m) p (prefs_of-IsNamed f m v im) there))
    ]

check_rank0_is_shared-IsCalm :
    (f : Fabric) (zone : String) → IsSound f → IsCalm (check_rank0_is_shared f zone)
unfolding check_rank0_is_shared
check_rank0_is_shared-IsCalm f zone v =
    each-In-IsCalm _ f.members
      λ m im. if-both IsCalm (is_host m.kind) _ _ (check_pref-IsCalm f m zone v im) passes

pub validate_derived-IsCalm : (f : Fabric) → IsSound f → IsCalm (validate_derived f)
unfolding validate_derived
validate_derived-IsCalm f v =
    both-IsCalm _ _ (each-IsCalm _ f.zones λ z. check_universal_cost-IsCalm f z v) (
      each-IsCalm _ f.zones λ z.
        both-IsCalm _ _ (check_rank0_is_shared-IsCalm f z.name v)
          (check_no_equal_cost_paths-IsCalm f z.name v))
