-- ===== src/Model/View/Listed.antt =====
-- What the list that `owned_forwarding` pushes has (src/derive.rs).
use Prim.Native.String.{String}
use cfab.Prelude.{
  ◌≡◌, ◌≢◌, refl, sym, ap, ◌∙◌, subst, inl, inr, Bool, List, [], ◌∷◌, map, In, arith, Option, none,
  some, present, Option-cases,
}
use cfab.Prelude.BTreeMap.{string_ord, pair_ord, key_eq, key_eq_iff}
use cfab.Prelude.Sorting.{bool_ord}
use cfab.Model.{Workload, MemberWorkload, find, leg_ifname}
use cfab.Model.Derive.{FallbackRow, GwRow}
use cfab.Model.View.{
  View, WorkloadRow, joined, address_cidr, workload_rows, port_flags, gw_flags, leg_flags,
}
use cfab.Model.View.Owned.{In-right}

pub In-map-of : {A B : Type 0} (g : A → B) (xs : List A) (x : A) → In x xs → In (g x) (map g xs)
In-map-of g [] x i = absurd i
In-map-of g (y ∷ xs) x (inl e) = inl (ap g e)
In-map-of g (y ∷ xs) x (inr i) = inr (In-map-of g xs x i)

pub gw_flags-In :
    (t : Bool) (rows : List GwRow) (r : GwRow) → In r rows → In (r.ifname, t) (gw_flags t rows)
gw_flags-In t [] r i = absurd i
gw_flags-In t (q ∷ rows) r (inl e) = inl (ap (λ (x : GwRow). (x.ifname, t)) e)
gw_flags-In t (q ∷ rows) r (inr i) =
    inr (In-right _ (port_flags q.ports) (gw_flags t rows) (gw_flags-In t rows r i))

pub leg_flags-In :
    (t : Bool) (rows : List FallbackRow) (r : FallbackRow)
    → In r rows
    → In (r.ifname, t) (leg_flags t rows)
leg_flags-In t [] r i = absurd i
leg_flags-In t (q ∷ rows) r (inl e) = inl (ap (λ (x : FallbackRow). (x.ifname, t)) e)
leg_flags-In t (q ∷ rows) r (inr i) =
    inr (In-right _ (port_flags q.ports) (leg_flags t rows) (leg_flags-In t rows r i))

address_found :
    (n : String) (rows : List MemberWorkload) (a : MemberWorkload)
    → In a rows
    → a.name ≡ n
    → find (λ (x : MemberWorkload). key_eq x.name n) rows ≢ none
address_found n [] a i same = absurd i
address_found n (x ∷ rows) a (inl e) same = λ missing.
    let named : x.name ≡ n = ap (λ (y : MemberWorkload). y.name) e ∙ same in
    absurd (ground (arith, key_eq_iff x.name n, missing, named))
address_found n (x ∷ rows) a (inr i) same =
    λ missing. address_found n rows a i same (ground (arith, missing))

module _ (v : View) (w : Workload) (a : MemberWorkload) where
  abbrev row_of : Workload → Option WorkloadRow
  row_of x = joined x (find (λ (y : MemberWorkload). key_eq y.name x.name) v.member.workloads)

  abbrev HasLeg : List Workload → Type 0
  HasLeg ws = (r : WorkloadRow) × In r (present (map row_of ws)) × (leg_ifname r.wl ≡ leg_ifname w)

  skip :
      (o : Option WorkloadRow) (os : List (Option WorkloadRow)) (r : WorkloadRow)
      → In r (present os)
      → In r (present (o ∷ os))
  skip none os r i = i
  skip (some q) os r i = inr i

  first_leg : (ws : List Workload) → In a v.member.workloads → a.name ≡ w.name → HasLeg (w ∷ ws)
  first_leg ws ia same =
      elim (Option-cases (find (λ (y : MemberWorkload). key_eq y.name w.name) v.member.workloads)) [
        | inl m ↦ absurd (address_found w.name v.member.workloads a ia same m)
        | inr (x, m) ↦
            (record { wl = w; address = address_cidr x; addr = x.address }, rw m (inl refl), refl)
      ]

  legs_among :
      (ws : List Workload) → In w ws → In a v.member.workloads → a.name ≡ w.name → HasLeg ws
  legs_among [] i ia same = absurd i
  legs_among (x ∷ ws) (inl e) ia same =
      subst (λ (y : Workload). HasLeg (y ∷ ws)) (sym e) (first_leg ws ia same)
  legs_among (x ∷ ws) (inr i) ia same =
      let (r, j, l) = legs_among ws i ia same in (r, skip (row_of x) (map row_of ws) r j, l)

  -- The row of a workload that the member has an address on.
  pub workload_rows-In :
      In w v.fabric.workloads
      → In a v.member.workloads
      → a.name ≡ w.name
      → (r : WorkloadRow) × In r (workload_rows v) × (leg_ifname r.wl ≡ leg_ifname w)
  workload_rows-In iw ia same = legs_among v.fabric.workloads iw ia same
