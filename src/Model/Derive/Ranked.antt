-- ===== src/Model/Derive/Ranked.antt =====
-- The derivation of an accepted fabric does not panic (src/model.rs, src/derive.rs).
use Prim.Native.String.{String}
use mathlib.Core.Option
use cfab.Prelude.{
  ◌≡◌, refl, sym, ◌∙◌, subst, ◌⊎◌, inl, inr, true, ◌&&◌, not, List, [], ◌∷◌, map, some, In, arith,
  any, any-append, filter, Bool-cases, Option-cases,
}
use cfab.Prelude.BTreeMap.{string_ord, key_eq, key_eq_iff, key_eq_refl}
use cfab.Model.{
  DomainId, SegScope, on_domain, universal, domain_of, is_on, Wire, Member, Zone, Segment, WirePref,
  Fabric, find, is_some, is_segment, member, zone, wire_on, wire_pref, candidate_wires,
}
use cfab.Model.Checks.{is_in}
use cfab.Model.Find.{
  find-holds, find-filter, In-filter, All-In, any-In, is_in-map, find-Distinct, position-is_in,
}
use cfab.Model.Derive.{
  HostZonePref, name_list, insert_by_speed, sort_by_speed, derived_order, pref_of, prefs_of, row_at,
  ranked_row, wire_of, class_rows_from, class_rows_of, ClassRow,
}
use cfab.Model.Validate.{same_names}
use cfab.Model.Validate.Accepted.{IsSound, check_wire_pref-names, subset-is_in}

In-insert_by_speed : (w x : Wire) (ws : List Wire) → (w ≡ x) ⊎ In x ws → In x (insert_by_speed w ws)
In-insert_by_speed w x [] i = i
In-insert_by_speed w x (y ∷ ys) i = ground (arith, i, In-insert_by_speed w x ys)

In-sort_by_speed : (ws : List Wire) (x : Wire) → In x ws → In x (sort_by_speed ws)
In-sort_by_speed [] x i = i
In-sort_by_speed (w ∷ ws) x (inl e) = In-insert_by_speed w x (sort_by_speed ws) (inl e)
In-sort_by_speed (w ∷ ws) x (inr i) =
    In-insert_by_speed w x (sort_by_speed ws) (inr (In-sort_by_speed ws x i))

-- The wire that a member has on a segment's domain is a candidate, and the first on its domain.
candidate :
    (f : Fabric) (m : Member) (r : Segment) (d : DomainId) (w : Wire)
    → In r f.segments
    → domain_of r.scope ≡ some d
    → wire_on d m ≡ some w
    → (any (is_segment r.zone w.domain) f.segments ≡ true) × (w.domain ≡ d)
candidate f m r d w i on has =
    let (same, _) = find-holds (λ (w : Wire). key_eq w.domain d) m.wires w has in
    let eq = (key_eq_iff w.domain d).0 same in
    (any-In (is_segment r.zone w.domain) f.segments r i (on_same r.scope d on eq), eq)
  where
    on_same :
        (s : SegScope) (d : DomainId)
        → domain_of s ≡ some d
        → w.domain ≡ d
        → (key_eq r.zone r.zone && is_on w.domain s) ≡ true
    on_same (on_domain e) d h k = ground (arith, h, k, key_eq_refl r.zone, key_eq_iff e w.domain)
    on_same universal d h k = absurd (ground (arith, h))

derived_order-is_in :
    (f : Fabric) (m : Member) (z : Zone) (d : DomainId) (w : Wire)
    → any (is_segment z.name w.domain) f.segments ≡ true
    → w.domain ≡ d
    → wire_on d m ≡ some w
    → is_in w.name (derived_order z (candidate_wires z.name m f)) ≡ true
unfolding derived_order
derived_order-is_in f m z d w carries same has = elim (Bool-cases (key_eq w.domain z.primary)) [
  | inl primary ↦
      let d_primary = sym same ∙ (key_eq_iff w.domain z.primary).0 primary in
      let first =
        find-filter (λ (x : Wire). key_eq x.domain d)
          (λ (x : Wire). any (is_segment z.name x.domain) f.segments) m.wires w has carries in
      let found =
        subst
          (λ (p : DomainId).
            find (λ (x : Wire). key_eq x.domain p) (candidate_wires z.name m f) ≡ some w)
          d_primary first in
      rw found (ground (arith, key_eq_refl w.name))
  | inr other ↦
      let (_, there) = find-holds (λ (x : Wire). key_eq x.domain d) m.wires w has in
      let listed = In-sort_by_speed _ w (
        In-filter (λ (x : Wire). not (key_eq x.domain z.primary)) (candidate_wires z.name m f) w
          (In-filter (λ (x : Wire). any (is_segment z.name x.domain) f.segments) m.wires w there
            carries)
          (rw other refl)) in
      ground (
        arith,
        is_in-map (λ (x : Wire). x.name) _ w listed,
        any-append (λ n. key_eq n w.name)
            (name_list
              (find (λ (x : Wire). key_eq x.domain z.primary) (candidate_wires z.name m f)))
            (map (λ (x : Wire). x.name)
              (sort_by_speed (
                filter (λ (x : Wire). not (key_eq x.domain z.primary))
                  (candidate_wires z.name m f)))),
      )
]

-- The order of a zone has the wire that carries one of its segments.
pref_of-is_in :
    (f : Fabric) (m : Member) (z : Zone) (r : Segment) (d : DomainId) (w : Wire)
    → IsSound f
    → In m f.members
    → In r f.segments
    → z.name ≡ r.zone
    → domain_of r.scope ≡ some d
    → wire_on d m ≡ some w
    → is_in w.name (pref_of f m z).order ≡ true
unfolding pref_of
pref_of-is_in f m z r d w v im ir zr on has =
    let (carries, same) = candidate f m r d w ir on has in
    let carries' =
      subst (λ (n : String). any (is_segment n w.domain) f.segments ≡ true) (sym zr) carries in
    elim (Option-cases (wire_pref m.name z.name f)) [
      | inl e ↦ rw (e, pref_of) (derived_order-is_in f m z d w carries' same has)
      | inr (p, e) ↦ rw (e, pref_of) (overridden_is_in p e carries')
    ]
  where
    names_is_in :
        (p : WirePref)
        → same_names p.order (map (λ (x : Wire). x.name) (candidate_wires p.zone m f)) ≡ true
        → is_in w.name (map (λ (x : Wire). x.name) (candidate_wires p.zone m f)) ≡ true
        → is_in w.name p.order ≡ true
    names_is_in p same listed = ground (
      arith,
      same,
      listed,
      subset-is_in (map (λ (x : Wire). x.name) (candidate_wires p.zone m f)) p.order w.name,
    )

    overridden_is_in :
        (p : WirePref)
        → wire_pref m.name z.name f ≡ some p
        → any (is_segment z.name w.domain) f.segments ≡ true
        → is_in w.name p.order ≡ true
    overridden_is_in p e carries =
        let (here, ip) =
          find-holds (λ (p : WirePref). key_eq p.member m.name && key_eq p.zone z.name) f.wire_prefs
            p e in
        let whose : m.name ≡ p.member = ground (arith, here, key_eq_iff p.member m.name) in
        let which : z.name ≡ p.zone = ground (arith, here, key_eq_iff p.zone z.name) in
        let found =
          subst (λ (n : String). member n f ≡ some m) whose
            (find-Distinct (λ (x : Member). x.name) f.members m v.members im) in
        let checked = rw found at (All-In _ f.wire_prefs p v.prefs ip) in
        let (_, there) = find-holds (λ (x : Wire). key_eq x.domain d) m.wires w has in
        let listed =
          is_in-map (λ (x : Wire). x.name) (candidate_wires p.zone m f) w
            (In-filter (λ (x : Wire). any (is_segment p.zone x.domain) f.segments) m.wires w there
              (subst (λ (n : String). any (is_segment n w.domain) f.segments ≡ true) which
                carries)) in
        names_is_in p (check_wire_pref-names p m f checked) listed

pref_of-zone : (f : Fabric) (m : Member) (z : Zone) → (pref_of f m z).zone ≡ z.name
unfolding pref_of
pref_of-zone f m z = elim (Option-cases (wire_pref m.name z.name f)) [
  | inl e ↦ rw (e, pref_of) refl
  | inr (p, e) ↦ rw (e, pref_of) refl
]

find-prefs :
    (f : Fabric) (m : Member) (n : String) (zs : List Zone)
    → find (λ (p : HostZonePref). key_eq p.zone n) (map (pref_of f m) zs)
      ≡ Option.map (pref_of f m) (find (λ (z : Zone). key_eq z.name n) zs)
find-prefs f m n [] = refl
find-prefs f m n (z ∷ zs) = ground (arith, pref_of-zone f m z, find-prefs f m n zs)

-- A segment on a wire of the member has a row.
ranked_row-some :
    (f : Fabric) (m : Member) (r : Segment) (d : DomainId) (w : Wire)
    → IsSound f
    → In m f.members
    → In r f.segments
    → domain_of r.scope ≡ some d
    → wire_on d m ≡ some w
    → (row : ClassRow) × (ranked_row r w
          (find (λ (p : HostZonePref). key_eq p.zone r.zone) (prefs_of f m))
        ≡ some row)
unfolding ranked_row prefs_of
ranked_row-some f m r d w v im ir on has = elim (Option-cases (zone r.zone f)) [
  | inl e ↦ absurd (
      ground (
        arith,
        e,
        All-In (λ (s : Segment). is_some (zone s.zone f) ≡ true) f.segments r v.zones ir,
      ))
  | inr (z, e) ↦
      let (named, _) = find-holds (λ (z : Zone). key_eq z.name r.zone) f.zones z e in
      let zr = (key_eq_iff z.name r.zone).0 named in
      let (rank, there) =
        position-is_in w.name (pref_of f m z).order (pref_of-is_in f m z r d w v im ir zr on has) in
      rw (find-prefs f m r.zone f.zones, e) (row_at r w rank, rw there refl)
]

class_rows_from-some :
    (f : Fabric) (m : Member) (rs : List Segment)
    → IsSound f
    → In m f.members
    → ((r : Segment) → In r rs → In r f.segments)
    → (rows : List ClassRow) × (class_rows_from (prefs_of f m) m rs ≡ some rows)
unfolding class_rows_from
class_rows_from-some f m [] v im sub = ([], refl)
class_rows_from-some f m (r ∷ rs) v im sub =
    let (rows, rest) = class_rows_from-some f m rs v im (λ x i. sub x (inr i)) in
    elim (Option-cases (wire_of (domain_of r.scope) m)) [
      | inl e ↦ (rows, ground (arith, e, rest))
      | inr (w, e) ↦ elim (Option-cases (domain_of r.scope)) [
        | inl on ↦ absurd (ground (arith, on, e))
        | inr (d, on) ↦
            let (row, ranked) =
              ranked_row-some f m r d w v im (sub r (inl refl)) on (ground (arith, on, e)) in
            (row ∷ rows, rw (e, class_rows_from) (rw (ranked, rest) refl))
      ]
    ]

-- The rows of a member of a sound fabric are derived without a panic.
pub class_rows_of-some :
    (f : Fabric) (m : Member)
    → IsSound f
    → In m f.members
    → (rows : List ClassRow) × (class_rows_of f m ≡ some rows)
unfolding class_rows_of
class_rows_of-some f m v im = class_rows_from-some f m f.segments v im (λ r i. i)
