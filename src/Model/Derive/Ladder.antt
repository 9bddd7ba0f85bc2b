-- ===== src/Model/Derive/Ladder.antt =====
-- The costs of one member's rows (src/derive.rs).
use Prim.Native.String.{String}
use cfab.Prelude.{
  ℕ, ◌≡◌, refl, sym, ap, ◌∙◌, subst, inl, inr, List, [], ◌∷◌, map, Option, none, some, In, arith,
  Option-cases, ◌>>=◌,
}
use cfab.Prelude.BTreeMap.{string_ord, pair_ord, key_eq, key_eq_iff}
use cfab.Model.{
  DomainId, SegScope, on_domain, universal, domain_of, Wire, Member, Segment, Fabric, find, wire_on,
}
use cfab.Model.Checks.{pass, Distinct}
use cfab.Model.Find.{find-holds, Distinct-injective}
use cfab.Model.Derive.{
  HostZonePref, ClassRow, ladder_cost, position, row_at, ranked_row, wire_of, prefs_of,
  class_rows_from, class_rows_of,
}
use cfab.Model.Validate.{scope_text, validate}
use cfab.Model.Validate.Accepted.{validate-Blocks, Blocks-IsSound}

ladder_cost-injective : (i j : ℕ) → ladder_cost i ≡ ladder_cost j → i ≡ j
ladder_cost-injective i j h = ground (arith, h)

position-injective :
    (n n' : String) (xs : List String) (i : ℕ)
    → position n xs ≡ some i
    → position n' xs ≡ some i
    → n ≡ n'
position-injective n n' [] i h h' = absurd (ground (arith, h))
position-injective n n' (x ∷ xs) i h h' = elim (Option-cases (position n xs)) [
  | inl e ↦ ground (arith, h, h', e, key_eq_iff x n, key_eq_iff x n', Option-cases (position n' xs))
  | inr (a, e) ↦ ground (
    arith,
    h,
    h',
    e,
    key_eq_iff x n,
    key_eq_iff x n',
    Option-cases (position n' xs),
    position-injective n n' xs a,
  )
]

-- Where a row comes from: a segment of the list, the member's wire on it, and the wire's place in
-- the zone's order.
record Origin (prefs : List HostZonePref) (m : Member) (rs : List Segment) (row : ClassRow)
    : Type 0 where
  pub segment : Segment
  pub wire : Wire
  pub domain : DomainId
  pub pref : HostZonePref
  pub rank : ℕ
  pub listed : In segment rs
  pub its_domain : domain_of segment.scope ≡ some domain
  pub on_wire : wire_on domain m ≡ some wire
  pub preferred : find (λ (p : HostZonePref). key_eq p.zone segment.zone) prefs ≡ some pref
  pub ranked : position wire.name pref.order ≡ some rank
  pub made : row_at segment wire rank ≡ row

ranked_row-rank :
    (r : Segment) (w : Wire) (o : Option HostZonePref) (row : ClassRow)
    → ranked_row r w o ≡ some row
    → (p : HostZonePref) × (rank : ℕ) × (o ≡ some p)
      × (position w.name p.order ≡ some rank)
      × (row_at r w rank ≡ row)
unfolding ranked_row
ranked_row-rank r w none row h = absurd (ground (arith, h))
ranked_row-rank r w (some p) row h = elim (Option-cases (position w.name p.order)) [
  | inl e ↦ absurd (ground (arith, rw e at h))
  | inr (rank, e) ↦ (p, rank, refl, e, ground (arith, rw e at h))
]

Origin-later :
    (prefs : List HostZonePref) (m : Member) (r : Segment) (rs : List Segment) (row : ClassRow)
    → Origin prefs m rs row
    → Origin prefs m (r ∷ rs) row
Origin-later prefs m r rs row o = record {
  segment = o.segment;
  wire = o.wire;
  domain = o.domain;
  pref = o.pref;
  rank = o.rank;
  listed = inr o.listed;
  its_domain = o.its_domain;
  on_wire = o.on_wire;
  preferred = o.preferred;
  ranked = o.ranked;
  made = o.made;
}

abbrev InRows : ClassRow → Option (List ClassRow) → Type 0
InRows row none = ⊥
InRows row (some rows) = In row rows

class_rows_from-Origin :
    (prefs : List HostZonePref) (m : Member) (rs : List Segment) (row : ClassRow)
    → InRows row (class_rows_from prefs m rs)
    → Origin prefs m rs row
unfolding class_rows_from
class_rows_from-Origin prefs m [] row i = absurd i
class_rows_from-Origin prefs m (r ∷ rs) row i =
    elim (Option-cases (wire_of (domain_of r.scope) m)) [
      | inl e ↦
          Origin-later prefs m r rs row
            (class_rows_from-Origin prefs m rs row (rw (e, class_rows_from) at i))
      | inr (w, e) ↦
          from_wire w e (class_rows_from-Origin prefs m rs row) (rw (e, class_rows_from) at i)
    ]
  where
    pref_here : Option HostZonePref
    pref_here = find (λ (p : HostZonePref). key_eq p.zone r.zone) prefs

    from_row :
        (w : Wire) (row' : ClassRow)
        → wire_of (domain_of r.scope) m ≡ some w
        → ranked_row r w pref_here ≡ some row'
        → row' ≡ row
        → Origin prefs m (r ∷ rs) row
    from_row w row' e f same =
        let (p, rank, found, at, made) = ranked_row-rank r w pref_here row' f in
        elim (Option-cases (domain_of r.scope)) [
          | inl on ↦ absurd (ground (arith, on, e))
          | inr (d, on) ↦ record {
            segment = r;
            wire = w;
            domain = d;
            pref = p;
            rank = rank;
            listed = inl refl;
            its_domain = on;
            on_wire = ground (arith, on, e);
            preferred = found;
            ranked = at;
            made = made ∙ same;
          }
        ]

    from_wire :
        (w : Wire)
        → wire_of (domain_of r.scope) m ≡ some w
        → (InRows row (class_rows_from prefs m rs) → Origin prefs m rs row)
        → InRows row (
            ranked_row r w pref_here
            >>= (λ x. class_rows_from prefs m rs >>= (λ xs. some (x ∷ xs))))
        → Origin prefs m (r ∷ rs) row
    from_wire w e from_rest i = elim (Option-cases (ranked_row r w pref_here)) [
      | inl f ↦ absurd (rw f at i)
      | inr (row', f) ↦ elim (Option-cases (class_rows_from prefs m rs)) [
        | inl g ↦ absurd (rw (f, g) at i)
        | inr (rows, g) ↦ elim (rw (f, g) at i) [
          | inl same ↦ from_row w row' e f same
          | inr later ↦ Origin-later prefs m r rs row (from_rest (rw g later))
        ]
      ]
    ]

scope_text-domain : (s : SegScope) (d : DomainId) → domain_of s ≡ some d → scope_text s ≡ d
scope_text-domain (on_domain e) d h = ground (arith, h)
scope_text-domain universal d h = absurd (ground (arith, h))

pair_path : (a a' b b' : String) → a ≡ a' → b ≡ b' → ◌≡◌ {A = String × String} (a, b) (a', b')
pair_path a a' b b' p q = ap (λ x. (x, b)) p ∙ ap (λ y. (a', y)) q

-- On one member of an accepted fabric, whose wires have names of their own, no two segments of a zone
-- cost the same: the zone and the cost of a row say which row it is.
pub cost_tells :
    (f : Fabric) (m : Member) (rows : List ClassRow) (row row' : ClassRow)
    → validate f ≡ pass
    → Distinct (map (λ (w : Wire). w.name) m.wires)
    → class_rows_of f m ≡ some rows
    → In row rows
    → In row' rows
    → row.zone ≡ row'.zone
    → row.ospf_cost ≡ row'.ospf_cost
    → row ≡ row'
unfolding class_rows_of
cost_tells f m rows row row' h names derived i i' zone cost =
    let v = Blocks-IsSound f pass (validate-Blocks f h) in
    let o = class_rows_from-Origin (prefs_of f m) m f.segments row (rw derived i) in
    let o' = class_rows_from-Origin (prefs_of f m) m f.segments row' (rw derived i') in
    let zones : o.segment.zone ≡ o'.segment.zone =
      ap (λ (r : ClassRow). r.zone) o.made ∙ zone ∙ sym (ap (λ (r : ClassRow). r.zone) o'.made) in
    let same_pref : o.pref ≡ o'.pref = ground (
      arith,
      subst
          (λ (n : String).
            find (λ (p : HostZonePref). key_eq p.zone n) (prefs_of f m) ≡ some o.pref)
          zones o.preferred,
      o'.preferred,
    ) in
    let ranks = ladder_cost-injective o.rank o'.rank (
      ap (λ (r : ClassRow). r.ospf_cost) o.made
      ∙ cost
      ∙ sym (ap (λ (r : ClassRow). r.ospf_cost) o'.made)) in
    let wire_names =
      position-injective o.wire.name o'.wire.name o'.pref.order o'.rank
        (subst (λ (p : HostZonePref). position o.wire.name p.order ≡ some o'.rank) same_pref
          (o.ranked ∙ ap some ranks))
        o'.ranked in
    let (on, there) =
      find-holds (λ (w : Wire). key_eq w.domain o.domain) m.wires o.wire o.on_wire in
    let (on', there') =
      find-holds (λ (w : Wire). key_eq w.domain o'.domain) m.wires o'.wire o'.on_wire in
    let wires =
      Distinct-injective (λ (w : Wire). w.name) m.wires o.wire o'.wire names there there'
        wire_names in
    let domains : o.domain ≡ o'.domain =
      sym ((key_eq_iff o.wire.domain o.domain).0 on)
      ∙ ap (λ (w : Wire). w.domain) wires
      ∙ (key_eq_iff o'.wire.domain o'.domain).0 on' in
    let scopes =
      scope_text-domain o.segment.scope o.domain o.its_domain
      ∙ domains
      ∙ sym (scope_text-domain o'.segment.scope o'.domain o'.its_domain) in
    let segments =
      Distinct-injective {K = String × String} (λ (s : Segment). (s.zone, scope_text s.scope))
        f.segments o.segment o'.segment v.scopes o.listed o'.listed
        (pair_path _ _ _ _ zones scopes) in
    sym o.made
    ∙ ap (λ (r : Segment). row_at r o.wire o.rank) segments
    ∙ ap (λ (w : Wire). row_at o'.segment w o.rank) wires
    ∙ ap (λ n. row_at o'.segment o'.wire n) ranks
    ∙ o'.made
