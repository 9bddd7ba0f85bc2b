-- ===== src/Model/Derive/Named.antt =====
-- A member's orders name its own wires (src/model.rs, src/derive.rs).
use Prim.Native.String.{String}
use cfab.Prelude.{
  ◌≡◌, subst, inl, inr, Bool, true, not, ◌&&◌, List, [], ◌∷◌, ◌++◌, map, Option, some, All,
  All-mono, In, arith, any, filter, if-both, Option-cases, leb,
}
use cfab.Prelude.BTreeMap.{string_ord, key_eq, key_eq_iff, key_eq_refl}
use cfab.Model.{
  DomainId, Wire, Member, Zone, WirePref, Fabric, find, is_some, member, wire_named, wire_pref,
  candidate_wires, is_segment,
}
use cfab.Model.Find.{find-holds, All-In, find-Distinct}
use cfab.Model.Derive.{
  name_list, insert_by_speed, sort_by_speed, derived_order, HostZonePref, pref_of, prefs_of,
}
use cfab.Model.Validate.Accepted.{IsSound, check_wire_pref-wires}

-- The name is one of the member's wires.
abbrev pub IsNamed : Member → String → Type 0
IsNamed m n = is_some (wire_named n m) ≡ true

module _ (P : Wire → Type 0) where
  All-filter : (q : Wire → Bool) (ws : List Wire) → All P ws → All P (filter q ws)
  All-filter q [] a = tt
  All-filter q (w ∷ ws) a =
      if-both (All P) (q w) _ _ (a.0, All-filter q ws a.1) (All-filter q ws a.1)

  All-insert_by_speed : (w : Wire) (ws : List Wire) → P w → All P ws → All P (insert_by_speed w ws)
  All-insert_by_speed w [] p a = (p, tt)
  All-insert_by_speed w (x ∷ xs) p a =
      if-both (All P) (leb x.speed_mbps w.speed_mbps) _ _ (p, a)
        (a.0, All-insert_by_speed w xs p a.1)

  All-sort_by_speed : (ws : List Wire) → All P ws → All P (sort_by_speed ws)
  All-sort_by_speed [] a = tt
  All-sort_by_speed (w ∷ ws) a =
      All-insert_by_speed w (sort_by_speed ws) a.0 (All-sort_by_speed ws a.1)

All-names :
    (Q : String → Type 0) (ws : List Wire)
    → All (λ (w : Wire). Q w.name) ws
    → All Q (map (λ (w : Wire). w.name) ws)
All-names Q [] a = tt
All-names Q (w ∷ ws) a = (a.0, All-names Q ws a.1)

All-then : (Q : String → Type 0) (xs ys : List String) → All Q xs → All Q ys → All Q (xs ++ ys)
All-then Q [] ys a b = b
All-then Q (x ∷ xs) ys a b = (a.0, All-then Q xs ys a.1 b)

-- Each wire of a list is found by its name.
own_names :
    (ws : List Wire)
    → All (λ (w : Wire). is_some (find (λ (x : Wire). key_eq x.name w.name) ws) ≡ true) ws
own_names [] = tt
own_names (w ∷ ws) =
    (ground (arith, key_eq_refl w.name), All-mono _ _ ws (λ x h. ground (arith, h)) (own_names ws))

name_list-IsNamed :
    (m : Member) (d : DomainId) (ws : List Wire)
    → All (λ (w : Wire). IsNamed m w.name) ws
    → All (IsNamed m) (name_list (find (λ (w : Wire). key_eq w.domain d) ws))
name_list-IsNamed m d [] a = tt
name_list-IsNamed m d (w ∷ ws) a =
    if-both (λ (o : Option Wire). All (IsNamed m) (name_list o)) (key_eq w.domain d) _ _ (a.0, tt)
      (name_list-IsNamed m d ws a.1)

derived_order-IsNamed :
    (m : Member) (z : Zone) (ws : List Wire)
    → All (λ (w : Wire). IsNamed m w.name) ws
    → All (IsNamed m) (derived_order z ws)
unfolding derived_order
derived_order-IsNamed m z ws a = All-then (IsNamed m) _ _ (name_list-IsNamed m z.primary ws a) (
    All-names (IsNamed m) _ (
      All-sort_by_speed (λ (w : Wire). IsNamed m w.name) _
        (All-filter (λ (w : Wire). IsNamed m w.name) (λ (w : Wire). not (key_eq w.domain z.primary))
          ws a)))

-- Each name in the order of a zone is one of the member's wires.
pub pref_of-IsNamed :
    (f : Fabric) (m : Member) (z : Zone)
    → IsSound f
    → In m f.members
    → All (IsNamed m) (pref_of f m z).order
unfolding pref_of
pref_of-IsNamed f m z v im = elim (Option-cases (wire_pref m.name z.name f)) [
  | inl e ↦
      rw (e, pref_of)
        (derived_order-IsNamed m z (candidate_wires z.name m f) (
          All-filter (λ (w : Wire). IsNamed m w.name)
            (λ (w : Wire). any (is_segment z.name w.domain) f.segments) m.wires
            (own_names m.wires)))
  | inr (p, e) ↦
      let (here, ip) =
        find-holds (λ (p : WirePref). key_eq p.member m.name && key_eq p.zone z.name) f.wire_prefs p
          e in
      let whose : m.name ≡ p.member = ground (arith, here, key_eq_iff p.member m.name) in
      let found =
        subst (λ (n : String). member n f ≡ some m) whose
          (find-Distinct (λ (x : Member). x.name) f.members m v.members im) in
      rw (e, pref_of)
        (check_wire_pref-wires p m f (rw found at (All-In _ f.wire_prefs p v.prefs ip)))
]

-- So does each of the member's preferences.
pub prefs_of-IsNamed :
    (f : Fabric) (m : Member)
    → IsSound f
    → In m f.members
    → All (λ (p : HostZonePref). All (IsNamed m) p.order) (prefs_of f m)
unfolding prefs_of
prefs_of-IsNamed f m v im = each_zone f.zones
  where
    each_zone :
        (zs : List Zone)
        → All (λ (p : HostZonePref). All (IsNamed m) p.order) (map (pref_of f m) zs)
    each_zone [] = tt
    each_zone (z ∷ zs) = (pref_of-IsNamed f m z v im, each_zone zs)
