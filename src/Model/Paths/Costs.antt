-- ===== src/Model/Paths/Costs.antt =====
-- Every edge of a zone's graph costs something, and no more than a bound on its sum (src/derive.rs).
use Prim.Native.String.{String}
use cfab.Prelude.Gives.{
  Gives, some-Gives, >>=-Gives, map_all-Gives, map-Gives, Held, All-present, everywhere,
}
use cfab.Prelude.{
  All-++, All-map, ℕ, ◌+◌, ◌^◌, ◌<◌, ◌≤◌, ◌≡◌, refl, In, inl, inr, List, [], ◌∷◌, Option, none,
  some, All, arith, filter, if-both, All-mono, Option-cases, map_all, present,
}
use cfab.Prelude.BTreeMap.{string_ord, key_eq}
use cfab.Model.{Member, Wire, Segment, Fabric, domain_of, is_universal}
use cfab.Model.Derive.{
  ClassRow, FallbackRow, HostZonePref, Port, wire_of, position, ranked_row, class_rows_from,
  class_rows_of, segment_cost, is_leg_of, sum, ladder_step, ports_of, home_wire, or_first,
  universal_cost, leg_at_home, fallback_row, fallback_rows_of,
}
use cfab.Model.Paths.{Edge, edges_to, edges_of, edges, concat, add_u32, offset_of}
use cfab.Model.Paths.Ends.{All-filter}

module _ {A : Type 0} (P : A → Type 0) where
  All-concat : (xss : List (List A)) → All (All P) xss → All P (concat xss)
  All-concat [] a = tt
  All-concat (xs ∷ xss) a = All-++ P xs (concat xss) a.0 (All-concat xss a.1)

abbrev RowCosts : ClassRow → Type 0
RowCosts r = 0 < r.ospf_cost

abbrev LegCosts : FallbackRow → Type 0
LegCosts r = 0 < r.ospf_cost

ranked_row-costs :
    (r : Segment) (w : Wire) (p : Option HostZonePref) → Gives RowCosts (ranked_row r w p)
unfolding ranked_row
ranked_row-costs r w none = λ a e. absurd (ground (arith, e))
ranked_row-costs r w (some p) =
    map-Gives (λ _. Unit) RowCosts _ (position w.name p.order) (λ _ _. tt) λ rank _. ground arith

class_rows_from-costs :
    (prefs : List HostZonePref) (m : Member) (rs : List Segment)
    → Gives (All RowCosts) (class_rows_from prefs m rs)
unfolding class_rows_from
class_rows_from-costs prefs m [] = some-Gives (All RowCosts) [] tt
class_rows_from-costs prefs m (r ∷ rs) = elim (Option-cases (wire_of (domain_of r.scope) m)) [
  | inl e ↦ rw (e, class_rows_from) (class_rows_from-costs prefs m rs)
  | inr (w, e) ↦
      rw (e, class_rows_from)
        (>>=-Gives RowCosts (All RowCosts) _ _ (ranked_row-costs r w _) λ row p.
          >>=-Gives (All RowCosts) (All RowCosts) (class_rows_from prefs m rs) _
            (class_rows_from-costs prefs m rs)
            λ rows ps. some-Gives (All RowCosts) (row ∷ rows) (p, ps))
]

class_rows_of-costs : (f : Fabric) (m : Member) → Gives (All RowCosts) (class_rows_of f m)
unfolding class_rows_of
class_rows_of-costs f m = class_rows_from-costs _ m f.segments

universal_cost-costs : (f : Fabric) (zone : String) → Gives (λ n. 0 < n) (universal_cost f zone)
unfolding universal_cost
universal_cost-costs f zone =
    >>=-Gives {A = List ℕ} (λ _. Unit) (λ n. 0 < n)
      (map_all (segment_cost f) (filter (is_leg_of zone) f.segments)) _ (λ _ _. tt)
      λ costs _. some-Gives (λ n. 0 < n) (sum costs + ladder_step) (omega arith)

leg_at_home-costs :
    (f : Fabric) (r : Segment) (ports : List Port) (home : Option String)
    → Gives (Held LegCosts) (leg_at_home f r ports home)
unfolding leg_at_home Held
leg_at_home-costs f r ports none = some-Gives (Held LegCosts) none tt
leg_at_home-costs f r ports (some home) =
    >>=-Gives (λ n. 0 < n) (Held LegCosts) (universal_cost f r.zone) _
      (universal_cost-costs f r.zone) λ cost p. some-Gives (Held LegCosts) _ p

fallback_row-costs :
    (f : Fabric) (m : Member) (r : Segment) → Gives (Held LegCosts) (fallback_row f m r)
unfolding fallback_row
fallback_row-costs f m r =
    let ports = ports_of m r.ifname in
    >>=-Gives {A = Option String} (λ _. Unit) (Held LegCosts) (home_wire f m r.zone) _ (λ _ _. tt)
      λ home _. leg_at_home-costs f r ports (or_first home ports)

fallback_rows_of-costs : (f : Fabric) (m : Member) → Gives (All LegCosts) (fallback_rows_of f m)
unfolding fallback_rows_of
fallback_rows_of-costs f m =
    map-Gives (All (Held LegCosts)) (All LegCosts) present (map_all (fallback_row f m) universals)
      (map_all-Gives (Held LegCosts) (fallback_row f m) universals
        (everywhere _ (fallback_row-costs f m) universals))
      (All-present LegCosts)
  where
    universals : List Segment
    universals = filter (λ (s : Segment). is_universal s.scope) f.segments

-- No row and no bond leg of a member costs more than `most`, with the offset of a leaf added.
abbrev pub Fits : ℕ → Fabric → Member → Type 0
Fits most f m =
    Gives (All (λ (r : ClassRow). r.ospf_cost + offset_of f m ≤ most)) (class_rows_of f m)
    × Gives (All (λ (r : FallbackRow). r.ospf_cost + offset_of f m ≤ most)) (fallback_rows_of f m)

from_each : {A : Type 0} (P : A → Type 0) (xs : List A) → ((x : A) → In x xs → P x) → All P xs
from_each P [] h = tt
from_each P (x ∷ xs) h = (h x (inl refl), from_each P xs (λ y i. h y (inr i)))

All-both :
    {A : Type 0} (P Q : A → Type 0) (xs : List A) → All P xs → All Q xs → All (λ x. P x × Q x) xs
All-both P Q [] a b = tt
All-both P Q (x ∷ xs) a b = ((a.0, b.0), All-both P Q xs a.1 b.1)

module _ (most : ℕ) (f : Fabric) (small : most < 2 ^ 32) where
  abbrev pub Costs : Edge → Type 0
  Costs e = (0 < e.cost) × (e.cost ≤ most)

  abbrev Row : Member → ClassRow → Type 0
  Row m r = (0 < r.ospf_cost) × (r.ospf_cost + offset_of f m ≤ most)

  abbrev Bond : Member → FallbackRow → Type 0
  Bond m r = (0 < r.ospf_cost) × (r.ospf_cost + offset_of f m ≤ most)

  -- Such a sum does not wrap.
  sum-Costs : (a b : ℕ) → 0 < a → a + b ≤ most → (0 < add_u32 a b) × (add_u32 a b ≤ most)
  sum-Costs a b p le =
      let same : add_u32 a b ≡ a + b = omega (arith, le, small) in
      (omega (arith, same, p), omega (arith, same, le))

  edges_to-Costs :
      (zone : String) (m : Member) (rows : List ClassRow) (legs : List FallbackRow) (other : Member)
      → All (Row m) rows
      → All (Bond m) legs
      → Gives (All Costs) (edges_to f zone m rows legs other)
  unfolding edges_to
  edges_to-Costs zone m rows legs other a b =
      if-both (Gives (All Costs)) (key_eq other.name m.name) _ _ (some-Gives (All Costs) [] tt) (
        >>=-Gives (λ _. Unit) (All Costs) (class_rows_of f other) _ (λ _ _. tt)
          λ theirs _. some-Gives (All Costs) _ (
            All-++ Costs _ _
              (All-map Costs _ _ (
                All-mono _ _ _
                  (λ (r : ClassRow) (p : Row m r). sum-Costs r.ospf_cost (offset_of f m) p.0 p.1)
                  (All-filter (Row m) _ rows a)))
              (All-map Costs _ _ (
                All-mono _ _ legs
                  (λ (r : FallbackRow) (p : Bond m r).
                    sum-Costs r.ospf_cost (offset_of f m) p.0 p.1)
                  b))))

  edges_of-Costs :
      (zone : String) (m : Member) → Fits most f m → Gives (All Costs) (edges_of f zone m)
  unfolding edges_of
  edges_of-Costs zone m (rows_fit, legs_fit) =
      >>=-Gives (All (Row m)) (All Costs) (class_rows_of f m) _
        (λ rows e. All-both _ _ rows (class_rows_of-costs f m rows e) (rows_fit rows e))
        λ rows a.
          >>=-Gives (All (Bond m)) (All Costs) (fallback_rows_of f m) _
            (λ legs e. All-both _ _ legs (fallback_rows_of-costs f m legs e) (legs_fit legs e))
            λ legs b.
              >>=-Gives (All (All Costs)) (All Costs) _ _
                (map_all-Gives (All Costs) _ f.members (
                  everywhere _
                    (λ other.
                      edges_to-Costs zone m _ _ other (All-filter (Row m) _ rows a)
                        (All-filter (Bond m) _ legs b))
                    f.members))
                λ es p. some-Gives (All Costs) _ (All-concat Costs es p)

  pub edges-Costs :
      (zone : String)
      → ((m : Member) → In m f.members → Fits most f m)
      → Gives (All Costs) (edges f zone)
  unfolding edges
  edges-Costs zone fits =
      map-Gives (All (All Costs)) (All Costs) concat _
        (map_all-Gives (All Costs) (edges_of f zone) f.members
          (from_each _ f.members λ m i. edges_of-Costs zone m (fits m i)))
        (All-concat Costs)
