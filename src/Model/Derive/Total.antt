-- ===== src/Model/Derive/Total.antt =====
-- Every row of an accepted fabric can be derived (src/model.rs, src/derive.rs).
use Prim.Native.String.{String}
use mathlib.Core.Option
use cfab.Prelude.{
  ◌≡◌, refl, inl, inr, List, [], ◌∷◌, Option, none, some, In, filter, if-both, ◌>>=◌, map_all,
  present,
}
use cfab.Prelude.BTreeMap.{string_ord}
use cfab.Model.{SegScope, on_domain, universal, is_host, Member, Zone, ZoneGw, Segment, Fabric}
use cfab.Model.Checks.{pass}
use cfab.Model.Derive.{
  Port, class_rows_of, ports_of, home_wire, segment_cost, is_leg_of, universal_cost, or_first,
  leg_at_home, fallback_row, fallback_rows_of, gw_home, gw_row, gw_rows_of,
}
use cfab.Model.Derive.Ranked.{class_rows_of-some}
use cfab.Model.Validate.{validate}
use cfab.Model.Validate.Accepted.{IsSound, validate-Blocks, Blocks-IsSound}

-- There is a result.
abbrev pub Yields : {A : Type 0} → Option A → Type 0
Yields o = (a : _) × (o ≡ some a)

pub >>=-Yields :
    {A B : Type 0} (o : Option A) (g : A → Option B)
    → Yields o
    → ((a : A) → Yields (g a))
    → Yields (o >>= g)
>>=-Yields o g (a, e) h = rw e (h a)

pub map_all-Yields :
    {A B : Type 0} (g : A → Option B) (xs : List A)
    → ((x : A) → In x xs → Yields (g x))
    → Yields (map_all g xs)
map_all-Yields g [] h = ([], refl)
map_all-Yields g (x ∷ xs) h =
    >>=-Yields (g x) _ (h x (inl refl))
      λ y. >>=-Yields (map_all g xs) _ (map_all-Yields g xs λ z i. h z (inr i)) λ ys. (y ∷ ys, refl)

pub map-Yields : {A B : Type 0} (g : A → B) (o : Option A) → Yields o → Yields (Option.map g o)
map-Yields g o (a, e) = (g a, rw e refl)

module _ (f : Fabric) (v : IsSound f) where
  home_wire-Yields : (m : Member) (zone : String) → In m f.members → Yields (home_wire f m zone)
  unfolding home_wire
  home_wire-Yields m zone i =
      >>=-Yields (class_rows_of f m) _ (class_rows_of-some f m v i) λ rows. (_, refl)

  segment_cost-Yields : (s : Segment) → Yields (segment_cost f s)
  unfolding segment_cost
  segment_cost-Yields s =
      >>=-Yields (map_all (class_rows_of f) f.members) _
        (map_all-Yields (class_rows_of f) f.members λ m i. class_rows_of-some f m v i)
        λ rows. (_, refl)

  pub universal_cost-Yields : (zone : String) → Yields (universal_cost f zone)
  unfolding universal_cost
  universal_cost-Yields zone =
      >>=-Yields (map_all (segment_cost f) (filter (is_leg_of zone) f.segments)) _
        (map_all-Yields (segment_cost f) _ λ s i. segment_cost-Yields s) λ costs. (_, refl)

  leg_at_home-Yields :
      (r : Segment) (ports : List Port) (o : Option String) → Yields (leg_at_home f r ports o)
  unfolding leg_at_home
  leg_at_home-Yields r ports none = (none, refl)
  leg_at_home-Yields r ports (some home) =
      >>=-Yields (universal_cost f r.zone) _ (universal_cost-Yields r.zone) λ cost. (_, refl)

  fallback_row-Yields : (m : Member) (r : Segment) → In m f.members → Yields (fallback_row f m r)
  unfolding fallback_row
  fallback_row-Yields m r i =
      >>=-Yields (home_wire f m r.zone) _ (home_wire-Yields m r.zone i)
        λ home. leg_at_home-Yields r (ports_of m r.ifname) (or_first home (ports_of m r.ifname))

  pub fallback_rows_of-Yields : (m : Member) → In m f.members → Yields (fallback_rows_of f m)
  unfolding fallback_rows_of
  fallback_rows_of-Yields m i =
      map-Yields present _ (map_all-Yields (fallback_row f m) _ λ s _. fallback_row-Yields m s i)

  gw_home-Yields :
      (m : Member) (z : Zone) (s : SegScope) → In m f.members → Yields (gw_home f m z s)
  unfolding gw_home
  gw_home-Yields m z (on_domain d) i = (_, refl)
  gw_home-Yields m z universal i =
      >>=-Yields (home_wire f m z.name) _ (home_wire-Yields m z.name i) λ home. (_, refl)

  gw_row-Yields :
      (m : Member) (z : Zone) (gw : Option ZoneGw) → In m f.members → Yields (gw_row f m z gw)
  unfolding gw_row
  gw_row-Yields m z none i = (none, refl)
  gw_row-Yields m z (some gw) i =
      >>=-Yields (gw_home f m z gw.scope) _ (gw_home-Yields m z gw.scope i) λ home. (_, refl)

  gw_rows_of-Yields : (m : Member) → In m f.members → Yields (gw_rows_of f m)
  unfolding gw_rows_of
  gw_rows_of-Yields m i =
      if-both Yields (is_host m.kind) _ _
        (map-Yields present _ (
          map_all-Yields (λ (z : Zone). gw_row f m z z.gw) f.zones λ z _. gw_row-Yields m z z.gw i))
        ([], refl)

-- Of a fabric that the checks accept, each member's segment rows, bond legs and ingresses, and each
-- zone's universal cost, are derived without a panic: every wire that carries a segment is in its
-- zone's order, whether that was derived or overridden.
pub accepted-Yields :
    (f : Fabric) (m : Member) (zone : String)
    → validate f ≡ pass
    → In m f.members
    → Yields (class_rows_of f m)
      × Yields (fallback_rows_of f m)
      × Yields (gw_rows_of f m)
      × Yields (universal_cost f zone)
accepted-Yields f m zone h i =
    let v = Blocks-IsSound f pass (validate-Blocks f h) in
    (
      class_rows_of-some f m v i,
      fallback_rows_of-Yields f v m i,
      gw_rows_of-Yields f v m i,
      universal_cost-Yields f v zone,
    )
