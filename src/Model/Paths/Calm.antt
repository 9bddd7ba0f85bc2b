-- ===== src/Model/Paths/Calm.antt =====
-- The check for paths of equal cost does not panic, and ends (src/derive.rs).
use Prim.Native.String.{String}
use cfab.Prelude.{refl, List, [], In, map_all, if-both}
use cfab.Prelude.BTreeMap.{string_ord, key_eq}
use cfab.Model.{Member, Fabric}
use cfab.Model.Checks.{IsCalm, each-IsCalm, refuse_some-IsCalm}
use cfab.Model.Derive.{ClassRow, FallbackRow, class_rows_of, fallback_rows_of}
use cfab.Model.Derive.Ranked.{class_rows_of-some}
use cfab.Model.Derive.Total.{
  Yields, >>=-Yields, map_all-Yields, map-Yields, fallback_rows_of-Yields,
}
use cfab.Model.Paths.{Edge, edges_to, edges_of, edges, check_from, check_no_equal_cost_paths}
use cfab.Model.Paths.Ends.{begin-Yields}
use cfab.Model.Validate.Accepted.{IsSound}

module _ (f : Fabric) (zone : String) (v : IsSound f) where
  edges_to-Yields :
      (m : Member) (rows : List ClassRow) (legs : List FallbackRow) (other : Member)
      → In other f.members
      → Yields (edges_to f zone m rows legs other)
  unfolding edges_to
  edges_to-Yields m rows legs other i =
      if-both Yields (key_eq other.name m.name) _ _ ([], refl)
        (>>=-Yields (class_rows_of f other) _ (class_rows_of-some f other v i) λ theirs. (_, refl))

  edges_of-Yields : (m : Member) → In m f.members → Yields (edges_of f zone m)
  unfolding edges_of
  edges_of-Yields m i = >>=-Yields (class_rows_of f m) _ (class_rows_of-some f m v i) λ rows.
      >>=-Yields (fallback_rows_of f m) _ (fallback_rows_of-Yields f v m i) λ legs.
        >>=-Yields (map_all (edges_to f zone m _ _) f.members) _
          (map_all-Yields _ f.members (edges_to-Yields m _ _)) λ es. (_, refl)

  edges-Yields : Yields (edges f zone)
  unfolding edges
  edges-Yields = map-Yields _ _ (map_all-Yields (edges_of f zone) f.members edges_of-Yields)

check_from-IsCalm :
    (f : Fabric) (zone : String) (es : List Edge) (src : String) → IsCalm (check_from f zone es src)
check_from-IsCalm f zone es src =
    let (s, e) = begin-Yields f src es in rw e (refuse_some-IsCalm _ _)

pub check_no_equal_cost_paths-IsCalm :
    (f : Fabric) (zone : String) → IsSound f → IsCalm (check_no_equal_cost_paths f zone)
unfolding check_no_equal_cost_paths
check_no_equal_cost_paths-IsCalm f zone v =
    let (es, e) = edges-Yields f zone v in
    rw e (each-IsCalm _ f.members λ m. check_from-IsCalm f zone es m.name)
