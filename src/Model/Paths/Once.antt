-- ===== src/Model/Paths/Once.antt =====
-- An accepted fabric has no two shortest ways from one member to another (src/derive.rs).
use Prim.Native.String.{String}
use cfab.Prelude.{ℕ, suc, ◌*◌, ◌^◌, ◌<◌, ◌≡◌, ◌≢◌, List, some, In, All-mono, arith, length, subst}
use cfab.Prelude.BTreeMap.{string_ord}
use cfab.Model.{Member, Zone, Fabric}
use cfab.Model.Checks.{pass, >>-pass, each, each-pass}
use cfab.Model.Find.{All-In}
use cfab.Model.Paths.{Edge, edges, check_from, check_paths, check_no_equal_cost_paths, rounds}
use cfab.Model.Paths.Costs.{Fits, edges-Costs}
use cfab.Model.Paths.Unique.{EndsShortest, check_from_unique}
use cfab.Model.Derived.{check_universal_cost, check_rank0_is_shared, validate_derived}
use cfab.Model.Validate.{validate}
use cfab.Model.Validate.Accepted.{validate-Blocks}

validate_derived-paths :
    (f : Fabric) (z : Zone)
    → validate_derived f ≡ pass
    → In z f.zones
    → check_no_equal_cost_paths f z.name ≡ pass
unfolding validate_derived
validate_derived-paths f z h i =
    let (_, later) = >>-pass (each (check_universal_cost f) f.zones) _ h in
    let both = All-In _ f.zones z (each-pass _ f.zones later) i in
    (>>-pass (check_rank0_is_shared f z.name) _ both).1

check_no_equal_cost_paths-from :
    (f : Fabric) (zone : String) (es : List Edge) (m : Member)
    → check_no_equal_cost_paths f zone ≡ pass
    → edges f zone ≡ some es
    → In m f.members
    → check_from f zone es m.name ≡ pass
unfolding check_no_equal_cost_paths
check_no_equal_cost_paths-from f zone es m h e i =
    let there : check_paths f zone (some es) ≡ pass =
      subst (λ o. check_paths f zone o ≡ pass) e h in
    All-In _ f.members m (each-pass (λ (m : Member). check_from f zone es m.name) f.members there) i

-- In no zone of an accepted fabric does a member reach another over two shortest ways: in the zone's
-- graph, two edges that both end a shortest route from the one to the other are the same. No row or
-- bond leg costs more than `most` with a leaf's offset added, and as many times `most` as the search has
-- rounds is less than 2 ^ 32, so that no sum of costs wraps.
pub accepted_reach_once :
    (f : Fabric) (z : Zone) (es : List Edge) (most : ℕ) (m : Member) (x : String) (e e' : Edge)
    → validate f ≡ pass
    → In z f.zones
    → In m f.members
    → edges f z.name ≡ some es
    → ((m : Member) → In m f.members → Fits most f m)
    → rounds es * most < 2 ^ 32
    → x ≢ m.name
    → EndsShortest f m.name es x e
    → EndsShortest f m.name es x e'
    → e ≡ e'
accepted_reach_once f z es most m x e e' h iz im graph fits small other w w' =
    let paths = validate_derived-paths f z (validate-Blocks f h).derived iz in
    let below : most < 2 ^ 32 = at_most (length es) most small in
    let costs = edges-Costs most f below z.name fits es graph in
    check_from_unique f z.name es most m.name x e e' (All-mono _ _ es (λ y p. p.0) costs)
      (All-mono _ _ es (λ y p. p.1) costs) small
      (check_no_equal_cost_paths-from f z.name es m paths graph im) other w w'
  where
    at_most : (n m : ℕ) → suc (suc n) * m < 2 ^ 32 → m < 2 ^ 32
    at_most n m h = omega (arith, h)
