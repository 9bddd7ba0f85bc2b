-- ===== src/Model/Derived.antt =====
-- `validate_derived` of src/derive.rs: what can only be seen once the costs are derived.
pub mod Calm
use Prim.Native.String.{String}
use cfab.Prelude.{
  ℕ, ◌+◌, Bool, true, false, not, ◌&&◌, List, [], ◌∷◌, Option, none, some, ltb, leb, any,
  if◌then◌else◌,
}
use cfab.Prelude.BTreeMap.{string_ord, key_eq}
use cfab.Model.{
  DomainId, is_universal, is_host, Wire, Member, Zone, Segment, Fabric, is_some, find, wire_on,
  wire_named,
}
use cfab.Model.Checks.{Checked, pass, refused, panicked, ◌>>◌, refuse_if, each}
use cfab.Model.Refusals.{Check, universal_cost_high, rank0_unshared}
use cfab.Model.Paths.{check_no_equal_cost_paths}
use cfab.Model.Derive.{HostZonePref, prefs_of, universal_cost}

abbrev pub has_universal : Fabric → Zone → Bool
has_universal f z = any (λ (s : Segment). key_eq s.zone z.name && is_universal s.scope) f.segments

abbrev pub cost_below : ℕ → Zone → Option ℕ → Check
cost_below offset z none = panicked
cost_below offset z (some cost) = refuse_if (leb offset cost) (universal_cost_high z.name cost)

unfoldable pub check_universal_cost : Fabric → Zone → Check
check_universal_cost f z =
    if has_universal f z then cost_below f.leaf_cost_offset z (universal_cost f z.name) else pass

-- `shared`: another member has a wire on the domain.
abbrev pub is_shared : Fabric → Member → DomainId → Bool
is_shared f m d =
    any (λ (x : Member). not (key_eq x.name m.name) && is_some (wire_on d x)) f.members

-- Whether a wire of the member, by its name, is on a shared domain. None: a panic.
abbrev pub shared_wire : Fabric → Member → String → Option Bool
shared_wire f m name = elim (wire_named name m) [
  | none ↦ none
  | some w ↦ some (is_shared f m w.domain)
]

-- `skip(1).find(..)`: a wire ranked below the first that reaches a peer.
unfoldable pub find_reaching : Fabric → Member → String → List String → Check
find_reaching f m zone [] = pass
find_reaching f m zone (w ∷ ws) = elim (shared_wire f m w) [
  | none ↦ panicked
  | some true ↦ refused (rank0_unshared zone m.name)
  | some false ↦ find_reaching f m zone ws
]

unfoldable pub check_order : Fabric → Member → String → List String → Check
unfolding find_reaching
check_order f m zone [] = pass
check_order f m zone (first ∷ rest) = elim (shared_wire f m first) [
  | none ↦ panicked
  | some true ↦ pass
  | some false ↦ find_reaching f m zone rest
]

abbrev pub check_pref : Fabric → Member → String → Option HostZonePref → Check
check_pref f m zone none = pass
check_pref f m zone (some p) = check_order f m zone p.order

unfoldable pub check_rank0_is_shared : Fabric → String → Check
check_rank0_is_shared f zone =
    each
      (λ (m : Member).
        if is_host m.kind
        then check_pref f m zone (find (λ (p : HostZonePref). key_eq p.zone zone) (prefs_of f m))
        else pass)
      f.members

unfoldable pub validate_derived : Fabric → Check
unfolding check_universal_cost check_rank0_is_shared check_no_equal_cost_paths
validate_derived f =
    each (check_universal_cost f) f.zones
    >> each (λ (z : Zone). check_rank0_is_shared f z.name >> check_no_equal_cost_paths f z.name)
        f.zones
