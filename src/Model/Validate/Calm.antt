-- ===== src/Model/Validate/Calm.antt =====
-- `Fabric::validate` does not panic (src/model.rs, src/derive.rs).
use Prim.Native.String.{String}
use cfab.Prelude.{ℕ, ◌≡◌, true, List, [], ◌∷◌, Option, none, some, All, arith}
use cfab.Prelude.BTreeMap.{string_ord, nat_ord, pair_ord}
use cfab.Model.{DomainId, Member, Zone, ZoneGw, WirePref, Fabric, is_some, member, router_octet}
use cfab.Model.Checks.{
  each, IsCalm, passes, refuses, >>-IsCalm, both-IsCalm, each-IsCalm, each-In-IsCalm,
  refuse_if-IsCalm, refuse_some-IsCalm,
}
use cfab.Model.Find.{All-In}
use cfab.Model.Derived.Calm.{validate_derived-IsCalm}
use cfab.Model.Validate.Accepted.{blocks-IsSound}
use cfab.Model.Rows.Calm.{check_rows-IsCalm, check_member_rows-IsCalm, check_addresses-IsCalm}
use cfab.Model.Validate.{
  check_member_wires, check_domains, check_segments, check_zones, check_members, check_order_of,
  check_wire_pref, check_wire_prefs, check_forward_allow, check_router, check_gw, validate,
}

ruleset calm = (both-IsCalm, each-IsCalm, refuse_if-IsCalm, refuse_some-IsCalm, passes, refuses)

check_member_wires-IsCalm : (ds : List DomainId) (m : Member) → IsCalm (check_member_wires ds m)
unfolding check_member_wires
check_member_wires-IsCalm ds m = search (calm)

check_domains-IsCalm : (f : Fabric) → IsCalm (check_domains f)
unfolding check_domains
check_domains-IsCalm f = search (calm, check_member_wires-IsCalm) depth 12

check_segments-IsCalm : (f : Fabric) → IsCalm (check_segments f)
unfolding check_segments
check_segments-IsCalm f = search (calm) depth 12

check_zones-IsCalm : (f : Fabric) → IsCalm (check_zones f)
unfolding check_zones
check_zones-IsCalm f = search (calm) depth 12

check_members-IsCalm : (f : Fabric) → IsCalm (check_members f)
unfolding check_members
check_members-IsCalm f = search (calm)

check_order_of-IsCalm : (p : WirePref) (m : Member) (f : Fabric) → IsCalm (check_order_of p m f)
unfolding check_order_of
check_order_of-IsCalm p m f = search (calm) depth 12

check_wire_pref-IsCalm :
    (p : WirePref) (o : Option Member) (f : Fabric)
    → is_some o ≡ true
    → IsCalm (check_wire_pref p o f)
unfolding check_wire_pref
check_wire_pref-IsCalm p none f h = absurd (ground (arith, h))
check_wire_pref-IsCalm p (some m) f h = check_order_of-IsCalm p m f

check_forward_allow-IsCalm : (f : Fabric) → IsCalm (check_forward_allow f)
unfolding check_forward_allow
check_forward_allow-IsCalm f = search (calm)

-- The router's host octet can be read, as `resolve_gw` makes sure.
abbrev pub HasRouter : Option ZoneGw → Type 0
HasRouter none = Unit
HasRouter (some gw) = is_some (router_octet gw) ≡ true

check_router-IsCalm :
    (zone : String) (ms : List Member) (o : Option ℕ)
    → is_some o ≡ true
    → IsCalm (check_router zone ms o)
check_router-IsCalm zone ms none h = absurd (ground (arith, h))
check_router-IsCalm zone ms (some octet) h = search (calm)

check_gw-IsCalm :
    (f : Fabric) (z : Zone) (o : Option ZoneGw) → HasRouter o → IsCalm (check_gw f z o)
unfolding check_gw
check_gw-IsCalm f z none h = passes
check_gw-IsCalm f z (some gw) h = search (calm, check_router-IsCalm z.name f.members _ h)

-- Every override is of a declared member, as `from_decl` makes them.
abbrev pub AreDeclared : Fabric → Type 0
AreDeclared f = All (λ (p : WirePref). is_some (member p.member f) ≡ true) f.wire_prefs

each_pref-IsCalm :
    (f : Fabric) (ps : List WirePref)
    → All (λ (p : WirePref). is_some (member p.member f) ≡ true) ps
    → IsCalm (each (λ (p : WirePref). check_wire_pref p (member p.member f) f) ps)
each_pref-IsCalm f [] a = passes
each_pref-IsCalm f (p ∷ ps) a =
    both-IsCalm _ _ (check_wire_pref-IsCalm p (member p.member f) f a.0) (each_pref-IsCalm f ps a.1)

check_wire_prefs-IsCalm : (f : Fabric) → AreDeclared f → IsCalm (check_wire_prefs f)
unfolding check_wire_prefs
check_wire_prefs-IsCalm f a = each_pref-IsCalm f f.wire_prefs a

abbrev pub AreRouted : Fabric → Type 0
AreRouted f = All (λ (z : Zone). HasRouter z.gw) f.zones

-- `validate` returns, with or without a refusal: whatever is declared, no lookup that the source
-- expects to succeed fails, as long as each override is of a declared member and each router is an
-- address.
pub validate-IsCalm : (f : Fabric) → AreDeclared f → AreRouted f → IsCalm (validate f)
unfolding validate
validate-IsCalm f a routed = >>-IsCalm _ _ (check_domains-IsCalm f) λ domains.
    >>-IsCalm _ _ (check_segments-IsCalm f) λ segments.
      >>-IsCalm _ _ (check_zones-IsCalm f) λ zones.
        >>-IsCalm _ _ (check_members-IsCalm f) λ members.
          >>-IsCalm _ _ (check_wire_prefs-IsCalm f a) λ prefs.
            both-IsCalm _ _ (check_forward_allow-IsCalm f) (
              both-IsCalm _ _ (check_rows-IsCalm [] f.workloads f) (
                both-IsCalm _ _
                  (each-IsCalm _ f.members λ m. check_member_rows-IsCalm m f [] m.workloads)
                  (both-IsCalm _ _ (check_addresses-IsCalm f) (
                    both-IsCalm _ _
                      (each-In-IsCalm _ f.zones
                        λ z i. check_gw-IsCalm f z z.gw (All-In _ f.zones z routed i))
                      (validate_derived-IsCalm f
                        (blocks-IsSound f segments zones members prefs))))))
