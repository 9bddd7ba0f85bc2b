-- ===== src/Model/Validate/Accepted.antt =====
-- What a fabric that `Fabric::validate` accepts has (src/model.rs).
use Prim.Native.String.{String, len}
use cfab.Prelude.{
  ℕ, ◌≤◌, ltb, filter, ◌≡◌, true, false, not, List, [], ◌∷◌, map, some, All, All-mono, Bool, arith,
}
use cfab.Prelude.BTreeMap.{string_ord, nat_ord, pair_ord, key_eq_iff}
use cfab.Model.{
  Wire, Member, Zone, Segment, WirePref, Fabric, is_some, is_universal, member, zone, wire_named,
  candidate_wires,
}
use cfab.Model.Checks.{
  pass, refuse_if, each, is_in, dup, Distinct, >>-pass, each-pass, refuse_if-pass, refuse_some-pass,
  dup-none,
}
use cfab.Model.Refusals.{Check, unknown_zone, prefs_wire, prefs_twice, prefs_incomplete}
use cfab.Model.Rows.{check_rows, check_member_rows, check_addresses}
use cfab.Model.Derived.{validate_derived}
use cfab.Model.Validate.{
  check_domains, check_segments, check_zones, check_members, check_order_of, check_wire_pref,
  check_wire_prefs, max_bond_ifname, same_names, subset, scope_text, validate,
}

-- The blocks that the derivation rests on.
pub record IsSound (f : Fabric) : Type 0 where
  pub members : Distinct (map (λ (m : Member). m.name) f.members)
  pub nodes : Distinct (map (λ (m : Member). m.node) f.members)
  pub zone_ids : Distinct (map (λ (z : Zone). z.id) f.zones)
  pub numbers : Distinct {K = String × ℕ} (map (λ (s : Segment). (s.zone, s.seg)) f.segments)
  pub scopes :
      Distinct {K = String × String}
        (map (λ (s : Segment). (s.zone, scope_text s.scope)) f.segments)
  pub zones : All (λ (s : Segment). is_some (zone s.zone f) ≡ true) f.segments
  pub prefs : All (λ (p : WirePref). check_wire_pref p (member p.member f) f ≡ pass) f.wire_prefs

-- What the blocks of a fabric that is accepted, or refused or not derivable only at the end, are.
pub record Blocks (f : Fabric) (c : Check) : Type 0 where
  pub domains : check_domains f ≡ pass
  pub segments : check_segments f ≡ pass
  pub zones : check_zones f ≡ pass
  pub members : check_members f ≡ pass
  pub wire_prefs : check_wire_prefs f ≡ pass
  pub rows : check_rows [] f.workloads f ≡ pass
  pub member_rows : All (λ (m : Member). check_member_rows m f [] m.workloads ≡ pass) f.members
  pub addresses : check_addresses f ≡ pass
  pub derived : validate_derived f ≡ c

unnegated : (b : Bool) → not b ≡ false → b ≡ true
unnegated b h = ground (arith, h)

segments_sound :
    (f : Fabric)
    → check_segments f ≡ pass
    → Distinct {K = String × ℕ} (map (λ (s : Segment). (s.zone, s.seg)) f.segments)
      × Distinct {K = String × String}
          (map (λ (s : Segment). (s.zone, scope_text s.scope)) f.segments)
      × All (λ (s : Segment). is_some (zone s.zone f) ≡ true) f.segments
unfolding check_segments
segments_sound f h =
    let (_, h1) = >>-pass _ _ h in
    let (numbers, h2) = >>-pass _ _ h1 in
    let (scopes, h3) = >>-pass _ _ h2 in
    let (_, h4) = >>-pass _ _ h3 in
    let (zones, _) = >>-pass _ _ h4 in
    (
      dup-none _ (refuse_some-pass _ _ numbers),
      dup-none _ (refuse_some-pass _ _ scopes),
      All-mono _ _ f.segments (λ s p. unnegated _ (refuse_if-pass _ _ p))
          (each-pass _ f.segments zones),
    )

pub universals-len :
    (f : Fabric)
    → check_segments f ≡ pass
    → All
        (λ (s : Segment). len s.ifname ≤ 13)
        (filter (λ (s : Segment). is_universal s.scope) f.segments)
unfolding check_segments
universals-len f h =
    let (_, h1) = >>-pass _ _ h in
    let (_, h2) = >>-pass _ _ h1 in
    let (_, h3) = >>-pass _ _ h2 in
    let (_, h4) = >>-pass _ _ h3 in
    let (_, short) = >>-pass _ _ h4 in
    let universals = filter (λ (s : Segment). is_universal s.scope) f.segments in
    All-mono _ _ universals (λ (s : Segment) p. not_longer (len s.ifname) (refuse_if-pass _ _ p))
      (each-pass _ universals short)
  where
    not_longer : (n : ℕ) → ltb max_bond_ifname n ≡ false → n ≤ 13
    not_longer n p = ground (arith, p)

pub validate-Blocks : (f : Fabric) → validate f ≡ pass → Blocks f pass
unfolding validate
validate-Blocks f h =
    let (domains, h1) = >>-pass _ _ h in
    let (segments, h2) = >>-pass _ _ h1 in
    let (zones, h3) = >>-pass _ _ h2 in
    let (members, h4) = >>-pass _ _ h3 in
    let (wire_prefs, h5) = >>-pass _ _ h4 in
    let (_, h6) = >>-pass _ _ h5 in
    let (rows, h7) = >>-pass _ _ h6 in
    let (member_rows, h8) = >>-pass _ _ h7 in
    let (addresses, h9) = >>-pass _ _ h8 in
    let (_, derived) = >>-pass _ _ h9 in
    record {
      domains = domains;
      segments = segments;
      zones = zones;
      members = members;
      wire_prefs = wire_prefs;
      rows = rows;
      member_rows = each-pass _ f.members member_rows;
      addresses = addresses;
      derived = derived;
    }

pub blocks-IsSound :
    (f : Fabric)
    → check_segments f ≡ pass
    → check_zones f ≡ pass
    → check_members f ≡ pass
    → check_wire_prefs f ≡ pass
    → IsSound f
unfolding check_members check_zones check_wire_prefs
blocks-IsSound f segments zones members prefs =
    let (names, nodes) = >>-pass _ _ members in
    let (ids, _) = >>-pass _ _ zones in
    let (numbers, scopes, known) = segments_sound f segments in
    record {
      members = dup-none _ (refuse_some-pass _ _ names);
      nodes = dup-none _ (refuse_some-pass _ _ nodes);
      zone_ids = dup-none _ (refuse_some-pass _ _ ids);
      numbers = numbers;
      scopes = scopes;
      zones = known;
      prefs = each-pass _ f.wire_prefs prefs;
    }

pub Blocks-IsSound : (f : Fabric) (c : Check) → Blocks f c → IsSound f
Blocks-IsSound f c b = blocks-IsSound f b.segments b.zones b.members b.wire_prefs

check_order_of-names :
    (p : WirePref) (m : Member) (f : Fabric)
    → check_order_of p m f ≡ pass
    → same_names p.order (map (λ (w : Wire). w.name) (candidate_wires p.zone m f)) ≡ true
unfolding check_order_of
check_order_of-names p m f h =
    let (_, h1) = >>-pass (refuse_if (not (is_some (zone p.zone f))) (unknown_zone p.zone)) _ h in
    let (_, h2) =
      >>-pass
        (each (λ w. refuse_if (not (is_some (wire_named w m))) (prefs_wire p.member p.zone w))
          p.order)
        _ h1 in
    let (_, h3) = >>-pass (refuse_if (is_some (dup p.order)) (prefs_twice p.member p.zone)) _ h2 in
    unnegated _ (refuse_if-pass _ (prefs_incomplete p.member p.zone) h3)

-- An accepted override names exactly the candidate wires.
pub check_wire_pref-names :
    (p : WirePref) (m : Member) (f : Fabric)
    → check_wire_pref p (some m) f ≡ pass
    → same_names p.order (map (λ (w : Wire). w.name) (candidate_wires p.zone m f)) ≡ true
unfolding check_wire_pref
check_wire_pref-names p m f h = check_order_of-names p m f h

pub subset-is_in :
    (xs ys : List String) (n : String) → subset xs ys ≡ true → is_in n xs ≡ true → is_in n ys ≡ true
subset-is_in [] ys n s i = absurd (ground (arith, i))
subset-is_in (x ∷ xs) ys n s i = ground (arith, s, i, key_eq_iff x n, subset-is_in xs ys n)

check_order_of-wires :
    (p : WirePref) (m : Member) (f : Fabric)
    → check_order_of p m f ≡ pass
    → All (λ w. is_some (wire_named w m) ≡ true) p.order
unfolding check_order_of
check_order_of-wires p m f h =
    let (_, h1) = >>-pass _ _ h in
    let (wires, _) = >>-pass _ _ h1 in
    All-mono _ _ p.order (λ w q. unnegated _ (refuse_if-pass _ _ q)) (each-pass _ p.order wires)

-- An accepted override names wires of its member.
pub check_wire_pref-wires :
    (p : WirePref) (m : Member) (f : Fabric)
    → check_wire_pref p (some m) f ≡ pass
    → All (λ w. is_some (wire_named w m) ≡ true) p.order
unfolding check_wire_pref
check_wire_pref-wires p m f h = check_order_of-wires p m f h
