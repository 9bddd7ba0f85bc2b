-- ===== src/Model/Resolve/Calm.antt =====
-- `Fabric::from_decl` does not panic (src/model.rs).
use Prim.Native.String.{String}
use cfab.Prelude.Text
use cfab.Prelude.{
  ◌≡◌, refl, subst, inl, inr, true, false, not, ◌||◌, List, [], ◌∷◌, map, Option, none, some, All,
  All-mono, All-++, In, arith, Bool-cases, Option-cases, any,
}
use cfab.Prelude.Results.{Result, ok, err, ok_or, >>=-ok, collect, collect-Pairwise, Pairwise}
use cfab.Prelude.BTreeMap.{string_ord, key_eq, key_eq_iff}
use cfab.Model.{
  SegScope, Member, Zone, ZoneGw, Segment, WirePref, Fabric, find, is_some, octet_behind,
}
use cfab.Model.Decl.{MemberDecl, ZoneDecl, GwDecl, Declaration}
use cfab.Model.Checks.{pass, refused, panicked, IsCalm}
use cfab.Model.Refusals.{Refusal, Check}
use cfab.Model.Validate.{validate}
use cfab.Model.Validate.Calm.{AreDeclared, HasRouter, AreRouted, validate-IsCalm}
use cfab.Model.Resolve.{
  DeclRefusal, bad_router, bad_primary, not_octets, router_gw, resolve_gw, resolve_gw?, scoped_gw,
  resolve_wire, resolve_address, resolve_member, resolve_segment, resolve_zone, resolve,
  prefs_declared, all_prefs, Loaded, loaded, undeclared, invalid, admit, check_resolved, from_decl,
  parse_domain, parse_scope,
}
use cfab.Model.Resolve.Origin.{resolve-Tables}

all_read :
    (o : String) (parts : List String)
    → any (λ o. not (is_some (Text.parse_u8 o))) parts ≡ false
    → In o parts
    → is_some (Text.parse_u8 o) ≡ true
all_read o [] n i = absurd i
all_read o (x ∷ parts) n (inl e) =
    subst (λ y. is_some (Text.parse_u8 y) ≡ true) e (ground (arith, n))
all_read o (x ∷ parts) n (inr i) = all_read o parts (ground (arith, n)) i

part_read :
    (o : String) (parts : List String)
    → not_octets parts ≡ false
    → In o (Text.tail parts)
    → is_some (Text.parse_u8 o) ≡ true
part_read o [] n i = absurd i
part_read o (x ∷ parts) n i = all_read o parts (ground (arith, n)) i

-- Four parts that are bytes: what is behind the last point is one.
four_octets :
    (router : String)
    → not_octets (Text.split 46 router) ≡ false
    → is_some (octet_behind (Text.rsplit_once 46 router)) ≡ true
unfolding octet_behind
four_octets router h = elim (Option-cases (Text.rsplit_once 46 router)) [
  | inl e ↦
      let one_part = Text.rsplit_once-none 46 router e in
      let refused_too : not_octets (router ∷ []) ≡ false =
        subst (λ parts. not_octets parts ≡ false) one_part h in
      absurd (ground (arith, refused_too))
  | inr ((p, o), e) ↦
      rw e (part_read o (Text.split 46 router) h (Text.rsplit_once-In 46 router p o e))
]

router_gw-HasRouter :
    (zone : String) (g : GwDecl) (router size : String) (gw : ZoneGw)
    → router_gw zone g router size ≡ ok gw
    → HasRouter (some gw)
router_gw-HasRouter zone g router size gw h =
    elim (Bool-cases (not (key_eq size "24") || not_octets (Text.split 46 router))) [
      | inl bad ↦ absurd (ground (arith, h, bad))
      | inr good ↦
          scoped (parse_scope g.domain) (four_octets router (ground (arith, good)))
            (ground (arith, h, good))
    ]
  where
    scoped :
        (o : Option SegScope)
        → is_some (octet_behind (Text.rsplit_once 46 router)) ≡ true
        → scoped_gw zone g router o ≡ ok gw
        → HasRouter (some gw)
    scoped none read e = absurd (ground (arith, e))
    scoped (some scope) read e =
        let same : router ≡ gw.router = ground (arith, e) in
        subst (λ r. is_some (octet_behind (Text.rsplit_once 46 r)) ≡ true) same read

resolve_gw?-HasRouter :
    (zone : String) (g : Option GwDecl) (gw : Option ZoneGw)
    → resolve_gw? zone g ≡ ok gw
    → HasRouter gw
unfolding resolve_gw
resolve_gw?-HasRouter zone none gw h =
    let same : none ≡ gw = ground (arith, h) in subst HasRouter same tt
resolve_gw?-HasRouter zone (some g) gw h =
    let (x, e, last) = >>=-ok (resolve_gw zone g) _ gw h in
    let (halves, _, made) = >>=-ok (ok_or (bad_router zone) (Text.split_once 47 g.router)) _ x e in
    let same : some x ≡ gw = ground (arith, last) in
    subst HasRouter same (router_gw-HasRouter zone g halves.0 halves.1 x made)

resolve_zone-HasRouter :
    (z : ZoneDecl) (r : Zone × List Segment) → resolve_zone z ≡ ok r → HasRouter r.0.gw
unfolding resolve_zone
resolve_zone-HasRouter z r h =
    let (segments, _, h1) = >>=-ok (collect (resolve_segment z.name) z.segments) _ r h in
    let (gw, e, h2) = >>=-ok (resolve_gw? z.name z.gw) _ r h1 in
    let (primary, _, last) = >>=-ok (ok_or (bad_primary z.name) (parse_domain z.primary)) _ r h2 in
    let same : gw ≡ r.0.gw = ground (arith, last) in
    subst HasRouter same (resolve_gw?-HasRouter z.name z.gw gw e)

zones-HasRouter :
    (ds : List ZoneDecl) (zs : List (Zone × List Segment))
    → Pairwise (λ z r. resolve_zone z ≡ ok r) ds zs
    → All (λ (z : Zone). HasRouter z.gw) (map (λ (r : Zone × List Segment). r.0) zs)
zones-HasRouter [] [] p = tt
zones-HasRouter [] (z ∷ zs) p = absurd p
zones-HasRouter (d ∷ ds) [] p = absurd p
zones-HasRouter (d ∷ ds) (z ∷ zs) p = (resolve_zone-HasRouter d z p.0, zones-HasRouter ds zs p.1)

abbrev Known : List Member → String → Type 0
Known ms name = is_some (find (λ (m : Member). key_eq m.name name) ms) ≡ true

Known-later : (m : Member) (ms : List Member) (name : String) → Known ms name → Known (m ∷ ms) name
Known-later m ms name k = ground (arith, k)

resolve_member-name : (d : MemberDecl) (m : Member) → resolve_member d ≡ ok m → d.name ≡ m.name
unfolding resolve_member
resolve_member-name d m h =
    let (wires, _, h1) = >>=-ok (collect (resolve_wire d.name) d.wires) _ m h in
    let (workloads, _, last) = >>=-ok (collect (resolve_address d.name) d.workloads) _ m h1 in
    ground (arith, last)

members-Known :
    (ds : List MemberDecl) (ms : List Member)
    → Pairwise (λ d m. resolve_member d ≡ ok m) ds ms
    → All (λ (d : MemberDecl). Known ms d.name) ds
members-Known [] ms p = tt
members-Known (d ∷ ds) [] p = absurd p
members-Known (d ∷ ds) (m ∷ ms) p =
    let same = resolve_member-name d m p.0 in
    (
      ground (arith, same, key_eq_iff m.name d.name),
      All-mono _ _ ds (λ (d : MemberDecl) k. Known-later m ms d.name k) (members-Known ds ms p.1),
    )

prefs-All :
    (P : String → Type 0) (name : String) (ps : List (String × List String))
    → P name
    → All
        (λ (p : WirePref). P p.member)
        (map (λ (p : String × List String). record { member = name; zone = p.0; order = p.1 }) ps)
prefs-All P name [] h = tt
prefs-All P name (p ∷ ps) h = (h, prefs-All P name ps h)

all_prefs-All :
    (P : String → Type 0) (ds : List MemberDecl)
    → All (λ (d : MemberDecl). P d.name) ds
    → All (λ (p : WirePref). P p.member) (all_prefs ds)
all_prefs-All P [] a = tt
all_prefs-All P (d ∷ ds) a =
    All-++ (λ (p : WirePref). P p.member) (prefs_declared d) (all_prefs ds)
      (prefs-All P d.name d.prefs a.0) (all_prefs-All P ds a.1)

resolve-AreDeclared : (d : Declaration) (f : Fabric) → resolve d ≡ ok f → AreDeclared f
resolve-AreDeclared d f h =
    let t = resolve-Tables d f h in
    let known =
      members-Known d.members t.members (collect-Pairwise _ d.members t.members t.each_member) in
    subst AreDeclared t.made (all_prefs-All (Known t.members) d.members known)

resolve-AreRouted : (d : Declaration) (f : Fabric) → resolve d ≡ ok f → AreRouted f
resolve-AreRouted d f h =
    let t = resolve-Tables d f h in
    subst AreRouted t.made
      (zones-HasRouter d.zones t.zones (collect-Pairwise _ d.zones t.zones t.each_zone))

-- A load that ended, with a fabric or with a refusal.
pub data Returns : Loaded → Type 0 where
  gives : (f : Fabric) → Returns (loaded f)
  rejects : (r : DeclRefusal) → Returns (undeclared r)
  refuses : (r : Refusal) → Returns (invalid r)

admit-Returns : (f : Fabric) (c : Check) → IsCalm c → Returns (admit f c)
admit-Returns f pass c = gives f
admit-Returns f (refused r) c = refuses r
admit-Returns f panicked c = elim c [ ]

-- `from_decl` returns a fabric or a refusal, whatever is declared: no lookup that the source expects
-- to succeed fails, neither while the declaration is resolved nor while the fabric is validated, and
-- the search for shortest paths ends. Its sums of costs wrap, as they do in a build without checks for
-- overflow.
pub from_decl-Returns : (d : Declaration) → Returns (from_decl d)
unfolding from_decl
from_decl-Returns d = resolved (resolve d) refl
  where
    resolved : (o : Result DeclRefusal Fabric) → resolve d ≡ o → Returns (check_resolved o)
    resolved (err r) e = rejects r
    resolved (ok f) e =
        admit-Returns f (validate f)
          (validate-IsCalm f (resolve-AreDeclared d f e) (resolve-AreRouted d f e))
