-- ===== src/Model/Resolve/Names.antt =====
-- Every name of an interface that a loaded fabric makes up fits (src/model.rs, src/derive.rs).
use Prim.Native.String.{String, len}
use cfab.Prelude.{
  ◌≡◌, refl, subst, inl, inr, ◌&&◌, List, [], ◌∷◌, Option, none, some, All, In, arith, ◌==◌,
  Bool-cases,
}
use cfab.Prelude.Results.{Result, ok, err, ok_or, >>=-ok, collect, collect-Pairwise, Pairwise}
use cfab.Model.{is_some, Wire, Member, Workload, Fabric, leg_ifname}
use cfab.Model.Checks.{pass, refused, panicked}
use cfab.Model.Find.{All-In}
use cfab.Model.Decl.{WireDecl, MemberDecl, Declaration}
use cfab.Model.Derive.{FallbackRow, GwRow, fallback_rows_of, gw_rows_of}
use cfab.Model.Validate.{validate}
use cfab.Model.Validate.Accepted.{validate-Blocks, universals-len}
use cfab.Model.Resolve.{
  DeclRefusal, bad_wire_domain, parse_domain, all_letters, resolve_wire, resolve_address,
  resolve_member, resolve, loaded, admit, check_resolved, from_decl,
}
use cfab.Model.Resolve.Origin.{resolve-Tables}
use cfab.Model.Resolve.Fits.{
  Short, LegFits, GwFits, leg_ifname-len, fallback_rows_of-Fits, gw_rows_of-Fits,
}

-- A fabric that is loaded was resolved and accepted.
pub from_decl-loaded :
    (d : Declaration) (f : Fabric)
    → from_decl d ≡ loaded f
    → (resolve d ≡ ok f) × (validate f ≡ pass)
unfolding from_decl
from_decl-loaded d f h = resolved (resolve d) refl h
  where
    admitted :
        (g : Fabric) (c : _)
        → resolve d ≡ ok g
        → validate g ≡ c
        → admit g c ≡ loaded f
        → (resolve d ≡ ok f) × (validate f ≡ pass)
    admitted g pass e v k =
        let same : g ≡ f = ground (arith, k) in
        (
          subst (λ (x : Fabric). resolve d ≡ ok x) same e,
          subst (λ (x : Fabric). validate x ≡ pass) same v,
        )
    admitted g (refused r) e v k = absurd (ground (arith, k))
    admitted g panicked e v k = absurd (ground (arith, k))

    resolved :
        (o : Result DeclRefusal Fabric)
        → resolve d ≡ o
        → check_resolved o ≡ loaded f
        → (resolve d ≡ ok f) × (validate f ≡ pass)
    resolved (err r) e k = absurd (ground (arith, k))
    resolved (ok g) e k = admitted g (validate g) e refl k

parse_domain-len : (s d : String) → parse_domain s ≡ some d → len d ≡ 1
unfolding parse_domain
parse_domain-len s d h = elim (Bool-cases (len s == 1 && all_letters s)) [
  | inl k ↦
      let same : s ≡ d = ground (arith, h, k) in subst (λ t. len t ≡ 1) same (ground (arith, k))
  | inr k ↦ absurd (ground (arith, h, k))
]

ok_or-some : {R A : Type 0} (r : R) (o : Option A) (a : A) → ok_or r o ≡ ok a → o ≡ some a
ok_or-some r none a h = absurd (ground (arith, h))
ok_or-some r (some b) a h = ground (arith, h)

abbrev Token : Wire → Type 0
Token w = len w.domain ≡ 1

resolve_wire-Token :
    (member : String) (w : WireDecl) (x : Wire) → resolve_wire member w ≡ ok x → Token x
unfolding resolve_wire
resolve_wire-Token member w x h =
    let (domain, parsed, last) =
      >>=-ok (ok_or (bad_wire_domain member w.nic) (parse_domain w.domain)) _ x h in
    let one = parse_domain-len w.domain domain (ok_or-some _ _ domain parsed) in
    elim (Bool-cases (is_some w.driver_features)) [
      | inl k ↦ absurd (ground (arith, last, k))
      | inr k ↦ elim (Bool-cases (is_some w.usb)) [
        | inl l ↦ absurd (ground (arith, last, k, l))
        | inr l ↦
            let same : domain ≡ x.domain = ground (arith, last, k, l) in
            subst (λ d. len d ≡ 1) same one
      ]
    ]

wires-Token :
    (member : String) (ws : List WireDecl) (xs : List Wire)
    → Pairwise (λ w x. resolve_wire member w ≡ ok x) ws xs
    → All Token xs
wires-Token member [] [] p = tt
wires-Token member [] (x ∷ xs) p = absurd p
wires-Token member (w ∷ ws) [] p = absurd p
wires-Token member (w ∷ ws) (x ∷ xs) p =
    (resolve_wire-Token member w x p.0, wires-Token member ws xs p.1)

resolve_member-Token : (d : MemberDecl) (m : Member) → resolve_member d ≡ ok m → All Token m.wires
unfolding resolve_member
resolve_member-Token d m h =
    let (wires, e, h1) = >>=-ok (collect (resolve_wire d.name) d.wires) _ m h in
    let (workloads, _, last) = >>=-ok (collect (resolve_address d.name) d.workloads) _ m h1 in
    let same : wires ≡ m.wires = ground (arith, last) in
    subst (All Token) same (wires-Token d.name d.wires wires (collect-Pairwise _ d.wires wires e))

members-Token :
    (ds : List MemberDecl) (ms : List Member)
    → Pairwise (λ d m. resolve_member d ≡ ok m) ds ms
    → All (λ (m : Member). All Token m.wires) ms
members-Token [] [] p = tt
members-Token [] (m ∷ ms) p = absurd p
members-Token (d ∷ ds) [] p = absurd p
members-Token (d ∷ ds) (m ∷ ms) p = (resolve_member-Token d m p.0, members-Token ds ms p.1)

-- Of a fabric that `from_decl` loads, each member's bond legs, its ingresses, all the ports of both,
-- and its workload legs have names of at most 15 bytes: what the kernel takes.
pub made_names_fit :
    (d : Declaration) (f : Fabric) (m : Member) (legs : List FallbackRow) (gws : List GwRow)
    (w : Workload)
    → from_decl d ≡ loaded f
    → In m f.members
    → fallback_rows_of f m ≡ some legs
    → gw_rows_of f m ≡ some gws
    → All LegFits legs × All GwFits gws × Short (leg_ifname w)
made_names_fit d f m legs gws w h i bonds ingresses =
    let (e, v) = from_decl-loaded d f h in
    let t = resolve-Tables d f e in
    let each_token =
      members-Token d.members t.members (collect-Pairwise _ d.members t.members t.each_member) in
    let all_tokens =
      subst (λ (x : Fabric). All (λ (m : Member). All Token m.wires) x.members) t.made each_token in
    let tokens = All-In _ f.members m all_tokens i in
    (
      fallback_rows_of-Fits f m tokens (universals-len f (validate-Blocks f v).segments) legs bonds,
      gw_rows_of-Fits f m tokens gws ingresses,
      leg_ifname-len w,
    )
