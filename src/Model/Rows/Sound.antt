-- ===== src/Model/Rows/Sound.antt =====
-- What an accepted `[[workload]]` row has (src/model.rs).
use Prim.Native.String.{String}
use cfab.Prelude.{
  ◌≡◌, ◌≢◌, refl, sym, ap, ◌∙◌, subst, Option-cases, inl, inr, Bool, true, false, not, List, [],
  ◌∷◌, Option, none, some, All, All-mono, In, arith, ltb, ◌==◌,
}
use cfab.Prelude.BTreeMap.{string_ord, nat_ord, key_eq_refl}
use cfab.Model.{Member, MemberWorkload, Zone, Workload, Fabric, workload, is_host}
use cfab.Model.Prefix.{contains, overlaps}
use cfab.Model.Checks.{
  Checked, pass, refused, panicked, Distinct, is_in, >>-pass, each-pass, refuse_if-pass,
  refuse_some-pass, dup-none,
}
use cfab.Model.Refusals.{RowRefusal, MemberRowRefusal}
use cfab.Model.Rows.{
  zone_block, is_edge, check_row, of_row, check_rows, check_member_row, of_member_row,
  check_member_rows, address_on, addresses_on, check_addresses,
}

-- A row of a `/22` or smaller, whose prefix meets no zone's block.
pub record IsRow (f : Fabric) (w : Workload) : Type 0 where
  pub small : ltb w.prefix.len 22 ≡ false
  pub gw_inside : contains w.prefix w.gw ≡ true
  pub gw_host : is_edge w.prefix w.gw ≡ false
  pub apart : All (λ (z : Zone). overlaps w.prefix (zone_block z) ≡ false) f.zones

holds_after : (b : Bool) → not b ≡ false → b ≡ true
holds_after b h = ground (arith, h)

of_row-pass : (name : String) (c : Checked RowRefusal) → of_row name c ≡ pass → c ≡ pass
of_row-pass name pass h = refl
of_row-pass name (refused r) h = absurd (ground (arith, h))
of_row-pass name panicked h = absurd (ground (arith, h))

check_row-IsRow :
    (before : List Workload) (w : Workload) (f : Fabric) → check_row before w f ≡ pass → IsRow f w
unfolding check_row
check_row-IsRow before w f h =
    let (_, h1) = >>-pass _ _ h in
    let (_, h2) = >>-pass _ _ h1 in
    let (_, h3) = >>-pass _ _ h2 in
    let (_, h4) = >>-pass _ _ h3 in
    let (_, h5) = >>-pass _ _ h4 in
    let (small, h6) = >>-pass _ _ h5 in
    let (inside, h7) = >>-pass _ _ h6 in
    let (gw, h8) = >>-pass _ _ h7 in
    let (_, h9) = >>-pass _ _ h8 in
    let (apart, _) = >>-pass _ _ h9 in
    record {
      small = refuse_if-pass _ _ small;
      gw_inside = holds_after _ (refuse_if-pass _ _ inside);
      gw_host = refuse_if-pass _ _ gw;
      apart = All-mono _ _ f.zones (λ z p. refuse_if-pass _ _ p) (each-pass _ f.zones apart);
    }

pub check_rows-IsRow :
    (before ws : List Workload) (f : Fabric) → check_rows before ws f ≡ pass → All (IsRow f) ws
unfolding check_rows
check_rows-IsRow before [] f h = tt
check_rows-IsRow before (w ∷ ws) f h =
    let (here, rest) = >>-pass _ _ h in
    (
      check_row-IsRow before w f (of_row-pass w.name _ here),
      check_rows-IsRow (w ∷ before) ws f rest,
    )

-- An address of a member on a row that is declared.
pub record IsMemberRow (m : Member) (x : MemberWorkload) (w : Workload) : Type 0 where
  pub on_host : is_host m.kind ≡ true
  pub inside : contains w.prefix x.address ≡ true
  pub not_gw : (x.address == w.gw) ≡ false
  pub host_part : is_edge w.prefix x.address ≡ false

of_member_row-pass :
    (m row : String) (c : Checked MemberRowRefusal) → of_member_row m row c ≡ pass → c ≡ pass
of_member_row-pass m row pass h = refl
of_member_row-pass m row (refused r) h = absurd (ground (arith, h))
of_member_row-pass m row panicked h = absurd (ground (arith, h))

check_member_row-IsMemberRow :
    (m : Member) (x : MemberWorkload) (o : Option Workload)
    → check_member_row m x o ≡ pass
    → (w : Workload) × (o ≡ some w) × IsMemberRow m x w
unfolding check_member_row
check_member_row-IsMemberRow m x none h = absurd (ground (arith, h))
check_member_row-IsMemberRow m x (some w) h =
    let (host, h1) = >>-pass _ _ h in
    let (inside, h2) = >>-pass _ _ h1 in
    let (_, h3) = >>-pass _ _ h2 in
    let (gw, edge) = >>-pass _ _ h3 in
    (
      w,
      refl,
      record {
        on_host = holds_after _ (refuse_if-pass _ _ host);
        inside = holds_after _ (refuse_if-pass _ _ inside);
        not_gw = refuse_if-pass _ _ gw;
        host_part = refuse_if-pass _ _ edge;
      },
    )

-- What an accepted member has for each of its rows.
abbrev pub HasRow : Fabric → Member → MemberWorkload → Type 0
HasRow f m x = (w : Workload) × (workload x.name f ≡ some w) × IsMemberRow m x w

pub check_member_rows-HasRow :
    (m : Member) (f : Fabric) (before xs : List MemberWorkload)
    → check_member_rows m f before xs ≡ pass
    → All (HasRow f m) xs
unfolding check_member_rows
check_member_rows-HasRow m f before [] h = tt
check_member_rows-HasRow m f before (x ∷ xs) h =
    let (here, rest) = >>-pass _ _ h in
    let (_, row) = >>-pass _ _ (of_member_row-pass m.name x.name _ here) in
    (
      check_member_row-IsMemberRow m x (workload x.name f) row,
      check_member_rows-HasRow m f (x ∷ before) xs rest,
    )

pub check_addresses-Distinct :
    (f : Fabric)
    → check_addresses f ≡ pass
    → All (λ (w : Workload). Distinct (addresses_on w.name f.members)) f.workloads
unfolding check_addresses
check_addresses-Distinct f h =
    All-mono _ _ f.workloads (λ w p. dup-none _ (refuse_some-pass _ _ p))
      (each-pass _ f.workloads h)

addresses_on-is_in :
    (row : String) (ms : List Member) (m : Member) (x : MemberWorkload)
    → In m ms
    → address_on row m ≡ some x
    → is_in x.address (addresses_on row ms) ≡ true
unfolding addresses_on
addresses_on-is_in row [] m x i has = absurd i
addresses_on-is_in row (n ∷ ms) m x (inl e) has =
    let here = subst (λ (k : Member). address_on row k ≡ some x) (sym e) has in
    rw (here, addresses_on) (ground (arith, key_eq_refl x.address))
addresses_on-is_in row (n ∷ ms) m x (inr i) has = elim (Option-cases (address_on row n)) [
  | inl e ↦ rw (e, addresses_on) (addresses_on-is_in row ms m x i has)
  | inr (y, e) ↦ rw (e, addresses_on) (ground (arith, addresses_on-is_in row ms m x i has))
]

-- Members of different names have different addresses on a row whose addresses are distinct.
pub addresses_on-differ :
    (row : String) (ms : List Member) (m m' : Member) (x x' : MemberWorkload)
    → Distinct (addresses_on row ms)
    → In m ms
    → In m' ms
    → m.name ≢ m'.name
    → address_on row m ≡ some x
    → address_on row m' ≡ some x'
    → x.address ≢ x'.address
unfolding addresses_on
addresses_on-differ row [] m m' x x' d i i' other has has' = absurd i
addresses_on-differ row (n ∷ ms) m m' x x' d (inl e) (inl e') other has has' =
    absurd (other (ap (λ (k : Member). k.name) (sym e ∙ e')))
addresses_on-differ row (n ∷ ms) m m' x x' d (inl e) (inr i') other has has' = λ same.
    let here = subst (λ (k : Member). address_on row k ≡ some x) (sym e) has in
    absurd (
      ground
        (arith, (rw (here, addresses_on) at d).0, addresses_on-is_in row ms m' x' i' has', same))
addresses_on-differ row (n ∷ ms) m m' x x' d (inr i) (inl e') other has has' = λ same.
    let here = subst (λ (k : Member). address_on row k ≡ some x') (sym e') has' in
    absurd
      (ground (arith, (rw (here, addresses_on) at d).0, addresses_on-is_in row ms m x i has, same))
addresses_on-differ row (n ∷ ms) m m' x x' d (inr i) (inr i') other has has' =
    elim (Option-cases (address_on row n)) [
      | inl e ↦ addresses_on-differ row ms m m' x x' (rw (e, addresses_on) at d) i i' other has has'
      | inr (y, e) ↦
          addresses_on-differ row ms m m' x x' (rw (e, addresses_on) at d).1 i i' other has has'
    ]
