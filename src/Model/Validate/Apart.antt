-- ===== src/Model/Validate/Apart.antt =====
-- The addresses of an accepted fabric do not meet (src/model.rs, src/derive.rs).
use Prim.Native.String.{String}
use cfab.Prelude.{
  ℕ, zero, suc, ◌+◌, ◌-◌, ◌*◌, ◌/◌, ◌^◌, ◌<◌, ◌≤◌, ◌≡◌, ◌≢◌, sym, ap, subst, ◌∙◌, true, false, [],
  some, In, arith, ltb, min,
}
use cfab.Prelude.BTreeMap.{string_ord, nat_ord, pair_ord, key_eq, key_eq_iff}
use cfab.Model.{Member, MemberWorkload, Zone, Segment, Workload, Fabric, segment_addr, zone}
use cfab.Model.Prefix.{Ipv4Prefix, masked, contains, overlaps}
use cfab.Model.Checks.{pass, Distinct}
use cfab.Model.Find.{All-In, Distinct-injective, find-holds}
use cfab.Model.Rows.{zone_block, address_on, addresses_on}
use cfab.Model.Rows.Sound.{
  IsRow, HasRow, check_rows-IsRow, check_member_rows-HasRow, check_addresses-Distinct,
  addresses_on-differ,
}
use cfab.Model.Validate.{validate}
use cfab.Model.Validate.Accepted.{validate-Blocks, Blocks-IsSound}

-- On the segments of an accepted fabric, the address of a member says which segment it is on, of
-- which zone, and which member it is. Ids and numbers are bytes.
pub address_tells :
    (f : Fabric) (s s' : Segment) (z z' : Zone) (m m' : Member)
    → validate f ≡ pass
    → In s f.segments
    → In s' f.segments
    → zone s.zone f ≡ some z
    → zone s'.zone f ≡ some z'
    → In m f.members
    → In m' f.members
    → (s.seg < 256) × (s'.seg < 256) × (m.node < 256) × (m'.node < 256)
    → segment_addr z s.seg m ≡ segment_addr z' s'.seg m'
    → (s ≡ s') × (z ≡ z') × (m ≡ m')
address_tells f s s' z z' m m' h is is' iz iz' im im' bytes same =
    let v = Blocks-IsSound f pass (validate-Blocks f h) in
    let (named, there) = find-holds (λ (x : Zone). key_eq x.name s.zone) f.zones z iz in
    let (named', there') = find-holds (λ (x : Zone). key_eq x.name s'.zone) f.zones z' iz' in
    let zones =
      Distinct-injective (λ (x : Zone). x.id) f.zones z z' v.zone_ids there there'
        (omega (arith, bytes, same)) in
    let zone_names : s.zone ≡ s'.zone =
      sym ((key_eq_iff z.name s.zone).0 named)
      ∙ ap (λ (x : Zone). x.name) zones
      ∙ (key_eq_iff z'.name s'.zone).0 named' in
    let numbers : s.seg ≡ s'.seg = omega (arith, bytes, same) in
    (
      Distinct-injective {K = String × ℕ} (λ (x : Segment). (x.zone, x.seg)) f.segments s s'
          v.numbers is is' (cc (zone_names, numbers)),
      zones,
      Distinct-injective (λ (x : Member). x.node) f.members m m' v.nodes im im'
          (omega (arith, bytes, same)),
    )

-- A mask of 22 bits or more keeps what the first 16 bits say.
mask_keeps : (k a : ℕ) → k ≤ 10 → a / 2 ^ k * 2 ^ k / 65536 ≡ a / 65536
mask_keeps zero a small = omega arith
mask_keeps (suc zero) a small = omega arith
mask_keeps (suc (suc zero)) a small = omega arith
mask_keeps (suc (suc (suc zero))) a small = omega arith
mask_keeps (suc (suc (suc (suc zero)))) a small = omega arith
mask_keeps (suc (suc (suc (suc (suc zero))))) a small = omega arith
mask_keeps (suc (suc (suc (suc (suc (suc zero)))))) a small = omega arith
mask_keeps (suc (suc (suc (suc (suc (suc (suc zero))))))) a small = omega arith
mask_keeps (suc (suc (suc (suc (suc (suc (suc (suc zero)))))))) a small = omega arith
mask_keeps (suc (suc (suc (suc (suc (suc (suc (suc (suc zero))))))))) a small = omega arith
mask_keeps (suc (suc (suc (suc (suc (suc (suc (suc (suc (suc zero)))))))))) a small = omega arith
mask_keeps (suc (suc (suc (suc (suc (suc (suc (suc (suc (suc (suc n))))))))))) a small =
    absurd (omega (arith, small))

-- An address inside a prefix has the prefix's first 16 bits.
inside_block :
    (p : Ipv4Prefix) (a : ℕ)
    → ltb p.len 22 ≡ false
    → contains p a ≡ true
    → p.net / 65536 ≡ a / 65536
inside_block p a small inside =
    let net : masked p.len a ≡ p.net = ground (arith, inside) in
    ap (λ n. n / 65536) (sym net) ∙ mask_keeps (32 - p.len) a (ground (arith, small))

overlaps_block :
    (p : Ipv4Prefix) (z : Zone)
    → ltb p.len 22 ≡ false
    → p.net / 65536 ≡ 10 * 256 + z.id
    → overlaps p (zone_block z) ≡ true
overlaps_block p z small same =
    let at : min p.len 16 ≡ 16 = ground (arith, small) in rw at (ground (arith, same))

-- An address inside the prefix of an accepted row is none that any member has on any segment of any
-- zone, nor an identity.
pub workloads_apart :
    (f : Fabric) (w : Workload) (z : Zone) (seg a : ℕ) (m : Member)
    → validate f ≡ pass
    → In w f.workloads
    → In z f.zones
    → (seg < 256) × (m.node < 256)
    → contains w.prefix a ≡ true
    → a ≢ segment_addr z seg m
workloads_apart f w z seg a m h iw iz bytes inside same =
    let b = validate-Blocks f h in
    let row = All-In (IsRow f) f.workloads w (check_rows-IsRow [] f.workloads f b.rows) iw in
    let apart = All-In _ f.zones z row.apart iz in
    let block =
      overlaps_block w.prefix z row.small
        (omega (arith, inside_block w.prefix a row.small inside, same, bytes)) in
    absurd (ground (arith, apart, block))

-- An address that a member of an accepted fabric has on a workload row is one of a host, inside the
-- row's prefix, neither its network nor its broadcast address nor its gateway, and no other member
-- has it on that row.
member_address_sound :
    (f : Fabric) (m m' : Member) (x x' : MemberWorkload)
    → validate f ≡ pass
    → In m f.members
    → In m' f.members
    → In x m.workloads
    → m.name ≢ m'.name
    → address_on x.name m ≡ some x
    → address_on x.name m' ≡ some x'
    → HasRow f m x × (x.address ≢ x'.address)
member_address_sound f m m' x x' h im im' ix other has has' =
    let b = validate-Blocks f h in
    let rows =
      check_member_rows-HasRow m f [] m.workloads (All-In _ f.members m b.member_rows im) in
    let row = All-In (HasRow f m) m.workloads x rows ix in
    let (named, there) =
      find-holds (λ (w : Workload). key_eq w.name x.name) f.workloads row.0 row.1 in
    let same = (key_eq_iff row.0.name x.name).0 named in
    let apart =
      subst (λ (n : String). Distinct (addresses_on n f.members)) same
        (All-In _ f.workloads row.0 (check_addresses-Distinct f b.addresses) there) in
    (row, addresses_on-differ x.name f.members m m' x x' apart im im' other has has')
