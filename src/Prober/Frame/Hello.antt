-- ===== src/Prober/Frame/Hello.antt =====
-- What the passive channel reads (src/prober/frame.rs).
use cfab.Prelude.{
  ℕ, ◌+◌, ◌*◌, ◌%◌, ◌≤◌, ◌≡◌, refl, sym, ap, ◌∙◌, inl, inr, [], ◌∷◌, ◌++◌, some, arith, length,
  length-append, take, drop, get_or, Option-cases,
}
use cfab.Prelude.Bytes.{
  Bytes, bytes_eq_iff, range, get_byte, get_or-range, get_or-take, range-drop, get_byte-drop,
  length-drop_cons, add-sub, range-range, be32,
}
use cfab.Prober.Frame.Codec.{
  BeginsAt, locate_sound, Six, six, Four, four, Tagging, untagged, vlan, qinq, tag_bytes,
}
use cfab.Prober.Frame.{
  ethertype_ipv4, ipproto_ospf, all_spf_routers, locate, ospf_router, hello_router_id,
}

-- What an OSPF header that was read holds: its protocol, its destination, and its Router ID.
ospf_router_sound :
    (frame : Bytes) (ip : ℕ) {rid : ℕ}
    → ospf_router frame ip ≡ some rid
    → (n : ℕ) × (20 ≤ n)
      × (ip + n + 8 ≤ length frame)
      × (get_or (range ip (ip + n) frame) 9 0 ≡ ipproto_ospf)
      × (range 16 20 (range ip (ip + n) frame) ≡ all_spf_routers)
      × (rid ≡ be32 (range (ip + n + 4) (ip + n + 8) frame))
unfolding ospf_router
ospf_router_sound frame ip {rid} h = elim (Option-cases (get_byte frame ip)) [
  | inl e ↦ absurd (ground (arith, e))
  | inr (b, e) ↦ (
    b % 16 * 4,
    ground (arith, e),
    ground (arith, e),
    ground (arith, e),
    ground
        (arith, e, bytes_eq_iff (range 16 20 (range ip (ip + b % 16 * 4) frame)) all_spf_routers),
    ground (arith, e),
  )
]

-- Whatever is read as a hello is OSPF to AllSPFRouters in an IPv4 packet with a whole header, behind
-- one tag or none, and what is read is its Router ID.
pub hello_router_id_sound :
    (frame : Bytes) {rid : ℕ}
    → hello_router_id frame ≡ some rid
    → (ip n : ℕ) × (locate frame ≡ some (ip, ethertype_ipv4))
      × BeginsAt frame ip ethertype_ipv4
      × (20 ≤ n)
      × (ip + n + 8 ≤ length frame)
      × (get_or frame (ip + 9) 0 ≡ ipproto_ospf)
      × (range (ip + 16) (ip + 20) frame ≡ all_spf_routers)
      × (rid ≡ be32 (range (ip + n + 4) (ip + n + 8) frame))
unfolding hello_router_id
hello_router_id_sound frame {rid} h = elim (Option-cases (locate frame)) [
  | inl e ↦ absurd (ground (arith, e))
  | inr ((ip, t), e) ↦
      let is_ip : t ≡ ethertype_ipv4 = ground (arith, e) in
      let read : ospf_router frame ip ≡ some rid = ground (arith, e) in
      let (n, whole, fits, proto, dst, id) = ospf_router_sound frame ip read in
      (
        ip,
        n,
        rw is_ip at e,
        rw is_ip at (locate_sound frame e),
        whole,
        fits,
        sym (get_or-range ip n 9 0 frame (omega arith)) ∙ proto,
        sym (range-range ip n 16 20 frame (omega arith) whole) ∙ dst,
        id,
      )
]

-- An OSPF packet to AllSPFRouters on the wire: an IPv4 header of `first`'s length with its options,
-- the four bytes before the Router ID, and the rest.
abbrev pub ospf_packet :
    (first : ℕ) (a b : Four) (c : Six) (options : Bytes) (d rid : Four) (rest : Bytes) → Bytes
ospf_packet first a b c options d rid rest =
    first ∷ four a
    ++ (four b ++ (89 ∷ six c ++ (all_spf_routers ++ (options ++ (four d ++ (four rid ++ rest))))))

drop-all : (xs ys : Bytes) → drop (length xs) (xs ++ ys) ≡ ys
drop-all [] ys = refl
drop-all (x ∷ xs) ys = drop-all xs ys

ospf_router-steps :
    (frame : Bytes) (ip b n : ℕ)
    → get_byte frame ip ≡ some b
    → b % 16 * 4 ≡ n
    → 20 ≤ n
    → ip + n + 8 ≤ length frame
    → get_or (range ip (ip + n) frame) 9 0 ≡ ipproto_ospf
    → range 16 20 (range ip (ip + n) frame) ≡ all_spf_routers
    → ospf_router frame ip ≡ some (be32 (range (ip + n + 4) (ip + n + 8) frame))
unfolding ospf_router
ospf_router-steps frame ip b n e w whole fits proto dst =
    rw (e, w) (ground (arith, bytes_eq_iff (range 16 20 (range ip (ip + n) frame)) all_spf_routers))

module _ (frame : Bytes) (ip first : ℕ) (a b : Four) (c : Six) (options : Bytes) (d rid : Four)
    (rest : Bytes) (at : drop ip frame ≡ ospf_packet first a b c options d rid rest)
    (words : first % 16 * 4 ≡ 20 + length options) where
  abbrev packet : Bytes
  packet = ospf_packet first a b c options d rid rest

  room : ip + (20 + length options) + 8 ≤ length frame
  room = omega (
    arith,
    length-drop_cons ip frame at,
    length-append {0} options (four d ++ (four rid ++ rest)),
  )

  header : range ip (ip + (20 + length options)) frame ≡ take (20 + length options) (drop ip frame)
  header = ap (λ k. take k (drop ip frame)) (add-sub ip (20 + length options))

  proto : get_or (range ip (ip + (20 + length options)) frame) 9 0 ≡ ipproto_ospf
  proto = rw header (get_or-take (20 + length options) 9 0 (drop ip frame) (omega arith) ∙ rw at)

  dst : range 16 20 (range ip (ip + (20 + length options)) frame) ≡ all_spf_routers
  dst =
      range-range ip (20 + length options) 16 20 frame (omega arith) (omega arith)
      ∙ range-drop ip 16 20 (ip + 16) (ip + 20) frame refl refl
      ∙ rw at

  id : range (ip + (20 + length options) + 4) (ip + (20 + length options) + 8) frame ≡ four rid
  id =
      range-drop ip (20 + (length options + 4)) (20 + (length options + 8)) _ _ frame (omega arith)
        (omega arith)
      ∙ rw at (range-drop 20 (length options + 4) (length options + 8) _ _ packet refl refl)
      ∙ range-drop (length options) 4 8 _ _ (options ++ (four d ++ (four rid ++ rest))) refl refl
      ∙ ap (take 4) (ap (drop 4) (drop-all options (four d ++ (four rid ++ rest))))

  ospf_router-packet : ospf_router frame ip ≡ some (be32 (four rid))
  ospf_router-packet =
      ospf_router-steps frame ip first (20 + length options) (get_byte-drop ip frame at) words
        (omega arith) room proto dst
      ∙ ap (λ b. some (be32 b)) id

-- The packet in its Ethernet frame, behind one tag or none.
abbrev pub ospf_frame : (dst src : Six) → Tagging → Bytes → Bytes
ospf_frame dst src tag packet = six dst ++ (six src ++ (tag_bytes tag ++ (0x08 ∷ 0x00 ∷ packet)))

abbrev pub payload_at : Tagging → ℕ
payload_at untagged = 14
payload_at (vlan hi lo) = 18
payload_at (qinq hi lo) = 18

pub locate-ospf_frame :
    (dst src : Six) (tag : Tagging) (packet : Bytes)
    → locate (ospf_frame dst src tag packet) ≡ some (payload_at tag, ethertype_ipv4)
unfolding locate
locate-ospf_frame dst src untagged packet = ground arith
locate-ospf_frame dst src (vlan hi lo) packet = ground arith
locate-ospf_frame dst src (qinq hi lo) packet = ground arith

-- Every OSPF packet to AllSPFRouters is read for its Router ID, however long its IPv4 header's
-- options are (the header's length field says so), behind one tag or none.
pub hello_router_id-ospf_frame :
    (dst src : Six) (tag : Tagging) (first : ℕ) (a b : Four) (c : Six) (options : Bytes)
    (d rid : Four) (rest : Bytes)
    → first % 16 * 4 ≡ 20 + length options
    → hello_router_id (ospf_frame dst src tag (ospf_packet first a b c options d rid rest))
      ≡ some (be32 (four rid))
unfolding hello_router_id
hello_router_id-ospf_frame dst src tag first a b c options d rid rest words =
    rw (locate-ospf_frame dst src tag (ospf_packet first a b c options d rid rest), hello_router_id)
      (ospf_router-packet _ (payload_at tag) first a b c options d rid rest (behind tag) words)
  where
    behind :
        (tag : Tagging)
        → drop
            (payload_at tag)
            (ospf_frame dst src tag (ospf_packet first a b c options d rid rest))
          ≡ ospf_packet first a b c options d rid rest
    behind untagged = refl
    behind (vlan hi lo) = refl
    behind (qinq hi lo) = refl
