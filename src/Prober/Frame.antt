-- ===== src/Prober/Frame.antt =====
-- The two frames the probers speak, byte for byte: src/prober/frame.rs. A MAC is its six bytes, an
-- IPv4 address its four octets.
pub mod Codec
pub mod Hello
mod Tests
use cfab.Prelude.{
  ◌>>=◌, ℕ, ◌+◌, ◌*◌, ◌%◌, Bool, true, false, not, ◌&&◌, ◌||◌, List, [], ◌∷◌, Option, none, some,
  ltb, ◌==◌, if◌then◌else◌, any, replicate, get_or,
}
use cfab.Prelude.Bytes.{Bytes, bytes_eq, range, get_range, get_byte, be16, be32, to_be16, copy_at}

abbrev pub probe_len : ℕ
probe_len = 42

abbrev pub ethertype_arp : ℕ
ethertype_arp = 0x0806

abbrev pub ethertype_vlan : ℕ
ethertype_vlan = 0x8100

abbrev pub ethertype_qinq : ℕ
ethertype_qinq = 0x88a8

abbrev pub ethertype_ipv4 : ℕ
ethertype_ipv4 = 0x0800

abbrev pub htype_ethernet : ℕ
htype_ethernet = 1

abbrev pub ptype_ipv4 : ℕ
ptype_ipv4 = 0x0800

abbrev pub op_request : ℕ
op_request = 1

abbrev pub op_reply : ℕ
op_reply = 2

abbrev pub all_spf_routers : Bytes
all_spf_routers = 224 ∷ 0 ∷ 0 ∷ 5 ∷ []

abbrev pub ipproto_ospf : ℕ
ipproto_ospf = 89

pub synthetic_mac : ℕ → ℕ → ℕ → Bytes
synthetic_mac node zone_id port_index = 0x02 ∷ 0xcf ∷ 0xab ∷ node ∷ zone_id ∷ port_index ∷ []

-- The writes into the zeroed frame, in the order of the source.
pub probe : Bytes → Bytes → Bytes
probe src router = copy_at 38 router (
    copy_at 22 src (
      copy_at 20 (to_be16 op_request) (
        copy_at 19 (4 ∷ []) (
          copy_at 18 (6 ∷ []) (
            copy_at 16 (to_be16 ptype_ipv4) (
              copy_at 14 (to_be16 htype_ethernet) (
                copy_at 12 (to_be16 ethertype_arp)
                  (copy_at 6 src (copy_at 0 (replicate 6 0xff) (replicate probe_len 0))))))))))

-- The start of both parsers: where the payload begins, and its ethertype. At most one tag is
-- skipped.
pub locate : Bytes → Option (ℕ × ℕ)
locate frame = do
  outer ← get_range frame 12 14
  if be16 outer == ethertype_vlan || be16 outer == ethertype_qinq
      then (do inner ← get_range frame 16 18; some (18, be16 inner))
      else some (14, be16 outer)

-- The checks of `reply_from` on the 28 bytes of the ARP packet.
abbrev pub is_ethernet_ipv4 : Bytes → Bool
is_ethernet_ipv4 a =
    be16 (range 0 2 a) == htype_ethernet
    && be16 (range 2 4 a) == ptype_ipv4
    && get_or a 4 0 == 6
    && get_or a 5 0 == 4

pub answer : Bytes → Bytes → List Bytes → Option Bytes
answer a src targets =
    if not (is_ethernet_ipv4 a)
    then none
    else if not (be16 (range 6 8 a) == op_reply)
    then none
    else if not (any (bytes_eq (range 14 18 a)) targets) || not (bytes_eq (range 18 24 a) src)
    then none
    else some (range 8 14 a)

pub reply_from : Bytes → Bytes → List Bytes → Option Bytes
reply_from frame src targets = do
  (arp, ethertype) ← locate frame
  if not (ethertype == ethertype_arp)
      then none
      else (do a ← get_range frame arp (arp + 28); answer a src targets)

-- The part of `hello_router_id` behind the ethertype. `& 0x0f` is `% 16`.
pub ospf_router : Bytes → ℕ → Option ℕ
ospf_router frame ip = do
  first ← get_byte frame ip
  let ihl = first % 16 * 4
  if ltb ihl 20 then none else (do
    hdr ← get_range frame ip (ip + ihl)
    if not (get_or hdr 9 0 == ipproto_ospf) || not (bytes_eq (range 16 20 hdr) all_spf_routers)
        then none
        else (do rid ← get_range frame (ip + ihl + 4) (ip + ihl + 8); some (be32 rid)))

pub hello_router_id : Bytes → Option ℕ
hello_router_id frame = do
  (ip, ethertype) ← locate frame
  if not (ethertype == ethertype_ipv4) then none else ospf_router frame ip
