-- ===== src/Workload/Relay.antt =====
-- The DHCP relay's decisions on one packet: the pure half of src/workload/relay.rs. An IPv4 address is its 32-bit number, a MAC its six bytes.
pub mod Options
pub mod Hops
pub mod Replies
mod Tests
use cfab.Prelude.{
  ℕ, zero, suc, ◌+◌, ◌-◌, ◌*◌, ◌/◌, ◌^◌, Bool, true, false, not, ◌&&◌, ◌||◌, List, [], ◌∷◌, Option,
  none, some, ltb, leb, ◌==◌, if◌then◌else◌, any, length, drop, take, get_or,
}
use cfab.Model.Prefix.{Ipv4Prefix, contains, broadcast}
use cfab.Prelude.Bytes.{Bytes, bytes_eq, range, be32, to_be32, copy_at}

abbrev pub bootrequest : ℕ
bootrequest = 1

abbrev pub bootreply : ℕ
bootreply = 2

abbrev pub dhcpack : ℕ
dhcpack = 5

abbrev pub header_len : ℕ
header_len = 236

abbrev pub magic_cookie : Bytes
magic_cookie = 99 ∷ 130 ∷ 83 ∷ 99 ∷ []

abbrev pub min_len : ℕ
min_len = 240

-- `PORT`.
abbrev pub server_port : ℕ
server_port = 67

abbrev pub client_port : ℕ
client_port = 68

abbrev pub broadcast_address : ℕ
broadcast_address = 2 ^ 32 - 1

-- `Bootp::parse`: the bytes themselves, if they are long enough and carry the cookie.
pub parse : Bytes → Option Bytes
parse buf =
    if ltb (length buf) min_len
    then none
    else if not (bytes_eq (range header_len (header_len + 4) buf) magic_cookie)
    then none
    else some buf

abbrev pub op : Bytes → ℕ
op p = get_or p 0 0

abbrev pub htype : Bytes → ℕ
htype p = get_or p 1 0

abbrev pub hlen : Bytes → ℕ
hlen p = get_or p 2 0

abbrev pub hops : Bytes → ℕ
hops p = get_or p 3 0

abbrev pub set_hops : ℕ → Bytes → Bytes
set_hops n p = copy_at 3 (n ∷ []) p

abbrev pub addr_at : ℕ → Bytes → ℕ
addr_at off p = be32 (range off (off + 4) p)

abbrev pub ciaddr : Bytes → ℕ
ciaddr p = addr_at 12 p

abbrev pub yiaddr : Bytes → ℕ
yiaddr p = addr_at 16 p

abbrev pub giaddr : Bytes → ℕ
giaddr p = addr_at 24 p

abbrev pub set_giaddr : ℕ → Bytes → Bytes
set_giaddr a p = copy_at 24 (to_be32 a) p

pub chaddr6 : Bytes → Option Bytes
chaddr6 p = if htype p == 1 && hlen p == 6 then some (range 28 34 p) else none

-- The loop of `option`, on what is left of the option area: at most one round per byte.
pub scan : ℕ → ℕ → ℕ → Bytes → Option Bytes
scan zero code len opts = none
scan (suc n) code len [] = none
scan (suc n) code len (c ∷ []) = none
scan (suc n) code len (c ∷ l ∷ rest) =
    let padded = scan n code len (l ∷ rest) in
    let next = scan n code len (drop l rest) in
    if c == 0
    then padded
    else if c == 255
    then none
    else if leb l (length rest)
    then (if c == code && l == len then some (take l rest) else next)
    else none

pub option : ℕ → ℕ → Bytes → Option Bytes
unfolding scan
option code len p = let opts = drop min_len p in scan (length opts) code len opts

abbrev pub first_byte : Option Bytes → Option ℕ
first_byte none = none
first_byte (some v) = some (get_or v 0 0)

pub message_type : Bytes → Option ℕ
message_type p = first_byte (option 53 1 p)

abbrev pub word_of : Option Bytes → Option ℕ
word_of none = none
word_of (some v) = some (be32 v)

pub lease_time : Bytes → Option ℕ
lease_time p = word_of (option 51 4 p)

pub data DropReason : Type 0 where
  malformed not_a_bootrequest not_a_bootreply hops_exceeded : DropReason
  foreign_giaddr untrusted_server foreign_reply_giaddr out_of_prefix : ℕ → DropReason

pub data Action : Type 0 where
  forward : (to port : ℕ) → (bytes : Bytes) → Action
  discard : DropReason → Action

-- `is_unspecified`.
abbrev pub is_unspecified : ℕ → Bool
is_unspecified a = a == 0

-- What is sent on to the server. The hops are below 16, so the byte does not overflow.
abbrev pub stamped : ℕ → Bytes → Bytes
stamped leg p =
    let q = set_hops (hops p + 1) p in if is_unspecified (giaddr p) then set_giaddr leg q else q

abbrev pub forward_request : ℕ → ℕ → Bytes → Action
forward_request leg dhcp_server p =
    if not (op p == bootrequest)
    then discard not_a_bootrequest
    else if not (is_unspecified (giaddr p)) && not (giaddr p == leg)
    then discard (foreign_giaddr (giaddr p))
    else if leb 16 (hops p)
    then discard hops_exceeded
    else forward dhcp_server server_port (stamped leg p)

pub forward_client : Bytes → ℕ → ℕ → Action
unfolding parse
forward_client pkt leg dhcp_server = elim (parse pkt) [
  | none ↦ discard malformed
  | some p ↦ forward_request leg dhcp_server p
]

abbrev pub is_foreign : Ipv4Prefix → ℕ → Bool
is_foreign prefix a = not (is_unspecified a) && not (contains prefix a)

abbrev pub forward_reply : ℕ → ℕ → ℕ → Ipv4Prefix → Bytes → Action
forward_reply src leg dhcp_server prefix p =
    if not (op p == bootreply)
    then discard not_a_bootreply
    else if not (src == dhcp_server)
    then discard (untrusted_server src)
    else if not (giaddr p == leg)
    then discard (foreign_reply_giaddr (giaddr p))
    else if is_foreign prefix (ciaddr p)
    then discard (out_of_prefix (ciaddr p))
    else if is_foreign prefix (yiaddr p)
    then discard (out_of_prefix (yiaddr p))
    else forward (if is_unspecified (ciaddr p) then broadcast_address else ciaddr p) client_port p

pub forward_server : Bytes → ℕ → ℕ → ℕ → Ipv4Prefix → Action
forward_server pkt src leg dhcp_server prefix = elim (parse pkt) [
  | none ↦ discard malformed
  | some p ↦ forward_reply src leg dhcp_server prefix p
]

pub data AckOutcome : Type 0 where
  discovered : (addr : ℕ) → (mac : Bytes) → (lease : Option ℕ) → AckOutcome
  refused : ℕ → AckOutcome
  ignore : AckOutcome

-- `p.message_type() != Some(DHCPACK)`.
abbrev pub is_ack : Option ℕ → Bool
is_ack none = false
is_ack (some t) = t == dhcpack

abbrev pub register : ℕ → Option ℕ → Option Bytes → AckOutcome
register addr lease none = ignore
register addr lease (some mac) = discovered addr mac lease

abbrev pub discover : Ipv4Prefix → List ℕ → Bytes → AckOutcome
discover prefix fabric_addresses p =
    if not (is_ack (message_type p))
    then ignore
    else if is_unspecified (yiaddr p) || not (contains prefix (yiaddr p))
    then ignore
    else if any (λ a. a == yiaddr p) fabric_addresses
        || yiaddr p == prefix.net
        || yiaddr p == broadcast prefix
    then refused (yiaddr p)
    else register (yiaddr p) (lease_time p) (chaddr6 p)

pub ack_discovery : Bytes → Ipv4Prefix → List ℕ → AckOutcome
ack_discovery pkt prefix fabric_addresses = elim (parse pkt) [
  | none ↦ ignore
  | some p ↦ discover prefix fabric_addresses p
]
