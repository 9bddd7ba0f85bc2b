-- ===== src/Model/Prefix.antt =====
-- `Ipv4Prefix` of src/model.rs. An address is its 32-bit number.
use Prim.Native.String.{String}
use cfab.Prelude.Text
use cfab.Prelude.Ipv4
use cfab.Prelude.{
  Option, none, some, leb, if◌then◌else◌, ℕ, ◌+◌, ◌-◌, ◌*◌, ◌/◌, ◌^◌, Bool, ◌==◌, min,
}

-- `Ipv4Prefix`. `& mask(len)` drops the low `32 - len` bits.
pub record Ipv4Prefix : Type 0 where
  pub net : ℕ
  pub len : ℕ

abbrev pub masked : ℕ → ℕ → ℕ
masked len a = a / 2 ^ (32 - len) * 2 ^ (32 - len)

abbrev pub contains : Ipv4Prefix → ℕ → Bool
contains p a = masked p.len a == p.net

-- `net | !mask(len)`.
abbrev pub broadcast : Ipv4Prefix → ℕ
broadcast p = masked p.len p.net + (2 ^ (32 - p.len) - 1)

-- `overlaps`: the same network under the shorter mask.
abbrev pub overlaps : Ipv4Prefix → Ipv4Prefix → Bool
overlaps p q = masked (min p.len q.len) p.net == masked (min p.len q.len) q.net

-- `first_host`: `saturating_add`.
abbrev pub first_host : Ipv4Prefix → ℕ
first_host p = min (p.net + 1) (2 ^ 32 - 1)

abbrev pub netmask : Ipv4Prefix → ℕ
netmask p = (2 ^ p.len - 1) * 2 ^ (32 - p.len)

-- An address and a length, if the length is at most 32.
abbrev with_length : Option ℕ → Option ℕ → Option (ℕ × ℕ)
with_length none l = none
with_length (some a) none = none
with_length (some a) (some l) = if leb l 32 then some (a, l) else none

abbrev halves : Option (String × String) → Option (ℕ × ℕ)
halves none = none
halves (some (a, l)) = with_length (Ipv4.from_str a) (Text.parse_u8 l)

-- `parse_ipv4_with_len`.
unfoldable pub parse_ipv4_with_len : String → Option (ℕ × ℕ)
parse_ipv4_with_len s = halves (Text.split_once 47 s)

abbrev pub network : Option (ℕ × ℕ) → Option Ipv4Prefix
network none = none
network (some (a, l)) =
    if masked l a == a then some (record { net = masked l a; len = l }) else none

-- `Ipv4Prefix::parse`: the address must be the network's.
unfoldable pub parse_prefix : String → Option Ipv4Prefix
unfolding parse_ipv4_with_len
parse_prefix s = network (parse_ipv4_with_len s)
