-- ===== src/Workload/Relay/Replies.antt =====
-- Which replies are passed on, and what they teach (src/workload/relay.rs).
use cfab.Prelude.{
  ℕ, ◌≡◌, ◌≢◌, refl, sym, ap, ◌⊎◌, inl, inr, Bool, true, false, not, ◌||◌, List, Option, none, some,
  arith, any, ◌==◌, if◌then◌else◌, Option-cases, subst,
}
use cfab.Prelude.Bytes.{Bytes}
use cfab.Workload.Relay.{
  bootreply, dhcpack, client_port, broadcast_address, parse, op, ciaddr, yiaddr, giaddr, chaddr6,
  is_unspecified, is_foreign, forward, discard, not_a_bootreply, untrusted_server,
  foreign_reply_giaddr, out_of_prefix, forward_reply, forward_server, discovered, refused, ignore,
  message_type, lease_time, is_ack, register, discover, ack_discovery,
}
use cfab.Model.Prefix.{Ipv4Prefix, contains, broadcast}
use cfab.Workload.Relay.Hops.{parse_sound, forward-parts}

-- Every address that a reply names is none, or one of the row's own.
abbrev pub IsOwn : Ipv4Prefix → ℕ → Type 0
IsOwn prefix a = (a ≡ 0) ⊎ (contains prefix a ≡ true)

forward_reply_passed :
    (src leg server : ℕ) (prefix : Ipv4Prefix) (p : Bytes) {to port : ℕ} {out : Bytes}
    → forward_reply src leg server prefix p ≡ forward to port out
    → (op p ≡ bootreply)
      × (src ≡ server)
      × (giaddr p ≡ leg)
      × IsOwn prefix (ciaddr p)
      × IsOwn prefix (yiaddr p)
      × (to ≡ (if is_unspecified (ciaddr p) then broadcast_address else ciaddr p))
      × (port ≡ client_port)
      × (out ≡ p)
forward_reply_passed src leg server prefix p {to} {port} {out} h =
    tested (op p == bootreply) (src == server) (giaddr p == leg) (is_foreign prefix (ciaddr p))
      (is_foreign prefix (yiaddr p)) (ground arith) (ground arith) (ground arith) (ground arith)
      (ground arith) h
  where
    dest : ℕ
    dest = if is_unspecified (ciaddr p) then broadcast_address else ciaddr p

    tested :
        (a b c d e : Bool)
        → (a ≡ true → op p ≡ bootreply)
        → (b ≡ true → src ≡ server)
        → (c ≡ true → giaddr p ≡ leg)
        → (d ≡ false → IsOwn prefix (ciaddr p))
        → (e ≡ false → IsOwn prefix (yiaddr p))
        → (if not a
            then discard not_a_bootreply
            else if not b
            then discard (untrusted_server src)
            else if not c
            then discard (foreign_reply_giaddr (giaddr p))
            else if d
            then discard (out_of_prefix (ciaddr p))
            else if e
            then discard (out_of_prefix (yiaddr p))
            else forward dest client_port p)
          ≡ forward to port out
        → (op p ≡ bootreply)
          × (src ≡ server)
          × (giaddr p ≡ leg)
          × IsOwn prefix (ciaddr p)
          × IsOwn prefix (yiaddr p)
          × (to ≡ dest)
          × (port ≡ client_port)
          × (out ≡ p)
    tested false b c d e i j k l m h = absurd (ground arith)
    tested true false c d e i j k l m h = absurd (ground arith)
    tested true true false d e i j k l m h = absurd (ground arith)
    tested true true true true e i j k l m h = absurd (ground arith)
    tested true true true false true i j k l m h = absurd (ground arith)
    tested true true true false false i j k l m h =
        let (t, q, b) = forward-parts h in
        (i refl, j refl, k refl, l refl, m refl, sym t, sym q, sym b)

-- A reply that is passed on came from the declared server, answers this leg, and names neither a client's
-- address nor an offered one (ciaddr, yiaddr) outside the row's prefix; it is passed on unchanged, to the client's own address if it has one and
-- else to all.
pub forwarded_reply :
    (pkt : Bytes) (src leg server : ℕ) (prefix : Ipv4Prefix) {to port : ℕ} {out : Bytes}
    → forward_server pkt src leg server prefix ≡ forward to port out
    → (op pkt ≡ bootreply)
      × (src ≡ server)
      × (giaddr pkt ≡ leg)
      × IsOwn prefix (ciaddr pkt)
      × IsOwn prefix (yiaddr pkt)
      × (to ≡ (if is_unspecified (ciaddr pkt) then broadcast_address else ciaddr pkt))
      × (port ≡ client_port)
      × (out ≡ pkt)
unfolding forward_server
forwarded_reply pkt src leg server prefix {to} {port} {out} h = elim (Option-cases (parse pkt)) [
  | inl e ↦ absurd (ground (arith, e))
  | inr (p, e) ↦
      let (same, long) = parse_sound pkt e in
      let passed : forward_reply src leg server prefix p ≡ forward to port out =
        ground (arith, e) in
      forward_reply_passed src leg server prefix pkt (
        subst (λ (x : Bytes). forward_reply src leg server prefix x ≡ forward to port out) same
          passed)
]

-- What an acknowledgement taught.
abbrev pub Taught : Ipv4Prefix → List ℕ → Bytes → ℕ → Bytes → Option ℕ → Type 0
Taught prefix fabric p a mac lease =
    (a ≡ yiaddr p)
    × (a ≢ 0)
    × (contains prefix a ≡ true)
    × (any (λ x. x == a) fabric ≡ false)
    × (a ≢ prefix.net)
    × (a ≢ broadcast prefix)
    × (message_type p ≡ some dhcpack)
    × (chaddr6 p ≡ some mac)
    × (lease ≡ lease_time p)

discovered-parts :
    {a b : ℕ} {x y : Bytes} {l m : Option ℕ}
    → discovered a x l ≡ discovered b y m
    → (a ≡ b) × (x ≡ y) × (l ≡ m)
discovered-parts h = (ground arith, ground arith, ground arith)

register_discovered :
    (addr : ℕ) (l : Option ℕ) (c : Option Bytes) {a : ℕ} {mac : Bytes} {lease : Option ℕ}
    → register addr l c ≡ discovered a mac lease
    → (a ≡ addr) × (c ≡ some mac) × (lease ≡ l)
register_discovered addr l none h = absurd (ground arith)
register_discovered addr l (some m) h =
    let (p, q, r) = discovered-parts h in (sym p, ap (λ (x : Bytes). some x) q, sym r)

is_ack_sound : (o : Option ℕ) → is_ack o ≡ true → o ≡ some dhcpack
is_ack_sound none h = absurd (ground arith)
is_ack_sound (some t) h = ground arith

discover-Taught :
    (prefix : Ipv4Prefix) (fabric : List ℕ) (p : Bytes) {a : ℕ} {mac : Bytes} {lease : Option ℕ}
    → discover prefix fabric p ≡ discovered a mac lease
    → Taught prefix fabric p a mac lease
discover-Taught prefix fabric p {a} {mac} {lease} h =
    tested (yiaddr p) refl (is_ack (message_type p)) (is_unspecified (yiaddr p))
      (contains prefix (yiaddr p)) (any (λ x. x == yiaddr p) fabric) (yiaddr p == prefix.net)
      (yiaddr p == broadcast prefix) refl (ground arith) refl refl (ground arith) (ground arith) h
  where
    tested :
        (y : ℕ)
        → y ≡ yiaddr p
        → (b c d e f g : Bool) → is_ack (message_type p) ≡ b
        → (c ≡ false → yiaddr p ≢ 0)
        → contains prefix (yiaddr p) ≡ d
        → any (λ x. x == yiaddr p) fabric ≡ e
        → (f ≡ false → yiaddr p ≢ prefix.net)
        → (g ≡ false → yiaddr p ≢ broadcast prefix)
        → (if not b
            then ignore
            else if c || not d
            then ignore
            else if e || f || g
            then refused (yiaddr p)
            else register (yiaddr p) (lease_time p) (chaddr6 p))
          ≡ discovered a mac lease
        → Taught prefix fabric p a mac lease
    tested y same false c d e f g i j k l m n h = absurd (ground arith)
    tested y same true true d e f g i j k l m n h = absurd (ground arith)
    tested y same true false false e f g i j k l m n h = absurd (ground arith)
    tested y same true false true true f g i j k l m n h = absurd (ground arith)
    tested y same true false true false true g i j k l m n h = absurd (ground arith)
    tested y same true false true false false true i j k l m n h = absurd (ground arith)
    tested y same true false true false false false i j k l m n h =
        let (p1, p2, p3) = register_discovered (yiaddr p) (lease_time p) (chaddr6 p) h in
        (
          p1,
          rw p1 (j refl),
          rw p1 k,
          rw p1 l,
          rw p1 (m refl),
          rw p1 (n refl),
          is_ack_sound (message_type p) i,
          p2,
          p3,
        )

-- An acknowledgement teaches an address only if it is a DHCPACK and the address is what it offers,
-- is inside the row's prefix, is neither its network nor its broadcast address, and is held by no
-- member of the fabric; the MAC and the lease that go with it are those of the packet.
pub discovered_is_safe :
    (pkt : Bytes) (prefix : Ipv4Prefix) (fabric : List ℕ) {a : ℕ} {mac : Bytes} {lease : Option ℕ}
    → ack_discovery pkt prefix fabric ≡ discovered a mac lease
    → Taught prefix fabric pkt a mac lease
unfolding ack_discovery
discovered_is_safe pkt prefix fabric {a} {mac} {lease} h = elim (Option-cases (parse pkt)) [
  | inl e ↦ absurd (ground (arith, e))
  | inr (p, e) ↦
      let (same, long) = parse_sound pkt e in
      let passed : discover prefix fabric p ≡ discovered a mac lease = ground (arith, e) in
      discover-Taught prefix fabric pkt
        (subst (λ (x : Bytes). discover prefix fabric x ≡ discovered a mac lease) same passed)
]
