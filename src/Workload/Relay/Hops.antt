-- ===== src/Workload/Relay/Hops.antt =====
-- What the relay changes in a request, and why no request circles (src/workload/relay.rs).
use cfab.Prelude.{
  ℕ, ◌+◌, ◌^◌, ◌<◌, ◌≤◌, ◌≡◌, ◌≢◌, refl, sym, ap, subst, ◌∙◌, ◌⊎◌, inl, inr, Bool, true, false, not,
  ◌&&◌, List, [], ◌∷◌, Option, none, some, arith, length, take, get_or, leb, ltb, ◌==◌,
  if◌then◌else◌, if-both, if-cases, Option-cases,
}
use cfab.Prelude.Bytes.{Bytes, range, be32, to_be32, bytes_eq}
use cfab.Prelude.Copy.{copy_at-length, copy_at-outside, copy_at-range, be32-to_be32, drop-copy_at}
use cfab.Workload.Relay.{
  header_len, min_len, magic_cookie, bootrequest, server_port, parse, op, hops, set_hops, giaddr,
  stamped, is_unspecified, Action, forward, discard, DropReason, not_a_bootrequest, hops_exceeded,
  foreign_giaddr, forward_request, forward_client,
}

pub parse_sound :
    (buf : Bytes) {p : Bytes} → parse buf ≡ some p → (p ≡ buf) × (min_len ≤ length buf)
unfolding parse
parse_sound buf {p} h =
    guarded (ltb (length buf) min_len)
      (not (bytes_eq (range header_len (header_len + 4) buf) magic_cookie)) refl h
  where
    guarded :
        (b c : Bool)
        → ltb (length buf) min_len ≡ b
        → (if b then none else if c then none else some buf) ≡ some p
        → (p ≡ buf) × (min_len ≤ length buf)
    guarded true c e h = absurd (ground arith)
    guarded false true e h = absurd (ground arith)
    guarded false false e h = (ground arith, ground (arith, e))

-- What the stamp leaves, on a packet that is long enough.
giaddr-stamped :
    (leg : ℕ) (p : Bytes)
    → leg < 2 ^ 32
    → min_len ≤ length p
    → (giaddr p ≡ 0) ⊎ (giaddr p ≡ leg)
    → giaddr (stamped leg p) ≡ leg
giaddr-stamped leg p small long g =
    let q = set_hops (hops p + 1) p in
    if-cases (λ (r : Bytes). giaddr r ≡ leg) (is_unspecified (giaddr p)) _ _
      (λ _.
        ap be32 (
          copy_at-range 24 4 (to_be32 leg) q refl
            (omega (arith, copy_at-length 3 ((hops p + 1) ∷ []) p)))
        ∙ be32-to_be32 leg small)
      (λ named.
        ap (λ t. be32 (take 4 t)) (drop-copy_at 3 24 ((hops p + 1) ∷ []) p (omega arith))
        ∙ ground (arith, named))

hops-set_hops : (n : ℕ) (p : Bytes) → 4 ≤ length p → hops (set_hops n p) ≡ n
hops-set_hops n [] h = absurd (omega arith)
hops-set_hops n (a ∷ []) h = absurd (omega arith)
hops-set_hops n (a ∷ b ∷ []) h = absurd (omega arith)
hops-set_hops n (a ∷ b ∷ c ∷ []) h = absurd (omega arith)
hops-set_hops n (a ∷ b ∷ c ∷ d ∷ p) h = refl

hops-stamped : (leg : ℕ) (p : Bytes) → min_len ≤ length p → hops (stamped leg p) ≡ hops p + 1
hops-stamped leg p long =
    let q = set_hops (hops p + 1) p in
    if-both (λ (r : Bytes). hops r ≡ hops p + 1) (is_unspecified (giaddr p)) _ _
      (copy_at-outside 24 (to_be32 leg) q 3 (inl (omega arith))
        ∙ hops-set_hops (hops p + 1) p (omega arith))
      (hops-set_hops (hops p + 1) p (omega arith))

length-stamped : (leg : ℕ) (p : Bytes) → length (stamped leg p) ≡ length p
length-stamped leg p =
    let q = set_hops (hops p + 1) p in
    if-both (λ (r : Bytes). length r ≡ length p) (is_unspecified (giaddr p)) _ _
      (copy_at-length 24 (to_be32 leg) q ∙ copy_at-length 3 ((hops p + 1) ∷ []) p)
      (copy_at-length 3 ((hops p + 1) ∷ []) p)

stamped-outside :
    (leg : ℕ) (p : Bytes) (i : ℕ)
    → i ≢ 3
    → (i < 24) ⊎ (28 ≤ i)
    → get_or (stamped leg p) i 0 ≡ get_or p i 0
stamped-outside leg p i n o =
    let q = set_hops (hops p + 1) p in
    let first = copy_at-outside 3 ((hops p + 1) ∷ []) p i (ground (arith, n)) in
    if-both (λ (r : Bytes). get_or r i 0 ≡ get_or p i 0) (is_unspecified (giaddr p)) _ _
      (copy_at-outside 24 (to_be32 leg) q i (ground arith) ∙ first) first

pub forward-parts :
    {a b c d : ℕ} {x y : Bytes} → forward a b x ≡ forward c d y → (a ≡ c) × (b ≡ d) × (x ≡ y)
forward-parts h = (ground arith, ground arith, ground arith)

-- The tests of `forward_client`, passed.
forward_request_passed :
    (leg server : ℕ) (p : Bytes) {to port : ℕ} {out : Bytes}
    → forward_request leg server p ≡ forward to port out
    → (to ≡ server)
      × (port ≡ server_port)
      × (out ≡ stamped leg p)
      × (hops p < 16)
      × ((giaddr p ≡ 0) ⊎ (giaddr p ≡ leg))
forward_request_passed leg server p {to} {port} {out} h =
    tested (op p == bootrequest) (not (is_unspecified (giaddr p)) && not (giaddr p == leg))
      (leb 16 (hops p)) (ground arith) (ground arith) h
  where
    tested :
        (b c d : Bool)
        → (c ≡ false → (giaddr p ≡ 0) ⊎ (giaddr p ≡ leg))
        → (d ≡ false → hops p < 16)
        → (if not b
            then discard not_a_bootrequest
            else if c
            then discard (foreign_giaddr (giaddr p))
            else if d
            then discard hops_exceeded
            else forward server server_port (stamped leg p))
          ≡ forward to port out
        → (to ≡ server)
          × (port ≡ server_port)
          × (out ≡ stamped leg p)
          × (hops p < 16)
          × ((giaddr p ≡ 0) ⊎ (giaddr p ≡ leg))
    tested false c d g k h = absurd (ground arith)
    tested true true d g k h = absurd (ground arith)
    tested true false true g k h = absurd (ground arith)
    tested true false false g k h =
        let (t, q, b) = forward-parts h in (sym t, sym q, sym b, k refl, g refl)

forward_client_passed :
    (pkt : Bytes) (leg server : ℕ) {to port : ℕ} {out : Bytes}
    → forward_client pkt leg server ≡ forward to port out
    → (min_len ≤ length pkt)
      × (to ≡ server)
      × (port ≡ server_port)
      × (out ≡ stamped leg pkt)
      × (hops pkt < 16)
      × ((giaddr pkt ≡ 0) ⊎ (giaddr pkt ≡ leg))
unfolding forward_client
forward_client_passed pkt leg server {to} {port} {out} h = elim (Option-cases (parse pkt)) [
  | inl e ↦ absurd (ground (arith, e))
  | inr (p, e) ↦
      let (same, long) = parse_sound pkt e in
      let passed : forward_request leg server p ≡ forward to port out = ground (arith, e) in
      let (t, q, o, few, g) =
        forward_request_passed leg server pkt
          (subst (λ (x : Bytes). forward_request leg server x ≡ forward to port out) same passed) in
      (long, t, q, o, few, g)
]

-- A request that is forwarded goes to the declared server's port 67, had fewer than 16 hops, and is
-- the packet that came in but for two fields: one more hop, and this leg's address as the relay's.
-- Its length and every byte outside those fields stay. The leg's address is 32 bits.
pub forwarded_request :
    (pkt : Bytes) (leg server : ℕ) {to port : ℕ} {out : Bytes}
    → leg < 2 ^ 32
    → forward_client pkt leg server ≡ forward to port out
    → (to ≡ server)
      × (port ≡ server_port)
      × (hops pkt < 16)
      × (hops out ≡ hops pkt + 1)
      × (giaddr out ≡ leg)
      × (length out ≡ length pkt)
      × ((i : ℕ) → i ≢ 3 → (i < 24) ⊎ (28 ≤ i) → get_or out i 0 ≡ get_or pkt i 0)
forwarded_request pkt leg server small h =
    let (long, t, p, o, few, g) = forward_client_passed pkt leg server h in
    (
      t,
      p,
      few,
      ap hops o ∙ hops-stamped leg pkt long,
      ap giaddr o ∙ giaddr-stamped leg pkt small long g,
      ap length o ∙ length-stamped leg pkt,
      λ i n out. ap (λ (x : Bytes). get_or x i 0) o ∙ stamped-outside leg pkt i n out,
    )

-- A request on its way through relays, each given by its leg's address and its server: what the last
-- one forwards, if all do.
unfoldable pub relay_path : List (ℕ × ℕ) → Bytes → Option Bytes
relay_path [] pkt = some pkt
relay_path ((leg, server) ∷ rest) pkt = elim (forward_client pkt leg server) [
  | forward to port out ↦ relay_path rest out
  | discard reason ↦ none
]

pub Action-cases :
    (a : Action)
    → ((to port : ℕ) × (out : Bytes) × (a ≡ forward to port out))
      ⊎ ((r : DropReason) × (a ≡ discard r))
Action-cases (forward to port out) = inl (to, port, out, refl)
Action-cases (discard r) = inr (r, refl)

relay_path-hops :
    (relays : List (ℕ × ℕ)) (pkt : Bytes) {out : Bytes}
    → relay_path relays pkt ≡ some out
    → (length relays ≡ 0) ⊎ (hops pkt + length relays ≤ 16)
unfolding relay_path
relay_path-hops [] pkt h = inl refl
relay_path-hops ((leg, server) ∷ rest) pkt {out} h =
    elim (Action-cases (forward_client pkt leg server)) [
      | inr (r, e) ↦ absurd (ground (arith, e))
      | inl (to, port, next, e) ↦
          let (long, _, _, o, few, _) = forward_client_passed pkt leg server e in
          let more = ap hops o ∙ hops-stamped leg pkt long in
          let goes_on : relay_path rest next ≡ some out = ground (arith, e) in
          inr (ground (arith, relay_path-hops rest next goes_on, more, few))
    ]

-- No request circles: whatever relays it meets, it is forwarded at most 16 times.
pub requests_do_not_circle :
    (relays : List (ℕ × ℕ)) (pkt : Bytes) {out : Bytes}
    → relay_path relays pkt ≡ some out
    → length relays ≤ 16
requests_do_not_circle relays pkt h = omega (arith, relay_path-hops relays pkt h)
