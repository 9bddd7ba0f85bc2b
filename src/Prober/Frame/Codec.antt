-- ===== src/Prober/Frame/Codec.antt =====
-- What the parsers accept and refuse (src/prober/frame.rs).
use cfab.Prelude.{
  ◌>>=◌, ℕ, ◌+◌, ◌≤◌, ◌≡◌, refl, ◌⊎◌, inl, inr, true, not, List, [], ◌∷◌, ◌++◌, none, some, arith,
  any, length, ◌==◌, if◌then◌else◌, Option-cases,
}
use cfab.Prelude.Bytes.{Bytes, bytes_eq, bytes_eq_iff, bytes_eq_refl, range, get_range, be16}
use cfab.Prober.Frame.{ethertype_arp, op_reply, probe, locate, answer, reply_from}

-- Six bytes and four.
abbrev pub Six : Type 0
Six = ℕ × ℕ × ℕ × ℕ × ℕ × ℕ

abbrev pub six : Six → Bytes
six m = m.0 ∷ m.1 ∷ m.2 ∷ m.3 ∷ m.4 ∷ m.5 ∷ []

abbrev pub Four : Type 0
Four = ℕ × ℕ × ℕ × ℕ

abbrev pub four : Four → Bytes
four a = a.0 ∷ a.1 ∷ a.2 ∷ a.3 ∷ []

-- No probe is ever taken for a reply: not on its own port, nor on any other, whatever the targets.
pub probe_is_no_reply :
    (m : Six) (router : Four) (src : Bytes) (targets : List Bytes)
    → reply_from (probe (six m) (four router)) src targets ≡ none
unfolding reply_from probe locate answer
probe_is_no_reply m router src targets = refl

-- What may stand between the addresses and the ethertype: no tag, or one.
pub data Tagging : Type 0 where
  untagged : Tagging
  vlan qinq : ℕ → ℕ → Tagging

abbrev pub tag_bytes : Tagging → Bytes
tag_bytes untagged = []
tag_bytes (vlan hi lo) = 0x81 ∷ 0x00 ∷ hi ∷ lo ∷ []
tag_bytes (qinq hi lo) = 0x88 ∷ 0xa8 ∷ hi ∷ lo ∷ []

abbrev pub reply_opcode : Bytes
reply_opcode = 0x00 ∷ 0x01 ∷ 0x08 ∷ 0x00 ∷ 6 ∷ 4 ∷ 0x00 ∷ 0x02 ∷ []

-- An ARP reply on the wire, from the sender `sha` with address `spa`, to `tha`, with padding.
abbrev pub arp_reply :
    (dst src : Six) → Tagging → (sha : Six) (spa : Four) (tha : Six) (tpa : Four) → Bytes → Bytes
arp_reply dst src tag sha spa tha tpa pad =
    six dst
    ++ (six src
        ++ (tag_bytes tag
            ++ (0x08 ∷ 0x06 ∷ reply_opcode
                ++ (six sha ++ (four spa ++ (six tha ++ (four tpa ++ pad)))))))

pub locate-arp_reply :
    (dst src sha : Six) (spa : Four) (tha : Six) (tpa : Four) (pad : Bytes)
    → locate (arp_reply dst src untagged sha spa tha tpa pad) ≡ some (14, ethertype_arp)
unfolding locate
locate-arp_reply dst src sha spa tha tpa pad = ground arith

-- A reply to our address is read for its sender's MAC exactly when the sender's IP is a target,
-- behind one tag or none, and whatever padding, Ethernet addresses and target IP it has.
pub reply_from-arp_reply :
    (dst src : Six) (tag : Tagging) (sha : Six) (spa : Four) (tha : Six) (tpa : Four) (pad : Bytes)
    (targets : List Bytes)
    → reply_from (arp_reply dst src tag sha spa tha tpa pad) (six tha) targets
      ≡ (if any (bytes_eq (four spa)) targets then some (six sha) else none)
unfolding reply_from locate answer
reply_from-arp_reply dst src untagged sha spa tha tpa pad targets =
    ground (arith, bytes_eq_refl (six tha))
reply_from-arp_reply dst src (vlan hi lo) sha spa tha tpa pad targets =
    ground (arith, bytes_eq_refl (six tha))
reply_from-arp_reply dst src (qinq hi lo) sha spa tha tpa pad targets =
    ground (arith, bytes_eq_refl (six tha))

answer_sound :
    (a src : Bytes) (targets : List Bytes) {m : Bytes}
    → answer a src targets ≡ some m
    → (be16 (range 6 8 a) ≡ op_reply)
      × (any (bytes_eq (range 14 18 a)) targets ≡ true)
      × (range 18 24 a ≡ src)
      × (m ≡ range 8 14 a)
unfolding answer
answer_sound a src targets h = ground (arith, bytes_eq_iff (range 18 24 a) src)

-- The two places where a payload may begin.
abbrev pub BeginsAt : Bytes → ℕ → ℕ → Type 0
BeginsAt frame at ethertype =
    ((at ≡ 14)
      × (get_range frame 12 14 ≡ some (range 12 14 frame))
      × (be16 (range 12 14 frame) ≡ ethertype))
    ⊎ ((at ≡ 18)
        × (get_range frame 16 18 ≡ some (range 16 18 frame))
        × (be16 (range 16 18 frame) ≡ ethertype))

pub locate_sound :
    (frame : Bytes) {at ethertype : ℕ}
    → locate frame ≡ some (at, ethertype)
    → BeginsAt frame at ethertype
unfolding locate
locate_sound frame h = ground arith

payload_checked :
    (frame src : Bytes) (targets : List Bytes) (at t : ℕ) {m : Bytes}
    → (if not (t == ethertype_arp)
        then none
        else (do a ← get_range frame at (at + 28); answer a src targets))
      ≡ some m
    → (at + 28 ≤ length frame) × (answer (range at (at + 28) frame) src targets ≡ some m)
payload_checked frame src targets at t h = ground arith

-- Whatever is read as a reply is an ARP packet with the reply opcode, to our address, from one of
-- the targets, and what is read is its sender's MAC; it begins behind one tag or none.
pub reply_from_sound :
    (frame src : Bytes) (targets : List Bytes) {m : Bytes}
    → reply_from frame src targets ≡ some m
    → (at : ℕ) × (locate frame ≡ some (at, ethertype_arp))
      × BeginsAt frame at ethertype_arp
      × (let a = range at (at + 28) frame in
          (at + 28 ≤ length frame)
          × ((be16 (range 6 8 a) ≡ op_reply)
              × (any (bytes_eq (range 14 18 a)) targets ≡ true)
              × (range 18 24 a ≡ src)
              × (m ≡ range 8 14 a)))
unfolding reply_from
reply_from_sound frame src targets {m} h = elim (Option-cases (locate frame)) [
  | inl e ↦ absurd (ground (arith, e))
  | inr ((at, t), e) ↦
      let is_arp : t ≡ ethertype_arp = ground (arith, e) in
      let (fits, found) = payload_checked frame src targets at t (rw e at h) in
      (
        at,
        rw is_arp at e,
        rw is_arp at (locate_sound frame e),
        (fits, answer_sound (range at (at + 28) frame) src targets found),
      )
]
