-- ===== src/Prober/Frame/Tests.antt =====
-- The frames of the rack (src/prober/frame.rs).
use cfab.Prelude.{◌≡◌, refl, [], ◌∷◌, some, none, any, if◌then◌else◌}
use cfab.Prelude.Bytes.{Bytes, bytes_eq, be32}
use cfab.Prober.Frame.{synthetic_mac, locate, answer, reply_from, hello_router_id}
use cfab.Prober.Frame.Codec.{Six, six, Four, four, untagged, vlan, arp_reply, reply_from-arp_reply}
use cfab.Prober.Frame.Hello.{ospf_packet, ospf_frame, hello_router_id-ospf_frame}

abbrev udm : Six
udm = (0x68, 0xd7, 0x9a, 0x66, 0x91, 0xa9)

abbrev ours : Six
ours = (0x02, 0xcf, 0xab, 0xf2, 0x10, 0x00)

abbrev router : Four
router = (192, 168, 249, 254)

abbrev rack_reply : Bytes
rack_reply = arp_reply ours udm untagged udm router ours (0, 0, 0, 0) []

ours_is_synthetic : synthetic_mac 0xf2 0x10 0 ≡ six ours
unfolding synthetic_mac
ours_is_synthetic = refl

reads_rack_reply : reply_from rack_reply (six ours) (four router ∷ []) ≡ some (six udm)
unfolding reply_from locate answer
reads_rack_reply = refl

reply_from-arp_reply_example :
    reply_from rack_reply (six ours) (four router ∷ [])
    ≡ (if any (bytes_eq (four router)) (four router ∷ []) then some (six udm) else none)
reply_from-arp_reply_example =
    reply_from-arp_reply ours udm untagged udm router ours (0, 0, 0, 0) [] (four router ∷ [])

-- A hello with one word of options, behind a VLAN tag.
abbrev hello : Bytes
hello = ospf_frame ours udm (vlan 0 7) (
    ospf_packet 0x46 (0, 0, 72, 0) (0, 0, 0, 1) (0, 0, 10, 99, 9, 2) (1 ∷ 1 ∷ 0 ∷ 0 ∷ [])
      (2, 1, 0, 44) (10, 99, 0, 2) [])

hello_router_id-ospf_frame_example : hello_router_id hello ≡ some (be32 (four (10, 99, 0, 2)))
hello_router_id-ospf_frame_example =
    hello_router_id-ospf_frame ours udm (vlan 0 7) 0x46 (0, 0, 72, 0) (0, 0, 0, 1)
      (0, 0, 10, 99, 9, 2) (1 ∷ 1 ∷ 0 ∷ 0 ∷ []) (2, 1, 0, 44) (10, 99, 0, 2) [] refl
