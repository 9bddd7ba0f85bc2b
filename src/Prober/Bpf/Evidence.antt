-- ===== src/Prober/Bpf/Evidence.antt =====
-- The filter hides no evidence from the parsers (src/prober/bpf.rs, src/prober/frame.rs).
use cfab.Prelude.{ℕ, ◌≤◌, ◌≡◌, ◌⊎◌, ap, inl, inr, true, List, some, arith, length, get_or}
use cfab.Prelude.Bytes.{Bytes, range, get_range, get_byte-get_or, be16, be32}
use cfab.Prober.Frame.{locate, reply_from, hello_router_id}
use cfab.Prober.Frame
use cfab.Prober.Frame.Codec.{BeginsAt, reply_from_sound}
use cfab.Prober.Frame.Hello.{hello_router_id_sound}
use cfab.Prober.Bpf.{program, accept, returned, run}
use cfab.Prober.Bpf.Exact.{is_evidence, run_exact}

accepts : (frame : Bytes) → is_evidence frame ≡ true → run program frame ≡ returned accept
accepts frame e = rw (run_exact frame, e)

first_word :
    (frame : Bytes) {t ip n : ℕ}
    → locate frame ≡ some (14, n)
    → locate frame ≡ some (ip, t)
    → BeginsAt frame ip t
    → (get_range frame 12 14 ≡ some (range 12 14 frame)) × (be16 (range 12 14 frame) ≡ t)
first_word frame at there (inl (_, g, e)) = (g, e)
first_word frame at there (inr (e, _, _)) = absurd (ground arith)

pub replies_pass :
    (frame src : Bytes) (targets : List Bytes) {m : Bytes} {ethertype : ℕ}
    → locate frame ≡ some (14, ethertype)
    → reply_from frame src targets ≡ some m
    → run program frame ≡ returned accept
replies_pass frame src targets at h =
    let (at', there, begins, _) = reply_from_sound frame src targets h in
    let (got, word) = first_word frame at there begins in
    accepts frame (rw got (ground (arith, word)))

ospf_passes :
    (frame : Bytes)
    → get_range frame 12 14 ≡ some (range 12 14 frame)
    → be16 (range 12 14 frame) ≡ Frame.ethertype_ipv4
    → get_or frame 23 0 ≡ Frame.ipproto_ospf
    → range 30 34 frame ≡ Frame.all_spf_routers
    → 34 ≤ length frame
    → run program frame ≡ returned accept
ospf_passes frame got word proto dst long =
    accepts frame
      (rw (got, get_byte-get_or frame 23 (omega arith)) (ground (arith, word, proto, ap be32 dst)))

pub hellos_pass :
    (frame : Bytes) {rid ethertype : ℕ}
    → locate frame ≡ some (14, ethertype)
    → hello_router_id frame ≡ some rid
    → run program frame ≡ returned accept
hellos_pass frame at h =
    let (ip, n, there, begins, whole, fits, proto, dst, _) = hello_router_id_sound frame h in
    let (got, word) = first_word frame at there begins in
    let same : ip ≡ 14 = ground (arith, there) in
    ospf_passes frame got word (rw same at proto) (rw same at dst) (omega (arith, same))

-- On an untagged frame, whatever the ingress prober would read as a reply, or the fallback prober as a
-- hello, the filter lets through.
pub evidence_passes :
    (frame src : Bytes) (targets : List Bytes) {m : Bytes} {rid ethertype : ℕ}
    → locate frame ≡ some (14, ethertype)
    → (reply_from frame src targets ≡ some m) ⊎ (hello_router_id frame ≡ some rid)
    → run program frame ≡ returned accept
evidence_passes frame src targets at (inl h) = replies_pass frame src targets at h
evidence_passes frame src targets at (inr h) = hellos_pass frame at h
