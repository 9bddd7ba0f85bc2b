-- ===== src/Prober/Bpf/Tests.antt =====
-- The filter on the frames of its tests (src/prober/bpf.rs).
use cfab.Prelude.{◌≡◌, refl, [], if◌then◌else◌}
use cfab.Prelude.Bytes.{Bytes}
use cfab.Prober.Frame.Codec.{untagged, Six, arp_reply}
use cfab.Prober.Frame.Hello.{ospf_packet, ospf_frame}
use cfab.Prober.Bpf.{program, accept, returned, run}
use cfab.Prober.Bpf.Exact.{is_evidence, run_exact}

abbrev us : Six
us = (2, 0xcf, 0xab, 1, 2, 3)

abbrev hello : Bytes
hello = ospf_frame us us untagged (
    ospf_packet 0x45 (0, 0, 72, 0) (0, 0, 0, 1) (0, 0, 10, 99, 9, 2) [] (2, 1, 0, 44) (10, 99, 0, 2)
      [])

short : run program [] ≡ returned 0
unfolding run
short = refl

run_exact_example : run program hello ≡ returned (if is_evidence hello then accept else 0)
run_exact_example = run_exact hello

abbrev reply : Bytes
reply = arp_reply us us untagged us (10, 0, 0, 1) us (0, 0, 0, 0) []
