-- ===== src/Workload/Actor/Batch/Tests.antt =====
-- A batch on the sample's host (src/workload/actor.rs).
use cfab.Prelude.{◌≡◌, refl, arith, [], some}
use cfab.Prelude.BTreeMap.{string_ord, nat_ord, pair_ord, get}
use cfab.Workload.Table.{Entry}
use cfab.Workload.Actor.Batch.{drain_batch, finish}
use cfab.Workload.Actor.Batch.Sample.{waiting, host, kernel, batch_io}
use cfab.Workload.Table.Valid.{IsValid}
use cfab.Workload.Table.Lasting.{Lasts}
use cfab.Workload.Actor.Batch.Coherent.{IsCoherent}
use cfab.Workload.Actor.Batch.Lasting.{Within}
use cfab.Workload.Actor.Batch.Settled.{Accounted, no_claim_forgotten}

waiting-IsValid : IsValid waiting
waiting-IsValid = record {
  distinct = ground arith;
  addressed = omega arith;
  queued = λ k e got d. ground (arith, got);
}

host-IsCoherent : IsCoherent host
host-IsCoherent = record {
  valid = waiting-IsValid;
  balanced = record {
    sorted = tt;
    writes = refl;
    write_failures = refl;
    skips = refl;
    expiries = refl;
  };
}

batch_io-Within : Within 900 ("vms", 10) batch_io
batch_io-Within = record {
  takes = λ i. omega arith;
  ends = omega arith;
  arrived = λ i. tt;
  between = λ i. tt;
}

no_claim_forgotten_example :
    let d = drain_batch kernel batch_io host in
    let after = (finish 30 (λ _. []) d).table in
    (Lasts 900 ("vms", 10) waiting → Lasts 900 ("vms", 10) after)
    × ((e : Entry)
        → get ("vms", 10) after.entries ≡ some e
        → Accounted kernel waiting.entries d.written ("vms", 10) e after)
no_claim_forgotten_example =
    no_claim_forgotten kernel batch_io host 900 ("vms", 10) host-IsCoherent ((λ i. tt), (λ i. tt))
      batch_io-Within
