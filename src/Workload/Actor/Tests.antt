-- ===== src/Workload/Actor/Tests.antt =====
-- Waits and journal lines (src/workload/actor.rs).
use cfab.Prelude.{◌+◌, ◌≤◌, ◌≡◌, [], ◌∷◌, some, arith}
use cfab.Prelude.BTreeMap.{string_ord}
use cfab.Workload.Table.{new}
use cfab.Workload.Bucket.{Bucket, refill_loop, refill, wait_for}
use cfab.Workload.Actor.{FlushActor, with_observer, wait_and_spend}
use cfab.Workload.Actor.Waits.{two_rounds_pay}

-- One token is there and three are wanted.
abbrev low : Bucket
low = record { tokens = 1; next_token_at = 50 }

two_rounds_pay_example :
    (b' : Bucket) × (wait_and_spend ((10, 12) ∷ (100000050, 100000060) ∷ []) 3 low ≡ some b')
    × (3 ≤ b'.tokens + 1)
unfolding wait_for refill refill_loop
two_rounds_pay_example =
    two_rounds_pay 10 12 100000050 100000060 3 [] low (omega arith) (omega arith) (omega arith)
      (omega arith) (omega arith)

abbrev quiet : FlushActor
quiet = with_observer new 0
