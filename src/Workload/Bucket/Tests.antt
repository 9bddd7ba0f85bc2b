-- ===== src/Workload/Bucket/Tests.antt =====
-- A bucket that is emptied, and waits (src/workload/actor.rs).
use cfab.Prelude.{ℕ, ◌+◌, ◌-◌, ◌*◌, ◌≤◌, ◌≡◌, refl, List, ◌∷◌, replicate}
use cfab.Workload.Bucket.{burst, token_interval, new, refill_loop, refill, spend}
use cfab.Workload.Bucket.Rate.{spends, spends_are_paced}

-- The 33rd spend at one instant is refused; an interval later one is let through.
abbrev rush : List ℕ
rush = token_interval ∷ replicate 33 0

rushed : (spends 0 rush (new 0)).1 ≡ 32
unfolding spends spend refill refill_loop
rushed = refl

spends_are_paced_example :
    let (last, n) = spends 0 rush (new 0) in 0 + (n - burst) * token_interval ≤ last
spends_are_paced_example = spends_are_paced 0 rush
