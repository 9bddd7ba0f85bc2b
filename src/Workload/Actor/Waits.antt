-- ===== src/Workload/Actor/Waits.antt =====
-- The actor's wait for tokens ends (src/workload/actor.rs).
use cfab.Prelude.{ℕ, ◌+◌, ◌≤◌, ◌≡◌, inl, inr, List, ◌∷◌, Option, some, arith, leb, Bool-cases}
use cfab.Workload.Bucket.{Bucket, burst, wait_for, spend}
use cfab.Workload.Bucket.Wait.{wait_for-spend, wait_for-over}
use cfab.Workload.Actor.{wait_and_spend}

-- What a wait that is done leaves.
abbrev pub Paid : ℕ → Option Bucket → Type 0
Paid want r = (b : Bucket) × (r ≡ some b) × (want ≤ b.tokens + 1)

-- The round that finds nothing to wait for.
done_at_once :
    (decide_at spend_at want : ℕ) (rounds : List (ℕ × ℕ)) (b : Bucket)
    → 1 ≤ want
    → want ≤ burst
    → decide_at ≤ spend_at
    → (wait_for decide_at want b).1 ≡ 0
    → Paid want (wait_and_spend ((decide_at, spend_at) ∷ rounds) want b)
unfolding wait_and_spend
done_at_once decide_at spend_at want rounds b some_wanted small later nothing =
    let (paid, left) =
      wait_for-spend decide_at want spend_at b some_wanted small (omega (arith, nothing, later)) in
    ((spend spend_at (wait_for decide_at want b).0).0, ground (arith, nothing, paid), left)

-- The loop that waits for tokens ends: where no more than a burst is wanted, and the sleep of its
-- first round lasts as long as it was asked to, its second round spends a token at the latest, and
-- what remains is enough for the rest of what was wanted.
pub two_rounds_pay :
    (decide_at spend_at again_at paid_at want : ℕ) (rounds : List (ℕ × ℕ)) (b : Bucket)
    → 1 ≤ want
    → want ≤ burst
    → decide_at ≤ spend_at
    → decide_at + (wait_for decide_at want b).1 ≤ again_at
    → again_at ≤ paid_at
    → (b' : Bucket) × (wait_and_spend ((decide_at, spend_at) ∷ (again_at, paid_at) ∷ rounds) want b
        ≡ some b')
      × (want ≤ b'.tokens + 1)
unfolding wait_and_spend
two_rounds_pay decide_at spend_at again_at paid_at want rounds b some_wanted small later slept
      later' =
    elim (Bool-cases (leb (wait_for decide_at want b).1 0)) [
      | inl nothing ↦
          done_at_once decide_at spend_at want ((again_at, paid_at) ∷ rounds) b some_wanted small
            later (ground (arith, nothing))
      | inr waits ↦ rw waits (
          done_at_once again_at paid_at want rounds (wait_for decide_at want b).0 some_wanted small
            later' (wait_for-over decide_at want again_at b small slept))
    ]
