-- ===== src/Workload/Bucket/Wait.antt =====
-- How long the actor waits for tokens (src/workload/actor.rs).
use cfab.Prelude.{
  ℕ, zero, suc, ◌+◌, ◌-◌, ◌*◌, ◌≤◌, ◌≡◌, refl, Bool, true, ◌==◌, ◌⊎◌, inl, inr, ◌&&◌, arith, ltb,
  leb, if-both, if-cases,
}
use cfab.Workload.Bucket.{
  burst, token_interval, Bucket, refill_loop, refill, level, spend, wait_for,
}

refill_loop-grants :
    (n t want : ℕ) (b : Bucket)
    → want ≤ burst
    → want ≤ b.tokens + n
    → (want ≤ b.tokens) ⊎ (b.next_token_at + token_interval * (want - b.tokens - 1) ≤ t)
    → want ≤ (refill_loop n t b).tokens
unfolding refill_loop
refill_loop-grants zero t want b small room due = omega (arith, room)
refill_loop-grants (suc n) t want b small room due =
    let next : Bucket = record {
      tokens = b.tokens + 1;
      next_token_at = b.next_token_at + token_interval;
    } in
    if-cases (λ (r : Bucket). want ≤ r.tokens) (ltb b.tokens burst && leb b.next_token_at t) _ _
      (λ _. refill_loop-grants n t want next small (omega (arith, room)) (ground (arith, due)))
      (λ stop. ground (arith, stop, due, small))

refill-grants :
    (t want : ℕ) (b : Bucket)
    → want ≤ burst
    → (want ≤ b.tokens) ⊎ (b.next_token_at + token_interval * (want - b.tokens - 1) ≤ t)
    → want ≤ (refill t b).tokens
unfolding refill
refill-grants t want b small due =
    let enough = refill_loop-grants (burst - b.tokens) t want b small (omega (arith, small)) due in
    let b' = refill_loop (burst - b.tokens) t b in
    if-both (λ (r : Bucket). want ≤ r.tokens) (leb burst b'.tokens && leb b'.next_token_at t) _ _
      enough enough

-- When the wait is over, or later, the tokens are there.
wait_for-grants :
    (now want t : ℕ) (b : Bucket)
    → want ≤ burst
    → now + (wait_for now want b).1 ≤ t
    → want ≤ (refill t (wait_for now want b).0).tokens
unfolding wait_for
wait_for-grants now want t b small over =
    let b' = refill now b in
    if-cases (λ (r : Bucket × ℕ). now + r.1 ≤ t → want ≤ (refill t r.0).tokens) (leb want b'.tokens)
      _ _ (λ there over. refill-grants t want b' small (inl (ground (arith, there))))
      (λ _ over. refill-grants t want b' small (inr (omega (arith, over)))) over

-- The wait is long enough: when it is over, the tokens that were asked for are there, if no more than
-- a burst was asked for.
pub wait_is_enough :
    (now want : ℕ) (b : Bucket)
    → want ≤ burst
    → let (b', wait) = wait_for now want b in want ≤ (level (now + wait) b').1
unfolding level
wait_is_enough now want b small =
    wait_for-grants now want (now + (wait_for now want b).1) b small (omega arith)

spend-pays :
    (t want : ℕ) (b : Bucket)
    → 1 ≤ want
    → want ≤ (refill t b).tokens
    → ((spend t b).1 ≡ true) × (want ≤ (spend t b).0.tokens + 1)
unfolding spend
spend-pays t want b some_wanted there =
    if-cases (λ (r : Bucket × Bool). (r.1 ≡ true) × (want ≤ r.0.tokens + 1))
      ((refill t b).tokens == 0) _ _ (λ empty. absurd (ground (arith, empty, there, some_wanted)))
      λ _. (refl, omega (arith, there, some_wanted))

-- A spend after the wait is paid, and leaves the rest of what was wanted.
pub wait_for-spend :
    (now want t : ℕ) (b : Bucket)
    → 1 ≤ want
    → want ≤ burst
    → now + (wait_for now want b).1 ≤ t
    → ((spend t (wait_for now want b).0).1 ≡ true)
      × (want ≤ (spend t (wait_for now want b).0).0.tokens + 1)
wait_for-spend now want t b some_wanted small over =
    spend-pays t want (wait_for now want b).0 some_wanted (wait_for-grants now want t b small over)

wait_for-none : (t want : ℕ) (b : Bucket) → want ≤ (refill t b).tokens → (wait_for t want b).1 ≡ 0
unfolding wait_for
wait_for-none t want b there =
    if-cases (λ (r : Bucket × ℕ). r.1 ≡ 0) (leb want (refill t b).tokens) _ _ (λ _. refl)
      λ short. absurd (ground (arith, short, there))

-- Once the wait is over, there is nothing more to wait for.
pub wait_for-over :
    (now want t : ℕ) (b : Bucket)
    → want ≤ burst
    → now + (wait_for now want b).1 ≤ t
    → (wait_for t want (wait_for now want b).0).1 ≡ 0
wait_for-over now want t b small over =
    wait_for-none t want (wait_for now want b).0 (wait_for-grants now want t b small over)
