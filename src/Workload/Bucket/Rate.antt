-- ===== src/Workload/Bucket/Rate.antt =====
-- How many forks the bucket lets through (src/workload/actor.rs).
use cfab.Prelude.{
  ℕ, zero, suc, ◌+◌, ◌-◌, ◌*◌, ◌≤◌, ◌≡◌, refl, Bool, true, false, ◌&&◌, List, [], ◌∷◌, arith, ltb,
  leb, ◌==◌, if-cases,
}
use cfab.Workload.Bucket.{burst, token_interval, Bucket, new, refill_loop, refill, spend}

-- More rounds than there is room for tokens change nothing: the loop has ended by then.
pub refill_loop-enough :
    (n m now : ℕ) (b : Bucket)
    → burst ≤ b.tokens + n
    → burst ≤ b.tokens + m
    → refill_loop n now b ≡ refill_loop m now b
unfolding refill_loop
refill_loop-enough zero zero now b h k = refl
refill_loop-enough zero (suc m) now b h k = ground (arith, h)
refill_loop-enough (suc n) zero now b h k = ground (arith, k)
refill_loop-enough (suc n) (suc m) now b h k =
    let next : Bucket = record {
      tokens = b.tokens + 1;
      next_token_at = b.next_token_at + token_interval;
    } in
    ground (arith, refill_loop-enough n m now next (omega (arith, h)) (omega (arith, k)))

-- What is spent and what is left come from the first burst and from tokens granted since `start`, one
-- per interval that has passed; the next one is not due before its interval.
pub record IsPaced (start now spent : ℕ) (b : Bucket) : Type 0 where
  pub granted : ℕ
  pub balance : spent + b.tokens ≡ burst + granted
  pub passed : start + granted * token_interval ≤ now
  pub ahead : start + (granted + 1) * token_interval ≤ b.next_token_at

refill_loop-IsPaced :
    (n start now spent : ℕ) (b : Bucket)
    → IsPaced start now spent b
    → IsPaced start now spent (refill_loop n now b)
unfolding refill_loop
refill_loop-IsPaced zero start now spent b p = p
refill_loop-IsPaced (suc n) start now spent b p =
    let next : Bucket = record {
      tokens = b.tokens + 1;
      next_token_at = b.next_token_at + token_interval;
    } in
    if-cases (IsPaced start now spent) (ltb b.tokens burst && leb b.next_token_at now) _ _
      (λ due. refill_loop-IsPaced n start now spent next (record {
        granted = p.granted + 1;
        balance = omega (arith, p.balance);
        passed = ground (arith, due, p.ahead);
        ahead = omega (arith, p.ahead);
      }))
      (λ _. p)

refill-IsPaced :
    (start now spent : ℕ) (b : Bucket)
    → IsPaced start now spent b
    → IsPaced start now spent (refill now b)
unfolding refill
refill-IsPaced start now spent b p =
    let b' = refill_loop (burst - b.tokens) now b in
    let q = refill_loop-IsPaced (burst - b.tokens) start now spent b p in
    if-cases (IsPaced start now spent) (leb burst b'.tokens && leb b'.next_token_at now) _ _
      (λ full. record {
        granted = q.granted;
        balance = q.balance;
        passed = q.passed;
        ahead = omega (arith, q.passed);
      })
      (λ _. q)

abbrev pub one_if : Bool → ℕ
one_if true = 1
one_if false = 0

spend-IsPaced :
    (start now spent : ℕ) (b : Bucket)
    → IsPaced start now spent b
    → IsPaced start now (spent + one_if (spend now b).1) (spend now b).0
unfolding spend
spend-IsPaced start now spent b p =
    let b' = refill now b in
    let q = refill-IsPaced start now spent b p in
    if-cases (λ (r : Bucket × Bool). IsPaced start now (spent + one_if r.1) r.0) (b'.tokens == 0) _
      _
      (λ _. record {
        granted = q.granted;
        balance = omega (arith, q.balance);
        passed = q.passed;
        ahead = q.ahead;
      })
      (λ some_left. record {
        granted = q.granted;
        balance = ground (arith, some_left, q.balance);
        passed = q.passed;
        ahead = q.ahead;
      })

-- A number of spends, each some time after the one before; how many were let through.
unfoldable pub spends : ℕ → List ℕ → Bucket → ℕ × ℕ
spends now [] b = (now, 0)
spends now (wait ∷ waits) b =
    let (b', ok) = spend (now + wait) b in
    let (last, n) = spends (now + wait) waits b' in (last, one_if ok + n)

spends-paced :
    (start now spent : ℕ) (waits : List ℕ) (b : Bucket)
    → IsPaced start now spent b
    → let (last, n) = spends now waits b in start + (spent + n - burst) * token_interval ≤ last
unfolding spends spend
spends-paced start now spent [] b p = omega (arith, p.balance, p.passed)
spends-paced start now spent (wait ∷ waits) b p =
    let t = now + wait in
    let later : IsPaced start t spent b = record {
      granted = p.granted;
      balance = p.balance;
      passed = omega (arith, p.passed);
      ahead = p.ahead;
    } in
    let rest =
      spends-paced start t (spent + one_if (spend t b).1) waits (spend t b).0
        (spend-IsPaced start t spent b later) in
    omega (arith, rest)

-- However the spends fall, no more are let through than the burst and one for each interval that has
-- passed since the bucket was made.
pub spends_are_paced :
    (start : ℕ) (waits : List ℕ)
    → let (last, n) = spends start waits (new start) in start + (n - burst) * token_interval ≤ last
spends_are_paced start waits =
    let fresh : IsPaced start start 0 (new start) = record {
      granted = 0;
      balance = refl;
      passed = omega arith;
      ahead = omega arith;
    } in
    omega (arith, spends-paced start start 0 waits (new start) fresh)
