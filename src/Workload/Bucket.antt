-- ===== src/Workload/Bucket.antt =====
-- The token bucket that bounds the forks of the flush actor: `Bucket` of src/workload/actor.rs. An
-- instant is a number of nanoseconds.
pub mod Rate
pub mod Wait
mod Tests
use cfab.Prelude.{
  ℕ, zero, suc, ◌+◌, ◌-◌, ◌*◌, Bool, true, false, ◌&&◌, ltb, leb, ◌==◌, if◌then◌else◌,
}

abbrev pub refill_per_sec : ℕ
refill_per_sec = 10

abbrev pub burst : ℕ
burst = 32

-- `TOKEN_INTERVAL`: 1000 / 10 milliseconds.
abbrev pub token_interval : ℕ
token_interval = 100000000

pub record Bucket : Type 0 where
  pub tokens : ℕ
  pub next_token_at : ℕ

abbrev pub new : ℕ → Bucket
new now = record { tokens = burst; next_token_at = now + token_interval }

-- The `while` loop of `refill`. Each round adds a token, so there are at most `burst - tokens`.
unfoldable pub refill_loop : ℕ → ℕ → Bucket → Bucket
refill_loop zero now b = b
refill_loop (suc rounds) now b =
    let rest =
      refill_loop rounds now
        (record { tokens = b.tokens + 1; next_token_at = b.next_token_at + token_interval }) in
    if ltb b.tokens burst && leb b.next_token_at now then rest else b

-- A full bucket banks nothing.
abbrev pub cap_full : ℕ → Bucket → Bucket
cap_full now b =
    if leb burst b.tokens && leb b.next_token_at now
    then record b { next_token_at = now + token_interval }
    else b

unfoldable pub refill : ℕ → Bucket → Bucket
unfolding refill_loop
refill now b = cap_full now (refill_loop (burst - b.tokens) now b)

-- `level`: the state and the tokens.
unfoldable pub level : ℕ → Bucket → Bucket × ℕ
level now b = let b' = refill now b in (b', b'.tokens)

unfoldable pub spend : ℕ → Bucket → Bucket × Bool
spend now b =
    let b' = refill now b in
    if b'.tokens == 0 then (b', false) else (record b' { tokens = b'.tokens - 1 }, true)

-- The subtractions are exact: the bucket is short of `want`, and a bucket that is not full has its
-- next token ahead.
unfoldable pub wait_for : ℕ → ℕ → Bucket → Bucket × ℕ
wait_for now want b =
    let b' = refill now b in
    if leb want b'.tokens
    then (b', 0)
    else (b', b'.next_token_at - now + token_interval * (want - b'.tokens - 1))
