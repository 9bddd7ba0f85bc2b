-- ===== src/Prelude/Time.antt =====
-- A `Duration` or an `Instant` is a number of nanoseconds.
use Prim.Native.Nat.{ℕ, ◌*◌}

-- `Duration::from_secs`.
abbrev pub from_secs : ℕ → ℕ
from_secs s = s * 1_000_000_000
