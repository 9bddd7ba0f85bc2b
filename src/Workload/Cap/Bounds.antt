-- ===== src/Workload/Cap/Bounds.antt =====
-- Bounds on leases and caps, and which remedy is true (src/workload/table.rs).
use cfab.Prelude.{ℕ, ◌*◌, ◌/◌, ◌≤◌, ◌≡◌, ◌≢◌, min, max, Option, none, some, arith}
use cfab.Prelude.Time.{from_secs}
use cfab.Workload.Cap.{
  min_lease, max_lease, gc_thresh3_default, clamp_lease, raise_gc_thresh3, remedy, CapSource,
  prefix_hosts, kernel_share, for_prefix,
}

-- Whatever option 51 says, or if it is missing, a lease lasts at least a minute and at most a day;
-- and within that range it lasts as long as it says.
pub clamp_lease_bounds :
    (option_51 : Option ℕ)
    → (min_lease ≤ clamp_lease option_51)
      × (clamp_lease option_51 ≤ max_lease)
      × ((secs : ℕ)
          → option_51 ≡ some secs
          → 60 ≤ secs
          → secs ≤ 24 * 60 * 60
          → clamp_lease option_51 ≡ from_secs secs)
unfolding clamp_lease
clamp_lease_bounds none = (omega arith, omega arith, λ s e. absurd (ground arith))
clamp_lease_bounds (some secs) = (ground arith, ground arith, λ s e lo hi. ground arith)

share_le : (n r : ℕ) → r * (n / max r 1) ≤ n
share_le n r = grind arith

div_mono : (a b d : ℕ) → a ≤ b → a / d ≤ b / d
div_mono a b d h = grind arith

min_mono : (a b c : ℕ) → a ≤ b → min a c ≤ min b c
min_mono a b c h = omega arith

kernel_share_mono :
    (s : CapSource) (higher : ℕ)
    → s.thresh ≤ higher
    → kernel_share s ≤ kernel_share (record s { thresh = higher })
kernel_share_mono s higher h = div_mono _ _ (max s.rows 1) (omega arith)

mul_mono : (r a b : ℕ) → a ≤ b → r * a ≤ r * b
mul_mono r a b h = grind arith

value-le :
    (s : CapSource) (len : ℕ)
    → ((for_prefix s len).value ≤ kernel_share s) × ((for_prefix s len).value ≤ prefix_hosts len)
unfolding for_prefix
value-le s len = (ground arith, ground arith)

-- The caps of all rows together never claim more than half of the kernel's table, nor more than
-- half of its default, whatever the number of rows; one row never holds more than its prefix has
-- hosts.
pub rows_share_half :
    (s : CapSource) (len : ℕ)
    → (s.rows * (for_prefix s len).value ≤ s.thresh / 2)
      × (s.rows * (for_prefix s len).value ≤ gc_thresh3_default / 2)
      × ((for_prefix s len).value ≤ prefix_hosts len)
rows_share_half s len =
    let (few, fits) = value-le s len in
    let claim = mul_mono s.rows _ _ few in
    let half = share_le (min s.thresh gc_thresh3_default / 2) s.rows in
    (omega arith, omega arith, fits)

-- The remedy that the refusal line names is the true one: where it says that no sysctl helps, a
-- higher `gc_thresh3` leaves the cap as it is; so too where the kernel's default is the ceiling;
-- and a higher `gc_thresh3` never lowers the cap.
pub remedy_is_true :
    (s : CapSource) (len higher : ℕ)
    → s.thresh ≤ higher
    → let raised = record s { thresh = higher } in
      ((remedy (for_prefix s len) ≢ raise_gc_thresh3
        → (for_prefix raised len).value ≡ (for_prefix s len).value))
      × ((for_prefix s len).value ≤ (for_prefix raised len).value)
unfolding for_prefix remedy
remedy_is_true s len higher h = (
  λ n. ground (arith, kernel_share_mono s higher h),
  ground (arith, kernel_share_mono s higher h),
)
