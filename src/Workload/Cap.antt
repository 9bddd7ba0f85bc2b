-- ===== src/Workload/Cap.antt =====
-- What one workload row may claim, and for how long: the constants, `clamp_lease`, `RowCap`,
-- `CapSource` and `prefix_hosts` of src/workload/table.rs. A u32 or u64 is a number; `/` is exact
-- here, since the divisor is at least 1. The refusal line's text is kept as the choice of its
-- remedy.
pub mod Bounds
mod Tests
use Prim.Native.String.{String}
use cfab.Prelude.{
  ℕ, ◌+◌, ◌-◌, ◌*◌, ◌/◌, ◌^◌, min, max, Bool, Option, none, some, leb, ltb, if◌then◌else◌,
}
use cfab.Prelude.Time.{from_secs}

abbrev pub min_lease : ℕ
min_lease = from_secs 60

abbrev pub max_lease : ℕ
max_lease = from_secs (24 * 60 * 60)

abbrev pub no_lease_default : ℕ
no_lease_default = from_secs (60 * 60)

abbrev pub gc_thresh3_default : ℕ
gc_thresh3_default = 1024

-- `Ord::clamp`.
abbrev pub clamp : ℕ → ℕ → ℕ → ℕ
clamp x lo hi = if ltb x lo then lo else if ltb hi x then hi else x

pub clamp_lease : Option ℕ → ℕ
clamp_lease none = no_lease_default
clamp_lease (some secs) = clamp (from_secs secs) min_lease max_lease

pub data CapBound : Type 0 where
  prefix gc_thresh3 : CapBound

pub record RowCap : Type 0 where
  pub value : ℕ
  pub bound_by : CapBound
  pub thresh : ℕ
  pub rows : ℕ

-- The remedies between which `refusal_line` chooses.
pub data Remedy : Type 0 where
  no_sysctl_helps raise_gc_thresh3 at_the_ceiling : Remedy

abbrev pub remedy_by : CapBound → ℕ → Remedy
remedy_by prefix thresh = no_sysctl_helps
remedy_by gc_thresh3 thresh =
    if ltb thresh gc_thresh3_default then raise_gc_thresh3 else at_the_ceiling

pub remedy : RowCap → Remedy
remedy c = remedy_by c.bound_by c.thresh

pub record CapSource : Type 0 where
  pub thresh : ℕ
  pub rows : ℕ

-- `CapSource::read`: what the read of the sysctl and the parse of its text gave, and the source
-- that is made of it. The Boolean says that there is a reason to journal.
pub data SysctlRead : Type 0 where
  parsed : ℕ → SysctlRead
  unparsed unreadable : SysctlRead

pub read : SysctlRead → ℕ → CapSource × Bool
read (parsed thresh) rows = (record { thresh = thresh; rows = rows }, Bool.false)
read unparsed rows = (record { thresh = gc_thresh3_default; rows = rows }, Bool.true)
read unreadable rows = (record { thresh = gc_thresh3_default; rows = rows }, Bool.true)

-- `u32::try_from(n).unwrap_or(u32::MAX)`.
abbrev pub to_u32 : ℕ → ℕ
to_u32 n = min n (2 ^ 32 - 1)

-- The length of a prefix is at most 32, so the subtraction is exact; `saturating_sub` is `-`.
pub prefix_hosts : ℕ → ℕ
prefix_hosts len = to_u32 (2 ^ (32 - len) - 2)

abbrev pub kernel_share : CapSource → ℕ
kernel_share s = min s.thresh gc_thresh3_default / 2 / max s.rows 1

pub for_prefix : CapSource → ℕ → RowCap
for_prefix s len =
    let hosts = prefix_hosts len in
    let kernel = kernel_share s in
    if leb hosts kernel
    then record { value = hosts; bound_by = prefix; thresh = s.thresh; rows = s.rows }
    else record { value = kernel; bound_by = gc_thresh3; thresh = s.thresh; rows = s.rows }
