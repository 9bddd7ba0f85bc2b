-- ===== src/Workload/Table.antt =====
-- The neighbor write table: `Entry`, `Upsert`, `Taken`, `NextDirty`, `Inner` and the methods of
-- `NeighborTable` in src/workload/table.rs. Each method runs whole under the table's mutex, so a
-- method is a function on the state behind it; where the source calls `notify_one`, the result
-- says so. An address is its 32-bit number, a MAC its six bytes; counters do not wrap.
pub mod Keys
pub mod History
pub mod Valid
pub mod Admission
pub mod Rows
pub mod Drain
pub mod Departures
pub mod Retry
pub mod Clean
pub mod Lasting
mod Tests
use Prim.Native.Nat.{Ordering}
use Prim.Native.String.{String}
use mathlib.Core.Option
use cfab.Prelude.{
  ℕ, ◌+◌, ◌-◌, ◌^◌, Bool, true, false, not, ◌&&◌, List, [], ◌∷◌, ◌++◌, map, Option, none, some, leb,
  ltb, if◌then◌else◌, filter, length,
}
use cfab.Prelude.BTreeMap.{Ord, string_ord, nat_ord, pair_ord, get, insert, update, remove, count}
use cfab.Workload.Cap.{RowCap, to_u32}

abbrev pub Mac : Type 0
Mac = List ℕ

pub record Entry : Type 0 where
  pub leg : String
  pub mac : Mac
  pub expires_at : ℕ
  pub dirty : Bool

pub data Upsert : Type 0 where
  admitted : Upsert
  refused : Bool → Upsert

pub record Taken : Type 0 where
  pub row : String
  pub leg : String
  pub addr : ℕ
  pub mac : Mac

pub record NextDirty : Type 0 where
  pub taken : Option Taken
  pub expired : List String

abbrev pub Key : Type 0
Key = String × ℕ

pub record Inner : Type 0 where
  pub entries : List (Key × Entry)
  pub queue : List (Key × ℕ)
  pub refusing : List (String × Unit {0})
  pub cap_refusals : List (String × ℕ)

-- `new`.
abbrev pub new : Inner
new = record { entries = []; queue = []; refusing = []; cap_refusals = [] }

abbrev pub is_less : Ordering → Bool
is_less Ordering.lt = true
is_less _ = false

-- The bounds of `entries.range(lo..=hi)`.
abbrev pub is_within : Key → Key → Key → Bool
is_within lo hi k = not (is_less (pair_ord.cmp k lo)) && not (is_less (pair_ord.cmp hi k))

pub row_len : List (Key × Entry) → String → ℕ
row_len entries row = to_u32 (count (is_within (row, 0) (row, 2 ^ 32 - 1)) entries)

-- `refusing.insert(row)` is true when the row was not there; `refusing.remove(row)`.
abbrev pub is_none {ℓ} : {A : Type ℓ} → Option A → Bool
is_none none = true
is_none (some a) = false

-- The arm of `upsert` for a key that is there.
pub coalesce : Inner → Key → Entry → String → Mac → ℕ → ℕ → Inner
coalesce g key e leg mac expires_at now = record g {
  entries =
      update key (record { leg = leg; mac = mac; expires_at = expires_at; dirty = true }) g.entries;
  queue = if e.dirty then g.queue else g.queue ++ ((key, now) ∷ []);
  refusing = remove key.0 g.refusing;
}

-- The arm for a new key: the cap is checked here only.
pub admit : Inner → Key → String → Mac → ℕ → RowCap → ℕ → Inner × Upsert
admit g key leg mac expires_at limit now =
    if leb limit.value (row_len g.entries key.0)
    then (
      record g {
        refusing = insert key.0 tt g.refusing;
        cap_refusals = insert key.0 (Option.get_or (get key.0 g.cap_refusals) 0 + 1) g.cap_refusals;
      },
      refused (is_none (get key.0 g.refusing)),
    )
    else (
      record g {
        entries =
            insert key (record { leg = leg; mac = mac; expires_at = expires_at; dirty = true })
              g.entries;
        queue = g.queue ++ ((key, now) ∷ []);
        refusing = remove key.0 g.refusing;
      },
      admitted,
    )

pub upsert : String → String → ℕ → Mac → ℕ → RowCap → ℕ → Inner → Inner × Upsert
unfolding coalesce admit
upsert row leg addr mac expires_at limit now g = elim (get (row, addr) g.entries) [
  | none ↦ admit g (row, addr) leg mac expires_at limit now
  | some e ↦ (coalesce g (row, addr) e leg mac expires_at now, admitted)
]

-- `matches!(outcome, Upsert::Admitted)`: whether the call wakes the actor.
abbrev pub wakes : Upsert → Bool
wakes admitted = true
wakes (refused first) = false

-- What `re_dirty` returns beside the state: whether it woke the actor, and the row whose entry
-- expired.
unfoldable pub re_dirty : String → ℕ → ℕ → Inner → Inner × Bool × Option String
re_dirty row addr now g = elim (get (row, addr) g.entries) [
  | none ↦ (g, false, none)
  | some e ↦
      if leb e.expires_at now
      then (record g { entries = remove (row, addr) g.entries }, false, some row)
      else if e.dirty
      then (g, false, none)
      else (
        record g {
          entries = update (row, addr) (record e { dirty = true }) g.entries;
          queue = g.queue ++ (((row, addr), now) ∷ []);
        },
        true,
        none,
      )
]

-- What the loop of `take_next_dirty` does with the entry of one queued key.
pub data Visit : Type 0 where
  pass drop : Visit
  hand : Entry → Visit

abbrev pub visit : ℕ → Option Entry → Visit
visit now none = pass
visit now (some e) = if not e.dirty then pass else if leb e.expires_at now then drop else hand e

-- The `while let` loop: the entries and the queue that are left, and what was found.
unfoldable pub take_loop :
    ℕ
    → List (Key × Entry)
    → List (Key × ℕ)
    → List String
    → List (Key × Entry) × List (Key × ℕ) × NextDirty
take_loop now entries [] expired = (entries, [], record { taken = none; expired = expired })
take_loop now entries ((key, _) ∷ queue) expired = elim (visit now (get key entries)) [
  | pass ↦ take_loop now entries queue expired
  | drop ↦ take_loop now (remove key entries) queue (expired ++ (key.0 ∷ []))
  | hand e ↦ (
    update key (record e { dirty = false }) entries,
    queue,
    record {
      taken = some (record { row = key.0; leg = e.leg; addr = key.1; mac = e.mac });
      expired = expired;
    },
  )
]

unfoldable pub take_next_dirty : ℕ → Inner → Inner × NextDirty
take_next_dirty now g =
    let (entries, queue, out) = take_loop now g.entries g.queue [] in
    (record g { entries = entries; queue = queue }, out)

abbrev pub is_live : ℕ → Key × Entry → Bool
is_live now (k, e) = ltb now e.expires_at

unfoldable pub remove_expired : ℕ → Inner → Inner × List String
remove_expired now g = (
  record g { entries = filter (is_live now) g.entries },
  map (λ x. x.0.0) (filter (λ x. not (is_live now x)) g.entries),
)

unfoldable pub dirty_depth : Inner → ℕ
dirty_depth g = length (filter (λ x. x.1.dirty) g.entries)

pub queued_len : Inner → ℕ
queued_len g = length g.queue

pub len : Inner → ℕ
len g = length g.entries

pub is_empty : Inner → Bool
unfolding len
is_empty g = leb (len g) 0

unfoldable pub list_entries : Inner → List (String × ℕ × String)
list_entries g = map (λ x. (x.0.0, x.0.1, x.1.leg)) g.entries

pub entry : String → ℕ → Inner → Option Entry
entry row addr g = get (row, addr) g.entries

-- The loop of `row_sizes` over the keys.
unfoldable pub tally : List (Key × Entry) → List (String × ℕ) → List (String × ℕ)
tally [] sizes = sizes
tally ((k, _) ∷ m) sizes = tally m (insert k.0 (Option.get_or (get k.0 sizes) 0 + 1) sizes)

unfoldable pub row_sizes : Inner → List (String × ℕ)
unfolding tally
row_sizes g = tally g.entries []

-- The queued key counts only while its entry is there and dirty.
abbrev pub is_waiting : Option Entry → Bool
is_waiting none = false
is_waiting (some e) = e.dirty

unfoldable pub oldest_from : ℕ → List (Key × Entry) → List (Key × ℕ) → Option ℕ
oldest_from now entries [] = none
oldest_from now entries ((key, enqueued_at) ∷ queue) =
    if is_waiting (get key entries) then some (now - enqueued_at) else oldest_from now entries queue

unfoldable pub oldest_dirty_age : ℕ → Inner → Option ℕ
unfolding oldest_from
oldest_dirty_age now g = oldest_from now g.entries g.queue
