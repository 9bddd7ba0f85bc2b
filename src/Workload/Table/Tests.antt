-- ===== src/Workload/Table/Tests.antt =====
-- Histories of a small table: a row `vms` with two addresses and a cap of two
-- (src/workload/table.rs).
use mathlib.Core.Option
use cfab.Prelude.{
  ◌+◌, ◌<◌, ◌≤◌, ◌≡◌, refl, ◌⊎◌, false, List, [], ◌∷◌, none, some, All, arith, if◌then◌else◌,
}
use cfab.Prelude.BTreeMap.{string_ord, nat_ord, pair_ord, key_eq, get, IsMap}
use cfab.Workload.Cap.{RowCap, prefix}
use cfab.Workload.Table.{
  Mac, Entry, admitted, refused, Key, Inner, Taken, new, is_none, row_len, upsert, take_loop,
  take_next_dirty, remove_expired, dirty_depth,
}
use cfab.Workload.Table.History.{Op, upserts, takes, expires, step, run}
use cfab.Workload.Table.Valid.{IsValid, run-new-IsValid}
use cfab.Workload.Table.Admission.{claim, upsert_outcome}
use cfab.Workload.Table.Rows.{held, CapAtMost, row_capped}
use cfab.Workload.Table.Drain.{first_due, take_next_dirty-first_due, empty_take_is_clean}

abbrev two : RowCap
two = record { value = 2; bound_by = prefix; thresh = 1024; rows = 1 }

abbrev vm : Mac
vm = 2 ∷ 0 ∷ 0 ∷ 0 ∷ 0 ∷ 1 ∷ []

-- Three claims, the third past the cap; the first is taken; the second runs out.
abbrev history : List Op
history =
    upserts "vms" "leg0" 10 vm 100 two 1
    ∷ upserts "vms" "leg0" 11 vm 50 two 2
    ∷ upserts "vms" "leg0" 12 vm 100 two 3
    ∷ takes 4
    ∷ expires 60
    ∷ []

history-CapAtMost : All (CapAtMost "vms" 2) history
history-CapAtMost = ground arith

run-new-IsValid_example : IsValid (run new history)
run-new-IsValid_example = run-new-IsValid history (omega arith)

row_capped_example : held "vms" (run new history) ≤ 2
row_capped_example = row_capped "vms" 2 history history-CapAtMost

-- Two claims are waiting.
abbrev waiting : Inner
waiting = record new {
  entries = (("vms", 10), claim "leg0" vm 100) ∷ (("vms", 11), claim "leg0" vm 50) ∷ [];
  queue = (("vms", 11), 1) ∷ (("vms", 10), 2) ∷ [];
}

waiting-IsMap : IsMap waiting.entries
waiting-IsMap = ground arith

abbrev first : Taken
first = record { row = "vms"; leg = "leg0"; addr = 10; mac = vm }

-- At 60 the entry at the head has run out.
took : (take_next_dirty 60 waiting).1.taken ≡ some first
unfolding take_next_dirty take_loop
took = refl

take_next_dirty-first_due_example :
    (take_next_dirty 60 waiting).1.taken ≡ first_due 60 waiting.entries waiting.queue
take_next_dirty-first_due_example = take_next_dirty-first_due 60 waiting

empty_take_is_clean_example :
    let g = run new history in
    let after = (take_next_dirty 200 g).0 in
    (dirty_depth after ≡ 0)
    × (after.queue ≡ [])
    × ((k : Key) (e : Entry)
        → get k g.entries ≡ some e
        → 200 < e.expires_at
        → (e.dirty ≡ false) × (get k after.entries ≡ some e))
unfolding take_next_dirty take_loop run step upsert remove_expired row_len
empty_take_is_clean_example = empty_take_is_clean 200 (run new history) run-new-IsValid_example refl

coalesced : (upsert "vms" "leg1" 10 vm 90 two 5 waiting).1 ≡ admitted
unfolding upsert
coalesced = refl

upsert_outcome_example :
    let (after, outcome) = upsert "vms" "leg0" 12 vm 100 two 3 waiting in
    ((outcome ≡ admitted)
      × ((k : Key)
          → get k after.entries ≡ (
              if key_eq {K = Key} ("vms", 12) k
              then some (claim "leg0" vm 100)
              else get k waiting.entries))
      × (after.cap_refusals ≡ waiting.cap_refusals)
      × (get "vms" after.refusing ≡ none))
    ⊎ ((outcome ≡ refused (is_none (get "vms" waiting.refusing)))
        × (after.entries ≡ waiting.entries)
        × (after.queue ≡ waiting.queue)
        × (get ("vms", 12) waiting.entries ≡ none)
        × (2 ≤ row_len waiting.entries "vms")
        × (get "vms" after.cap_refusals
            ≡ some (Option.get_or (get "vms" waiting.cap_refusals) 0 + 1))
        × (is_none (get "vms" after.refusing) ≡ false))
upsert_outcome_example = upsert_outcome "vms" "leg0" 12 vm 100 two 3 waiting

-- The first claim runs out while it waits, and its row claims again behind another: the stale key
-- names the new entry, which is taken first.
abbrev stale : List Op
stale =
    upserts "vms" "leg0" 10 vm 5 two 1
    ∷ upserts "vms" "leg0" 11 vm 100 two 2
    ∷ expires 6
    ∷ upserts "vms" "leg0" 10 vm 100 two 7
    ∷ []

stale_key_is_taken :
    (take_next_dirty 8 (run new stale)).1.taken
    ≡ some (record { row = "vms"; leg = "leg0"; addr = 10; mac = vm })
unfolding run step upsert row_len remove_expired take_next_dirty take_loop
stale_key_is_taken = refl
