-- ===== src/Workload/Table/Drain.antt =====
-- What the flush actor gets, and what leaves the table (src/workload/table.rs).
use Prim.Native.String.{String}
use cfab.Prelude.{
  ℕ, ◌<◌, ◌≡◌, ◌≢◌, refl, ◌↔◌, ◌⊎◌, inl, inr, true, false, ◌&&◌, List, [], ◌∷◌, ◌++◌, Option, none,
  some, arith, filter, ltb, length, if◌then◌else◌, Bool-cases, Option-cases,
}
use cfab.Prelude.BTreeMap.{
  string_ord, nat_ord, pair_ord, key_eq_iff, key_eq_refl, get, remove, IsMap, get-update,
  get-remove,
}
use cfab.Workload.Table.{
  Entry, Taken, Key, Inner, visit, take_loop, take_next_dirty, dirty_depth, oldest_from,
  oldest_dirty_age,
}
use cfab.Workload.Table.Valid.{IsValid, Queued, is_queued, Visit-cases, take_next_dirty-IsValid}

-- The specification of a take: the entry of the first queued key whose entry is dirty and has not
-- run out, in the table as it was.
abbrev pub due : ℕ → Option Entry → Option Entry
due now none = none
due now (some e) = if e.dirty && ltb now e.expires_at then some e else none

abbrev pub taken_of : Key → Entry → Taken
taken_of k e = record { row = k.0; leg = e.leg; addr = k.1; mac = e.mac }

abbrev pub first_due : ℕ → List (Key × Entry) → List (Key × ℕ) → Option Taken
first_due now m [] = none
first_due now m ((k, t) ∷ q) = elim (due now (get k m)) [
  | none ↦ first_due now m q
  | some e ↦ some (taken_of k e)
]

first_due-remove :
    (now : ℕ) (m : List (Key × Entry)) (key : Key) (q : List (Key × ℕ))
    → due now (get key m) ≡ none
    → first_due now (remove key m) q ≡ first_due now m q
first_due-remove now m key [] h = refl
first_due-remove now m key ((k, t) ∷ q) h =
    ground (arith, get-remove key k m, key_eq_iff key k, first_due-remove now m key q h)

take_loop-first_due :
    (now : ℕ) (m : List (Key × Entry)) (q : List (Key × ℕ)) (expired : List String)
    → (take_loop now m q expired).2.taken ≡ first_due now m q
unfolding take_loop
take_loop-first_due now m [] expired = refl
take_loop-first_due now m ((k, t) ∷ q) expired = ground (
  arith,
  take_loop-first_due now m q expired,
  take_loop-first_due now (remove k m) q (expired ++ (k.0 ∷ [])),
  first_due-remove now m k q,
)

-- A take hands out the first due entry in queue order, of the table as it was before the call,
-- and nothing if none is due.
pub take_next_dirty-first_due :
    (now : ℕ) (g : Inner) → (take_next_dirty now g).1.taken ≡ first_due now g.entries g.queue
unfolding take_next_dirty
take_next_dirty-first_due now g = take_loop-first_due now g.entries g.queue []

-- What may become of an entry that has not run out.
abbrev Keeps : ℕ → Key → Entry → List (Key × Entry) → Option Taken → Type 0
Keeps now k e after taken =
    (get k after ≡ some e)
    ⊎ ((taken ≡ some (taken_of k e)) × (get k after ≡ some (record e { dirty = false })))

take_loop-Keeps :
    (now : ℕ) (m : List (Key × Entry)) (q : List (Key × ℕ)) (expired : List String) (k : Key)
    (e : Entry)
    → get k m ≡ some e
    → now < e.expires_at
    → Keeps now k e (take_loop now m q expired).0 (take_loop now m q expired).2.taken
unfolding take_loop
take_loop-Keeps now m [] expired k e h l = inl h
take_loop-Keeps now m ((j, t) ∷ q) expired k e h l = elim (Visit-cases (visit now (get j m))) [
  | inl v ↦ rw (v, take_loop) (take_loop-Keeps now m q expired k e h l)
  | inr (inl v) ↦
      rw (v, take_loop)
        (take_loop-Keeps now (remove j m) q (expired ++ (j.0 ∷ [])) k e
          (ground (arith, get-remove j k m, key_eq_iff j k)) l)
  | inr (inr (x, v)) ↦
      rw (v, take_loop)
        (ground (arith, get-update j k (record x { dirty = false }) m, key_eq_iff j k))
]

-- A take loses no entry whose lease still runs: the one it hands out stays, no longer dirty, and
-- every other stays as it was.
pub take_keeps_live :
    (now : ℕ) (g : Inner) (k : Key) (e : Entry)
    → get k g.entries ≡ some e
    → now < e.expires_at
    → let (after, out) = take_next_dirty now g in
      (get k after.entries ≡ some e)
      ⊎ ((out.taken ≡ some (taken_of k e))
          × (get k after.entries ≡ some (record e { dirty = false })))
unfolding take_next_dirty
take_keeps_live now g k e h l = take_loop-Keeps now g.entries g.queue [] k e h l

clean-dirty_depth :
    (m : List (Key × Entry))
    → IsMap m
    → ((k : Key) (e : Entry) → get k m ≡ some e → e.dirty ≡ false)
    → length (filter (λ (x : Key × Entry). x.1.dirty) m) ≡ 0
clean-dirty_depth [] d h = refl
clean-dirty_depth ((k, e) ∷ m) d h = ground (
  arith,
  h k e,
  key_eq_refl k,
  clean-dirty_depth m d.1 λ j x got. h j x (ground (arith, key_eq_iff k j)),
)

take_loop-queue :
    (now : ℕ) (m : List (Key × Entry)) (q : List (Key × ℕ)) (expired : List String)
    → (take_loop now m q expired).2.taken ≡ none
    → (take_loop now m q expired).1 ≡ []
unfolding take_loop
take_loop-queue now m [] expired h = refl
take_loop-queue now m ((k, t) ∷ q) expired h = ground (
  arith,
  take_loop-queue now m q expired,
  take_loop-queue now (remove k m) q (expired ++ (k.0 ∷ [])),
)

Queued-nil :
    (m : List (Key × Entry)) (q : List (Key × ℕ))
    → q ≡ []
    → Queued m q
    → (k : Key) (e : Entry) → get k m ≡ some e
    → e.dirty ≡ false
Queued-nil m q n h k e got = ground (arith, h k e)

-- When a take of a valid table hands out nothing, no entry is left dirty and the queue is empty.
-- What was waiting had run out; every entry whose lease still runs was clean, and is there as it
-- was.
pub empty_take_is_clean :
    (now : ℕ) (g : Inner)
    → IsValid g
    → (take_next_dirty now g).1.taken ≡ none
    → let after = (take_next_dirty now g).0 in
      (dirty_depth after ≡ 0)
      × (after.queue ≡ [])
      × ((k : Key) (e : Entry)
          → get k g.entries ≡ some e
          → now < e.expires_at
          → (e.dirty ≡ false) × (get k after.entries ≡ some e))
unfolding take_next_dirty dirty_depth
empty_take_is_clean now g v h =
    let w = take_next_dirty-IsValid now g v in
    let nothing = take_loop-queue now g.entries g.queue [] h in
    let clean = Queued-nil _ _ nothing w.queued in
    (
      clean-dirty_depth _ w.distinct clean,
      nothing,
      λ k e got live. elim (take_loop-Keeps now g.entries g.queue [] k e got live) [
        | inl kept ↦ (clean k e kept, kept)
        | inr taken ↦ absurd (ground (arith, taken.0, h))
      ],
    )

oldest_from-waiting :
    (now : ℕ) (m : List (Key × Entry)) (q : List (Key × ℕ)) (k : Key) (e : Entry)
    → get k m ≡ some e
    → e.dirty ≡ true
    → is_queued k q ≡ true
    → oldest_from now m q ≢ none
unfolding oldest_from
oldest_from-waiting now m [] k e got d i = absurd (ground arith)
oldest_from-waiting now m ((j, t) ∷ q) k e got d i =
    ground (arith, key_eq_iff j k, oldest_from-waiting now m q k e)

all_clean :
    (m : List (Key × Entry)) (k : Key) (e : Entry)
    → length (filter (λ (x : Key × Entry). x.1.dirty) m) ≡ 0
    → get k m ≡ some e
    → e.dirty ≡ false
all_clean [] k e h got = absurd (ground arith)
all_clean ((j, x) ∷ m) k e h got = ground (arith, all_clean m k e)

clean-oldest_from :
    (now : ℕ) (m : List (Key × Entry)) (q : List (Key × ℕ))
    → ((k : Key) (e : Entry) → get k m ≡ some e → e.dirty ≡ false)
    → oldest_from now m q ≡ none
unfolding oldest_from
clean-oldest_from now m [] h = refl
clean-oldest_from now m ((j, t) ∷ q) h = elim (Option-cases (get j m)) [
  | inl e ↦ ground (arith, clean-oldest_from now m q h)
  | inr (x, e) ↦ ground (arith, h j x, clean-oldest_from now m q h)
]

-- The gauge of the oldest waiting entry is absent exactly when no entry is dirty.
pub oldest_dirty_age-none :
    (now : ℕ) (g : Inner) → IsValid g → (oldest_dirty_age now g ≡ none) ↔ (dirty_depth g ≡ 0)
unfolding oldest_dirty_age dirty_depth
oldest_dirty_age-none now g v = (
  λ o. clean-dirty_depth g.entries v.distinct λ k e got. elim (Bool-cases e.dirty) [
    | inl d ↦ absurd (oldest_from-waiting now g.entries g.queue k e got d (v.queued k e got d) o)
    | inr c ↦ c
  ],
  λ h. clean-oldest_from now g.entries g.queue (λ k e. all_clean g.entries k e h),
)
