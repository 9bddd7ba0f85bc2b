-- ===== src/Workload/Table/Clean.antt =====
-- How an entry comes to be no longer dirty (src/workload/table.rs).
use Prim.Native.String.{String}
use cfab.Prelude.{
  ℕ, ◌≡◌, ap, ◌⊎◌, inl, inr, true, false, List, [], ◌∷◌, ◌++◌, Option, none, some, arith,
  if◌then◌else◌, Option-cases, Bool-cases, leb,
}
use cfab.Prelude.BTreeMap.{
  string_ord, nat_ord, pair_ord, key_eq, key_eq_iff, get, remove, get-insert, get-update,
  get-remove,
}
use cfab.Workload.Cap.{RowCap}
use cfab.Workload.Table.{
  Mac, Entry, Taken, Key, Inner, visit, take_loop, take_next_dirty, re_dirty, admit, upsert,
  row_len,
}
use cfab.Workload.Table.Valid.{Visit-cases}
use cfab.Workload.Table.Drain.{taken_of}

admit-clean :
    (g : Inner) (key : Key) (leg : String) (mac : Mac) (expires_at : ℕ) (limit : RowCap) (now : ℕ)
    (k : Key) (e : Entry)
    → get k (admit g key leg mac expires_at limit now).0.entries ≡ some e
    → e.dirty ≡ false
    → get k g.entries ≡ some e
unfolding admit
admit-clean g key leg mac expires_at limit now k e got c =
    elim (Bool-cases (leb limit.value (row_len g.entries key.0))) [
      | inl full ↦ rw (full, admit) at got
      | inr room ↦ ground (
        arith,
        rw (room, admit) at got,
        c,
        get-insert key k (record { leg = leg; mac = mac; expires_at = expires_at; dirty = true })
            g.entries,
      )
    ]

-- A claim makes its entry dirty, and leaves every other as it was.
pub upsert-clean :
    (row leg : String) (addr : ℕ) (mac : Mac) (expires_at : ℕ) (limit : RowCap) (now : ℕ)
    (g : Inner) (k : Key) (e : Entry)
    → get k (upsert row leg addr mac expires_at limit now g).0.entries ≡ some e
    → e.dirty ≡ false
    → get k g.entries ≡ some e
unfolding upsert
upsert-clean row leg addr mac expires_at limit now g k e got c =
    elim (Option-cases (get (row, addr) g.entries)) [
      | inl n ↦ admit-clean g (row, addr) leg mac expires_at limit now k e (rw (n, upsert) at got) c
      | inr (x, there) ↦ ground (
        arith,
        rw (there, upsert) at got,
        c,
        get-update (row, addr) k
            (record { leg = leg; mac = mac; expires_at = expires_at; dirty = true }) g.entries,
        Option-cases (get k g.entries),
      )
    ]

-- Where an entry that a take leaves clean comes from: it was clean, or it was handed out.
abbrev FromTake : Key → Entry → List (Key × Entry) → Option Taken → Type 0
FromTake k e before taken =
    (get k before ≡ some e)
    ⊎ ((x : Entry) × (taken ≡ some (taken_of k x)) × (e ≡ record x { dirty = false }))

FromTake-remove :
    (j k : Key) (e : Entry) (m : List (Key × Entry)) (taken : Option Taken)
    → FromTake k e (remove j m) taken
    → FromTake k e m taken
FromTake-remove j k e m taken (inl got) = inl (ground (arith, got, get-remove j k m))
FromTake-remove j k e m taken (inr handed) = inr handed

take_loop-FromTake :
    (now : ℕ) (m : List (Key × Entry)) (q : List (Key × ℕ)) (expired : List String) (k : Key)
    (e : Entry)
    → get k (take_loop now m q expired).0 ≡ some e
    → FromTake k e m (take_loop now m q expired).2.taken
unfolding take_loop
take_loop-FromTake now m [] expired k e got = inl got
take_loop-FromTake now m ((j, t) ∷ q) expired k e got = elim (Visit-cases (visit now (get j m))) [
  | inl v ↦ rw (v, take_loop) (take_loop-FromTake now m q expired k e (rw (v, take_loop) at got))
  | inr (inl v) ↦
      rw (v, take_loop)
        (FromTake-remove j k e m _ (
          take_loop-FromTake now (remove j m) q (expired ++ (j.0 ∷ [])) k e
            (rw (v, take_loop) at got)))
  | inr (inr (x, v)) ↦
      let there = rw (v, take_loop) at got in
      let x' : Entry = record x { dirty = false } in
      elim (Bool-cases (key_eq j k)) [
        | inl same ↦
            rw (v, take_loop)
              (inr (
                x,
                ap (λ (i : Key). some (taken_of i x)) ((key_eq_iff j k).0 same),
                ground (arith, there, same, get-update j k x' m, Option-cases (get k m)),
              ))
        | inr other ↦ rw (v, take_loop) (inl (ground (arith, there, other, get-update j k x' m)))
      ]
]

-- An entry that is clean after a take was there before it, or is the one that was handed out.
pub take-clean :
    (now : ℕ) (g : Inner) (k : Key) (e : Entry)
    → get k (take_next_dirty now g).0.entries ≡ some e
    → (get k g.entries ≡ some e)
      ⊎ ((x : Entry) × ((take_next_dirty now g).1.taken ≡ some (taken_of k x))
          × (e ≡ record x { dirty = false }))
unfolding take_next_dirty
take-clean now g k e got = take_loop-FromTake now g.entries g.queue [] k e got

-- Putting a key back leaves its entry dirty or drops it, and makes no entry clean.
pub re_dirty-clean_before :
    (row : String) (addr now : ℕ) (g : Inner) (k : Key) (e : Entry)
    → get k (re_dirty row addr now g).0.entries ≡ some e
    → e.dirty ≡ false
    → (get k g.entries ≡ some e) × (key_eq (row, addr) k ≡ false)
unfolding re_dirty
re_dirty-clean_before row addr now g k e got c = elim (Option-cases (get (row, addr) g.entries)) [
  | inl n ↦ ground (arith, rw (n, re_dirty) at got, n, key_eq_iff {K = Key} (row, addr) k)
  | inr (x, there) ↦ ground (
    arith,
    rw (there, re_dirty) at got,
    c,
    there,
    key_eq_iff {K = Key} (row, addr) k,
    get-remove (row, addr) k g.entries,
    get-update (row, addr) k (record x { dirty = true }) g.entries,
    Option-cases (get k g.entries),
  )
]

-- What putting a key back makes of its entry.
abbrev pub requeued : ℕ → Option Entry → Option Entry
requeued now none = none
requeued now (some e) = if leb e.expires_at now then none else some (record e { dirty = true })

pub get-re_dirty :
    (row : String) (addr now : ℕ) (g : Inner) (k : Key)
    → get k (re_dirty row addr now g).0.entries
      ≡ (if key_eq (row, addr) k then requeued now (get k g.entries) else get k g.entries)
unfolding re_dirty
get-re_dirty row addr now g k = elim (Option-cases (get (row, addr) g.entries)) [
  | inl n ↦ rw (n, re_dirty) (ground (arith, n, key_eq_iff {K = Key} (row, addr) k))
  | inr (x, there) ↦
      rw (there, re_dirty)
        (ground (
          arith,
          there,
          key_eq_iff {K = Key} (row, addr) k,
          get-remove (row, addr) k g.entries,
          get-update (row, addr) k (record x { dirty = true }) g.entries,
          Option-cases (get k g.entries),
        ))
]
