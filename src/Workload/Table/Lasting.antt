-- ===== src/Workload/Table/Lasting.antt =====
-- An entry whose lease outlasts an instant, through the table's calls (src/workload/table.rs).
use Prim.Native.String.{String}
use cfab.Prelude.{
  ℕ, ◌<◌, ◌≤◌, ◌≡◌, inl, inr, true, false, none, some, arith, leb, Option-cases, Bool-cases,
}
use cfab.Prelude.BTreeMap.{
  string_ord, nat_ord, pair_ord, key_eq, key_eq_iff, get, get-insert, get-update,
}
use cfab.Workload.Cap.{RowCap}
use cfab.Workload.Table.{Mac, Entry, Key, Inner, row_len, admit, upsert, take_next_dirty, re_dirty}
use cfab.Workload.Table.Drain.{take_keeps_live}
use cfab.Workload.Table.Clean.{get-re_dirty}

-- The key has an entry, and its lease runs until `until` at least.
abbrev pub Lasts : ℕ → Key → Inner → Type 0
Lasts until k g = (e : Entry) × (get k g.entries ≡ some e) × (until ≤ e.expires_at)

module _ (until : ℕ) (row leg : String) (addr : ℕ) (mac : Mac) (expires_at : ℕ) (limit : RowCap)
    (now : ℕ) (g : Inner) (k : Key) where
  abbrev claimed : Entry
  claimed = record { leg = leg; mac = mac; expires_at = expires_at; dirty = true }

  admit-Lasts :
      get (row, addr) g.entries ≡ none
      → Lasts until k g
      → Lasts until k (admit g (row, addr) leg mac expires_at limit now).0
  unfolding admit
  admit-Lasts new (e, got, l) = elim (Bool-cases (leb limit.value (row_len g.entries row))) [
    | inl full ↦ rw (full, admit) (e, got, l)
    | inr room ↦
        rw (room, admit)
          (
            e,
            ground (
              arith,
              got,
              new,
              key_eq_iff {K = Key} (row, addr) k,
              get-insert (row, addr) k claimed g.entries,
            ),
            l,
          )
  ]

  -- A claim of the key whose lease lasts, or any of another key, leaves it an entry that lasts.
  pub upsert-Lasts :
      (key_eq {K = Key} (row, addr) k ≡ true → until ≤ expires_at)
      → Lasts until k g
      → Lasts until k (upsert row leg addr mac expires_at limit now g).0
  unfolding upsert
  upsert-Lasts long (e, got, l) = elim (Option-cases (get (row, addr) g.entries)) [
    | inl n ↦ rw (n, upsert) (admit-Lasts n (e, got, l))
    | inr (x, there) ↦ elim (Bool-cases (key_eq {K = Key} (row, addr) k)) [
      | inl same ↦
          rw (there, upsert)
            (
              claimed,
              ground (arith, same, got, get-update (row, addr) k claimed g.entries),
              long same,
            )
      | inr other ↦
          rw (there, upsert)
            (e, ground (arith, other, got, get-update (row, addr) k claimed g.entries), l)
    ]
  ]

-- A take before that instant leaves it.
pub take_next_dirty-Lasts :
    (until now : ℕ) (g : Inner) (k : Key)
    → now < until
    → Lasts until k g
    → Lasts until k (take_next_dirty now g).0
take_next_dirty-Lasts until now g k early (e, got, l) =
    elim (take_keeps_live now g k e got (omega (arith, early, l))) [
      | inl kept ↦ (e, kept, l)
      | inr (_, kept) ↦ (record e { dirty = false }, kept, l)
    ]

-- So does putting a key back before that instant.
pub re_dirty-Lasts :
    (until : ℕ) (row : String) (addr now : ℕ) (g : Inner) (k : Key)
    → now < until
    → Lasts until k g
    → Lasts until k (re_dirty row addr now g).0
re_dirty-Lasts until row addr now g k early (e, got, l) =
    elim (Bool-cases (key_eq {K = Key} (row, addr) k)) [
      | inl same ↦ (
        record e { dirty = true },
        ground (arith, early, l, same, got, get-re_dirty row addr now g k),
        l,
      )
      | inr other ↦ (e, ground (arith, other, got, get-re_dirty row addr now g k), l)
    ]
