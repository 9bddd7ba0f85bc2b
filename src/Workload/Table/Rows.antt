-- ===== src/Workload/Table/Rows.antt =====
-- How many entries one row can hold (src/workload/table.rs).
use Prim.Native.String.{String}
use cfab.Prelude.{
  ℕ, ◌<◌, ◌≤◌, ◌^◌, ◌≡◌, inl, inr, max, Bool, true, false, List, [], ◌∷◌, ◌++◌, arith, All,
  if◌then◌else◌, Option-cases,
}
use cfab.Prelude.BTreeMap.{
  string_ord, nat_ord, pair_ord, key_eq, key_eq_iff, get, remove, count, count-insert, count-update,
  count-remove-le, count-filter-le,
}
use cfab.Workload.Cap.{RowCap}
use cfab.Workload.Table.{
  Mac, Entry, Key, Inner, new, upsert, re_dirty, visit, take_loop, take_next_dirty, is_live,
  remove_expired,
}
use cfab.Workload.Table.Keys.{in_row, row_len-count}
use cfab.Workload.Table.History.{Op, upserts, re_dirties, takes, expires, IsOp, step, run}
use cfab.Workload.Table.Valid.{IsValid, step-IsValid, new-IsValid, Visit-cases}

-- How many entries a row holds.
abbrev pub held : String → Inner → ℕ
held row g = count (in_row row) g.entries

-- An `upsert` at a row never takes the row past its cap (a row that is past it already does not
-- grow), and it adds no entry to any other row. The table is valid, and the cap a u32.
pub upsert_capped :
    (row leg : String) (addr : ℕ) (mac : Mac) (expires_at : ℕ) (limit : RowCap) (now : ℕ)
    (g : Inner) (other : String)
    → IsValid g
    → limit.value < 2 ^ 32
    → held other (upsert row leg addr mac expires_at limit now g).0
      ≤ (if key_eq other row then max (held row g) limit.value else held other g)
unfolding upsert
upsert_capped row leg addr mac expires_at limit now g other v small =
    elim (Option-cases (get (row, addr) g.entries)) [
      | inl e ↦
          rw (e, upsert)
            (ground (
              arith,
              count-insert (in_row other) (row, addr)
                  (record { leg = leg; mac = mac; expires_at = expires_at; dirty = true }) g.entries
                  e,
              row_len-count row g.entries v.addressed,
              key_eq_iff row other,
              key_eq_iff other row,
            ))
      | inr (x, e) ↦
          rw (e, upsert)
            (ground (
              arith,
              key_eq_iff other row,
              count-update (in_row other) (row, addr)
                  (record { leg = leg; mac = mac; expires_at = expires_at; dirty = true })
                  g.entries,
            ))
    ]

-- The calls of a history that claim for the row state caps of at most `most`, which is a u32.
abbrev pub CapAtMost : String → ℕ → Op → Type 0
CapAtMost row most (upserts r leg addr mac expires_at limit now) =
    (addr < 2 ^ 32) × (limit.value < 2 ^ 32) × (r ≡ row → limit.value ≤ most)
CapAtMost row most (re_dirties r addr now) = Unit
CapAtMost row most (takes now) = Unit
CapAtMost row most (expires now) = Unit

take_loop-count :
    (p : Key → Bool) (now : ℕ) (m : List (Key × Entry)) (q : List (Key × ℕ)) (expired : List String)
    → count p (take_loop now m q expired).0 ≤ count p m
unfolding take_loop
take_loop-count p now m [] expired = omega arith
take_loop-count p now m ((k, t) ∷ q) expired = elim (Visit-cases (visit now (get k m))) [
  | inl v ↦ rw (v, take_loop) (take_loop-count p now m q expired)
  | inr (inl v) ↦
      rw (v, take_loop)
        (omega (
          arith,
          take_loop-count p now (remove k m) q (expired ++ (k.0 ∷ [])),
          count-remove-le p k m,
        ))
  | inr (inr (e, v)) ↦
      rw (v, take_loop) (omega (arith, count-update p k (record e { dirty = false }) m))
]

re_dirty-count :
    (p : Key → Bool) (row : String) (addr now : ℕ) (g : Inner)
    → count p (re_dirty row addr now g).0.entries ≤ count p g.entries
unfolding re_dirty
re_dirty-count p row addr now g = elim (Option-cases (get (row, addr) g.entries)) [
  | inl e ↦ rw (e, re_dirty) (omega arith)
  | inr (x, e) ↦
      rw (e, re_dirty)
        (ground (
          arith,
          count-remove-le p (row, addr) g.entries,
          count-update p (row, addr) (record x { dirty = true }) g.entries,
        ))
]

held-step :
    (row : String) (most : ℕ) (g : Inner) (o : Op)
    → IsValid g
    → CapAtMost row most o
    → held row g ≤ most
    → held row (step g o) ≤ most
unfolding step take_next_dirty remove_expired
held-step row most g (upserts r leg addr mac expires_at limit now) v (small, word, c) h =
    ground (arith, upsert_capped r leg addr mac expires_at limit now g row v word, key_eq_iff row r)
held-step row most g (re_dirties r addr now) v c h =
    omega (arith, re_dirty-count (in_row row) r addr now g)
held-step row most g (takes now) v c h =
    omega (arith, take_loop-count (in_row row) now g.entries g.queue [])
held-step row most g (expires now) v c h =
    omega (arith, count-filter-le (in_row row) (is_live now) g.entries)

CapAtMost-IsOp : (row : String) (most : ℕ) (o : Op) → CapAtMost row most o → IsOp o
CapAtMost-IsOp row most (upserts r leg addr mac expires_at limit now) c = c.0
CapAtMost-IsOp row most (re_dirties r addr now) c = tt
CapAtMost-IsOp row most (takes now) c = tt
CapAtMost-IsOp row most (expires now) c = tt

held-run :
    (row : String) (most : ℕ) (g : Inner) (os : List Op)
    → IsValid g
    → All (CapAtMost row most) os
    → held row g ≤ most
    → held row (run g os) ≤ most
unfolding run
held-run row most g [] v a h = h
held-run row most g (o ∷ os) v a h =
    held-run row most (step g o) os (step-IsValid g o (CapAtMost-IsOp row most o a.0) v) a.1
      (held-step row most g o v a.0 h)

-- Over any history of calls on a new table whose claims for a row state caps of at most `most`,
-- the row never holds more than `most` entries, whatever the other rows do.
pub row_capped :
    (row : String) (most : ℕ) (os : List Op)
    → All (CapAtMost row most) os
    → held row (run new os) ≤ most
row_capped row most os a = held-run row most new os new-IsValid a (omega arith)
