-- ===== src/Workload/Actor/Notes.antt =====
-- What the actor's notes change and what they leave, and that its two sets of counters agree
-- (src/workload/actor.rs).
use Prim.Native.String.{String}
use cfab.Prelude.{
  ℕ, ◌+◌, ◌≡◌, refl, sym, ap, subst, inl, inr, List, [], ◌∷◌, Option, arith, length, Option-cases,
}
use cfab.Prelude.BTreeMap.{string_ord, get}
use cfab.Prelude.BTreeMap.Sorted.{IsSorted, insert-IsSorted, total, worth, total-insert}
use cfab.Workload.Table.{Inner}
use cfab.Workload.Bucket.{Bucket}
use cfab.Workload.Kernel.{Element, Ran}
use cfab.Workload.Actor.{
  Counts, RowCounts, FlushActor, no_row_counts, row_counts, credit, expire_one, credit_expiries,
  say_expired, note_expiries, Read, read, unread, read_result, note_read, read_kernel,
}

-- The counters of the host are the sums of the rows' counters.
pub record IsBalanced (counts : Counts) (rows : List (String × RowCounts)) : Type 0 where
  pub sorted : IsSorted rows
  pub writes : total (λ (c : RowCounts). c.writes) rows ≡ counts.writes
  pub write_failures : total (λ (c : RowCounts). c.write_failures) rows ≡ counts.write_failures
  pub skips : total (λ (c : RowCounts). c.skips) rows ≡ counts.skips
  pub expiries : total (λ (c : RowCounts). c.expiries) rows ≡ counts.expiries

worth-row_counts :
    (q : RowCounts → ℕ) (row : String) (m : List (String × RowCounts))
    → q no_row_counts ≡ 0
    → q (row_counts row m) ≡ worth q (get row m)
worth-row_counts q row m z = elim (Option-cases (get row m)) [
  | inl e ↦ rw e z
  | inr (c, e) ↦ rw e refl
]

-- A credit that adds to each of a row's counters what the host's counters were given.
pub credit-IsBalanced :
    (f : RowCounts → RowCounts) (row : String) (m : List (String × RowCounts)) (b a : Counts)
    → ((c : RowCounts)
        → (c.writes + a.writes ≡ (f c).writes + b.writes)
          × (c.write_failures + a.write_failures ≡ (f c).write_failures + b.write_failures)
          × (c.skips + a.skips ≡ (f c).skips + b.skips)
          × (c.expiries + a.expiries ≡ (f c).expiries + b.expiries))
    → IsBalanced b m
    → IsBalanced a (credit f row m)
credit-IsBalanced f row m b a h v =
    let c = row_counts row m in
    let (w, x, s, e) = h c in
    record {
      sorted = insert-IsSorted row (f c) m v.sorted;
      writes = omega (
        arith,
        w,
        v.writes,
        total-insert (λ (c : RowCounts). c.writes) row (f c) m v.sorted,
        worth-row_counts (λ (c : RowCounts). c.writes) row m refl,
      );
      write_failures = omega (
        arith,
        x,
        v.write_failures,
        total-insert (λ (c : RowCounts). c.write_failures) row (f c) m v.sorted,
        worth-row_counts (λ (c : RowCounts). c.write_failures) row m refl,
      );
      skips = omega (
        arith,
        s,
        v.skips,
        total-insert (λ (c : RowCounts). c.skips) row (f c) m v.sorted,
        worth-row_counts (λ (c : RowCounts). c.skips) row m refl,
      );
      expiries = omega (
        arith,
        e,
        v.expiries,
        total-insert (λ (c : RowCounts). c.expiries) row (f c) m v.sorted,
        worth-row_counts (λ (c : RowCounts). c.expiries) row m refl,
      );
    }

credit_expiries-IsBalanced :
    (rows : List String) (m : List (String × RowCounts)) (b : Counts)
    → IsBalanced b m
    → IsBalanced (record b { expiries = b.expiries + length rows }) (credit_expiries rows m)
unfolding credit_expiries
credit_expiries-IsBalanced [] m b v = record {
  sorted = v.sorted;
  writes = v.writes;
  write_failures = v.write_failures;
  skips = v.skips;
  expiries = omega (arith, v.expiries);
}
credit_expiries-IsBalanced (row ∷ rows) m b v =
    let b' : Counts = record b { expiries = b.expiries + 1 } in
    let rest =
      credit_expiries-IsBalanced rows (credit expire_one row m) b'
        (credit-IsBalanced expire_one row m b b' (λ c. omega arith) v) in
    record {
      sorted = rest.sorted;
      writes = rest.writes;
      write_failures = rest.write_failures;
      skips = rest.skips;
      expiries = omega (arith, rest.expiries);
    }

-- The parts of the state that the journal's throttle does not touch.
abbrev pub Core : Type 0
Core = Inner × Bucket × Counts × List (String × RowCounts)

abbrev pub core : FlushActor → Core
core a = (a.table, a.bucket, a.counts, a.per_row)

say_expired-core :
    (fresh rows : List String) (now : ℕ) (a : FlushActor)
    → core (say_expired fresh rows now a) ≡ core a
unfolding say_expired
say_expired-core [] rows now a = refl
say_expired-core (f ∷ fresh) rows now a = refl

pub note_expiries-core :
    (rows : List String) (now : ℕ) (a : FlushActor)
    → core (note_expiries rows now a) ≡ (
      a.table,
      a.bucket,
      record a.counts { expiries = a.counts.expiries + length rows },
      credit_expiries rows a.per_row,
    )
unfolding note_expiries
note_expiries-core rows now a = say_expired-core _ rows now _

pub note_expiries-table :
    (rows : List String) (now : ℕ) (a : FlushActor) → (note_expiries rows now a).table ≡ a.table
note_expiries-table rows now a = ap (λ (c : Core). c.0) (note_expiries-core rows now a)

pub note_expiries-IsBalanced :
    (rows : List String) (now : ℕ) (a : FlushActor)
    → IsBalanced a.counts a.per_row
    → IsBalanced (note_expiries rows now a).counts (note_expiries rows now a).per_row
note_expiries-IsBalanced rows now a b =
    subst (λ (c : Core). IsBalanced c.2 c.3) (sym (note_expiries-core rows now a))
      (credit_expiries-IsBalanced rows a.per_row a.counts b)

pub note_read-IsBalanced :
    (r : Read) (a : FlushActor)
    → IsBalanced a.counts a.per_row
    → IsBalanced (note_read r a).0.counts (note_read r a).0.per_row
unfolding note_read
note_read-IsBalanced (read doc) a b = b
note_read-IsBalanced (unread why) a b = record {
  sorted = b.sorted;
  writes = b.writes;
  write_failures = b.write_failures;
  skips = b.skips;
  expiries = b.expiries;
}

note_read-table : (r : Read) (a : FlushActor) → (note_read r a).0.table ≡ a.table
unfolding note_read
note_read-table (read doc) a = refl
note_read-table (unread why) a = refl

pub read_kernel-table :
    (read_json : String → Option (List Element)) (r : Ran) (a : FlushActor)
    → (read_kernel read_json r a).0.table ≡ a.table
unfolding read_kernel
read_kernel-table read_json r a = note_read-table (read_result read_json r) a

pub read_kernel-IsBalanced :
    (read_json : String → Option (List Element)) (r : Ran) (a : FlushActor)
    → IsBalanced a.counts a.per_row
    → IsBalanced (read_kernel read_json r a).0.counts (read_kernel read_json r a).0.per_row
unfolding read_kernel
read_kernel-IsBalanced read_json r a = note_read-IsBalanced (read_result read_json r) a
