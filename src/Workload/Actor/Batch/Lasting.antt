-- ===== src/Workload/Actor/Batch/Lasting.antt =====
-- An entry whose lease outlasts a batch is there after it (src/workload/actor.rs).
use Prim.Native.String.{String}
use cfab.Prelude.{ℕ, ◌-◌, ◌<◌, ◌≤◌, ◌≡◌, sym, subst, true, List, [], ◌∷◌, All, length}
use cfab.Prelude.BTreeMap.{string_ord, nat_ord, pair_ord, key_eq}
use cfab.Workload.Table.{Key, Inner, Taken}
use cfab.Workload.Table.Lasting.{Lasts, upsert-Lasts, take_next_dirty-Lasts, re_dirty-Lasts}
use cfab.Workload.Bucket.{burst}
use cfab.Workload.Kernel.{KernelNeighbors}
use cfab.Workload.Actor.{FlushActor}
use cfab.Workload.Actor.Notes.{note_expiries-table}
use cfab.Workload.Actor.Batch.{
  Claim, claims, Round, Drain, settle_write, note_write, note_write_failure, note_skip, handle,
  take_for, re_dirty_all, finish, BatchIo, started, drain_batch,
}
use cfab.Workload.Actor.Batch.Rule.{handle-rule, settle_write-rule, drain-rule}

-- A claim of the key has a lease until then at least.
abbrev pub IsLong : ℕ → Key → Claim → Type 0
IsLong until k c = key_eq {K = Key} (c.row, c.addr) k ≡ true → until ≤ c.expires_at

-- All instants of the batch are before `until`, and the claims of the key that come in are long.
pub record Within (until : ℕ) (k : Key) (io : BatchIo) : Type 0 where
  pub takes : (i : ℕ) → (io.rounds i).take_at < until
  pub ends : io.end_at < until
  pub arrived : (i : ℕ) → All (IsLong until k) (io.rounds i).arrived
  pub between : (i : ℕ) → All (IsLong until k) (io.between i)

claims-Lasts :
    (until : ℕ) (cs : List Claim) (g : Inner) (k : Key)
    → All (IsLong until k) cs
    → Lasts until k g
    → Lasts until k (claims cs g)
unfolding claims
claims-Lasts until [] g k long l = l
claims-Lasts until (c ∷ cs) g k long l =
    claims-Lasts until cs _ k long.1
      (upsert-Lasts until c.row c.leg c.addr c.mac c.expires_at c.limit c.now g k long.0 l)

module _ (until : ℕ) (k : Key) where
  -- The entry is there in the batch's table.
  abbrev There : Drain → Type 0
  There d = Lasts until k d.actor.table

  handle-There :
      (doc : KernelNeighbors) (t : Taken) (r : Round) (d : Drain)
      → There d
      → There (handle doc t r d).0
  unfolding settle_write note_write note_write_failure note_skip
  handle-There doc t r d l =
      handle-rule There doc t r d (λ _. l) (λ _ _. l) (λ b _. l)
        λ verb b _ _. settle_write-rule There t _ _ (λ _. l) λ why. l

  take_for-There :
      (r : Round) (d : Drain)
      → r.take_at < until
      → All (IsLong until k) r.arrived
      → There d
      → There (take_for r d).0
  unfolding take_for
  take_for-There r d early long l =
      take_next_dirty-Lasts until r.take_at _ k early
        (claims-Lasts until r.arrived d.actor.table k long l)

  re_dirty_all-There :
      (ks : List Key) (now : ℕ) (between : ℕ → List Claim) (g : Inner) (dropped : List String)
      → now < until
      → ((i : ℕ) → All (IsLong until k) (between i))
      → Lasts until k g
      → Lasts until k (re_dirty_all ks now between g dropped).0
  unfolding re_dirty_all
  re_dirty_all-There [] now between g dropped early long l = l
  re_dirty_all-There (j ∷ ks) now between g dropped early long l =
      let g' = claims (between (length ks)) g in
      re_dirty_all-There ks now between _ _ early long (
        re_dirty-Lasts until j.0 j.1 now g' k early
          (claims-Lasts until (between (length ks)) g k (long (length ks)) l))

  pub finish-There :
      (doc : KernelNeighbors) (io : BatchIo) (a : FlushActor)
      → Within until k io
      → Lasts until k a.table
      → Lasts until k (finish io.end_at io.between (drain_batch doc io a)).table
  unfolding drain_batch finish
  finish-There doc io a w l =
      let d = drain_batch doc io a in
      let drained : There d =
        drain-rule There doc io.rounds
          (λ i d l _. take_for-There (io.rounds i) d (w.takes i) (w.arrived i) l)
          (λ i d t l _.
            handle-There doc t (io.rounds i) _
              (take_for-There (io.rounds i) d (w.takes i) (w.arrived i) l))
          (burst - 1) (started a) l in
      subst (Lasts until k) (sym (note_expiries-table _ io.end_at _)) (
        re_dirty_all-There d.put_back io.end_at io.between d.actor.table d.dropped w.ends w.between
          drained)
