-- ===== src/Workload/Actor/Batch/Coherent.antt =====
-- A batch keeps the table valid and the counters in step (src/workload/actor.rs).
use Prim.Native.String.{String}
use cfab.Prelude.{
  ℕ, ◌-◌, ◌<◌, ◌^◌, ◌≡◌, sym, subst, inl, inr, List, [], ◌∷◌, Option, none, some, All, arith,
  Option-cases, if-both, ◌==◌, length,
}
use cfab.Prelude.BTreeMap.{string_ord}
use cfab.Workload.Table.{Key, Inner, Taken, dirty_depth}
use cfab.Workload.Table.Valid.{IsValid, upsert-IsValid, re_dirty-IsValid, take_next_dirty-IsValid}
use cfab.Workload.Bucket.{burst}
use cfab.Workload.Kernel.{Element, KernelNeighbors, Ran}
use cfab.Workload.Actor.{
  Counts, RowCounts, FlushActor, Why, note_expiries, read_kernel, wait_and_spend,
}
use cfab.Workload.Actor.Notes.{
  IsBalanced, credit-IsBalanced, note_expiries-table, note_expiries-IsBalanced, read_kernel-table,
  read_kernel-IsBalanced,
}
use cfab.Workload.Actor.Batch.{
  Claim, claims, Round, Drain, skip_one, write_one, fail_one, note_skip, settle_write, handle,
  take_for, re_dirty_all, finish, BatchIo, started, drain_batch, with_read, after_wait, wanted,
  run_batch,
}
use cfab.Workload.Actor.Batch.Rule.{handle-rule, drain-rule}

-- The table is valid and the counters agree.
pub record IsCoherent (a : FlushActor) : Type 0 where
  pub valid : IsValid a.table
  pub balanced : IsBalanced a.counts a.per_row

-- What holds of the actor in a result that there is.
abbrev pub Holds : {A : Type 0} → (FlushActor → Type 0) → Option (FlushActor × A) → Type 0
Holds P none = Unit
Holds P (some r) = P r.0

-- An address is a u32.
abbrev pub IsClaim : Claim → Type 0
IsClaim c = c.addr < 2 ^ 32

pub claims-IsValid :
    (cs : List Claim) (g : Inner) → All IsClaim cs → IsValid g → IsValid (claims cs g)
unfolding claims
claims-IsValid [] g small v = v
claims-IsValid (c ∷ cs) g small v =
    claims-IsValid cs _ small.1
      (upsert-IsValid c.row c.leg c.addr c.mac c.expires_at c.limit c.now g small.0 v)

note_skip-IsCoherent : (row : String) (a : FlushActor) → IsCoherent a → IsCoherent (note_skip row a)
unfolding note_skip
note_skip-IsCoherent row a c = record {
  valid = c.valid;
  balanced = credit-IsBalanced skip_one row a.per_row a.counts _ (λ c. omega arith) c.balanced;
}

settle_write-IsCoherent :
    (t : Taken) (o : Option Why) (d : Drain)
    → IsCoherent d.actor
    → IsCoherent (settle_write t o d).actor
unfolding settle_write
settle_write-IsCoherent t none d c = record {
  valid = c.valid;
  balanced =
      credit-IsBalanced write_one t.row d.actor.per_row d.actor.counts _ (λ c. omega arith)
        c.balanced;
}
settle_write-IsCoherent t (some why) d c = record {
  valid = c.valid;
  balanced =
      credit-IsBalanced fail_one t.row d.actor.per_row d.actor.counts _ (λ c. omega arith)
        c.balanced;
}

-- A change of the other fields.
rest-IsCoherent :
    (a b : FlushActor)
    → a.table ≡ b.table
    → a.counts ≡ b.counts
    → a.per_row ≡ b.per_row
    → IsCoherent a
    → IsCoherent b
rest-IsCoherent a b t n r c = record {
  valid = subst IsValid t c.valid;
  balanced =
      subst (λ (m : List (String × RowCounts)). IsBalanced b.counts m) r
        (subst (λ (n : Counts). IsBalanced n a.per_row) n c.balanced);
}

handle-IsCoherent :
    (doc : KernelNeighbors) (t : Taken) (r : Round) (d : Drain)
    → IsCoherent d.actor
    → IsCoherent (handle doc t r d).0.actor
handle-IsCoherent doc t r d c =
    handle-rule (λ (d : Drain). IsCoherent d.actor) doc t r d (λ _. c)
      (λ _ _. note_skip-IsCoherent t.row d.actor c)
      (λ b _. record { valid = c.valid; balanced = c.balanced })
      λ verb b _ _.
        settle_write-IsCoherent t _ _ (record { valid = c.valid; balanced = c.balanced })

take_for-IsCoherent :
    (r : Round) (d : Drain)
    → All IsClaim r.arrived
    → IsCoherent d.actor
    → IsCoherent (take_for r d).0.actor
unfolding take_for
take_for-IsCoherent r d small c = record {
  valid =
      take_next_dirty-IsValid r.take_at _ (claims-IsValid r.arrived d.actor.table small c.valid);
  balanced = c.balanced;
}

re_dirty_all-IsValid :
    (ks : List Key) (now : ℕ) (between : ℕ → List Claim) (g : Inner) (dropped : List String)
    → ((i : ℕ) → All IsClaim (between i))
    → IsValid g
    → IsValid (re_dirty_all ks now between g dropped).0
unfolding re_dirty_all
re_dirty_all-IsValid [] now between g dropped small v = v
re_dirty_all-IsValid (k ∷ ks) now between g dropped small v =
    let g' = claims (between (length ks)) g in
    re_dirty_all-IsValid ks now between _ _ small (
      re_dirty-IsValid k.0 k.1 now g'
        (claims-IsValid (between (length ks)) g (small (length ks)) v))

pub note_expiries-IsCoherent :
    (rows : List String) (now : ℕ) (a : FlushActor)
    → IsCoherent a
    → IsCoherent (note_expiries rows now a)
note_expiries-IsCoherent rows now a c = record {
  valid = subst IsValid (sym (note_expiries-table rows now a)) c.valid;
  balanced = note_expiries-IsBalanced rows now a c.balanced;
}

pub finish-IsCoherent :
    (now : ℕ) (between : ℕ → List Claim) (d : Drain)
    → ((i : ℕ) → All IsClaim (between i))
    → IsCoherent d.actor
    → IsCoherent (finish now between d)
unfolding finish
finish-IsCoherent now between d small c = note_expiries-IsCoherent _ now _ (record {
  valid = re_dirty_all-IsValid d.put_back now between d.actor.table d.dropped small c.valid;
  balanced = c.balanced;
})

pub read_kernel-IsCoherent :
    (read_json : String → Option (List Element)) (r : Ran) (a : FlushActor)
    → IsCoherent a
    → IsCoherent (read_kernel read_json r a).0
read_kernel-IsCoherent read_json r a c = record {
  valid = subst IsValid (sym (read_kernel-table read_json r a)) c.valid;
  balanced = read_kernel-IsBalanced read_json r a c.balanced;
}

-- The claims that a batch meets are of u32 addresses.
abbrev pub IsBatchIo : BatchIo → Type 0
IsBatchIo io =
    ((i : ℕ) → All IsClaim (io.rounds i).arrived) × ((i : ℕ) → All IsClaim (io.between i))

pub drain_batch-IsCoherent :
    (doc : KernelNeighbors) (io : BatchIo) (a : FlushActor)
    → ((i : ℕ) → All IsClaim (io.rounds i).arrived)
    → IsCoherent a
    → IsCoherent (drain_batch doc io a).actor
unfolding drain_batch
drain_batch-IsCoherent doc io a small c =
    drain-rule (λ (d : Drain). IsCoherent d.actor) doc io.rounds
      (λ i d c _. take_for-IsCoherent (io.rounds i) d (small i) c)
      (λ i d t c _.
        handle-IsCoherent doc t (io.rounds i) _ (take_for-IsCoherent (io.rounds i) d (small i) c))
      (burst - 1) (started a) c

with_read-IsCoherent :
    (io : BatchIo) (r : FlushActor × Option KernelNeighbors)
    → IsBatchIo io
    → IsCoherent r.0
    → IsCoherent (with_read io r).0
unfolding with_read
with_read-IsCoherent io (a, none) small c = c
with_read-IsCoherent io (a, some doc) small c =
    finish-IsCoherent io.end_at io.between (drain_batch doc io a) small.1
      (drain_batch-IsCoherent doc io a small.0 c)

pub after_wait-IsCoherent :
    (read_json : String → Option (List Element)) (io : BatchIo) (a : FlushActor)
    → IsBatchIo io
    → IsCoherent a
    → IsCoherent (after_wait read_json io a).0
unfolding after_wait
after_wait-IsCoherent read_json io a small c =
    with_read-IsCoherent io (read_kernel read_json io.read_ran a) small
      (read_kernel-IsCoherent read_json io.read_ran a c)

pub run_batch-IsCoherent :
    (read_json : String → Option (List Element)) (io : BatchIo) (a : FlushActor)
    → IsBatchIo io
    → IsCoherent a
    → Holds IsCoherent (run_batch read_json io a)
unfolding run_batch
run_batch-IsCoherent read_json io a small c =
    if-both (Holds IsCoherent) (dirty_depth a.table == 0) _ _ c
      (elim (Option-cases (wait_and_spend io.waits (wanted (dirty_depth a.table)) a.bucket)) [
        | inl e ↦ rw e tt
        | inr (b, e) ↦ rw e (
            after_wait-IsCoherent read_json io (record a { bucket = b }) small
              (record { valid = c.valid; balanced = c.balanced }))
      ])
