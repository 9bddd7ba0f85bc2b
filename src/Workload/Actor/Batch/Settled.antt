-- ===== src/Workload/Actor/Batch/Settled.antt =====
-- No claim that a batch meets is forgotten (src/workload/actor.rs).
use Prim.Native.String.{String}
use cfab.Prelude.{
  ℕ, ◌-◌, ◌≡◌, refl, subst, ◌⊎◌, inl, inr, Bool, true, false, List, [], ◌∷◌, ◌++◌, Option, none,
  some, arith, any, length, Bool-cases, any-append, In,
}
use cfab.Prelude.BTreeMap.{string_ord, nat_ord, pair_ord, key_eq, key_eq_refl, get}
use cfab.Workload.Table.{Entry, Key, Inner, Taken}
use cfab.Workload.Table.Drain.{taken_of}
use cfab.Workload.Table.Clean.{upsert-clean, take-clean, re_dirty-clean_before}
use cfab.Workload.Bucket.{burst}
use cfab.Workload.Kernel.{KernelNeighbors, Class, Ran, WriteVerb, write_argv, classify}
use cfab.Workload.Actor.{FlushActor, Why}
use cfab.Workload.Actor.Notes.{note_expiries-table}
use cfab.Workload.Actor.Batch.{
  Claim, claims, Round, Written, Drain, failure, key_of, see, back, pay, fork, settle_write,
  note_write, note_write_failure, note_skip, handle, take_for, re_dirty_all, finish, BatchIo,
  started, drain_batch,
}
use cfab.Workload.Table.Valid.{is_queued}
use cfab.Workload.Table.Lasting.{Lasts}
use cfab.Workload.Actor.Batch.Coherent.{
  IsCoherent, IsBatchIo, finish-IsCoherent, drain_batch-IsCoherent,
}
use cfab.Workload.Actor.Batch.Lasting.{Within, finish-There}
use cfab.Workload.Actor.Batch.Rule.{handle-rule, drain-rule}

-- A write of just this entry was run and exited with 0.
abbrev pub Told : Key → Entry → List Written → Type 0
Told k e ws =
    (w : Written) × In w ws
    × (w.key ≡ k)
    × (w.argv.addr ≡ k.1)
    × (w.argv.mac ≡ e.mac)
    × (w.argv.leg ≡ e.leg)
    × (failure w.result ≡ none)

-- What may have come of a clean entry in a batch that started with the table `m`.
abbrev pub Settled : KernelNeighbors → List (Key × Entry) → List Written → Key → Entry → Type 0
Settled doc m ws k e = (get k m ≡ some e) ⊎ Told k e ws ⊎ (classify e.leg k.1 doc ≡ Class.skip)

abbrev is_back : Key → List Key → Bool
is_back k = any (λ j. key_eq j k)

-- The same inside the batch, where the entry may wait to be put back.
abbrev Kept : KernelNeighbors → List (Key × Entry) → Drain → Type 0
Kept doc m d =
    (k : Key) (e : Entry)
    → get k d.actor.table.entries ≡ some e
    → e.dirty ≡ false
    → Settled doc m d.written k e ⊎ (is_back k d.put_back ≡ true)

claims-clean :
    (cs : List Claim) (g : Inner) (k : Key) (e : Entry)
    → get k (claims cs g).entries ≡ some e
    → e.dirty ≡ false
    → get k g.entries ≡ some e
unfolding claims
claims-clean [] g k e got c = got
claims-clean (x ∷ cs) g k e got c =
    upsert-clean x.row x.leg x.addr x.mac x.expires_at x.limit x.now g k e
      (claims-clean cs _ k e got c) c

-- After a take, an entry that is clean was kept, or is the one handed out.
Handing : KernelNeighbors → List (Key × Entry) → Drain → Option Taken → Type 0
Handing doc m d taken =
    (k : Key) (e : Entry)
    → get k d.actor.table.entries ≡ some e
    → e.dirty ≡ false
    → (Settled doc m d.written k e ⊎ (is_back k d.put_back ≡ true))
      ⊎ ((x : Entry) × (taken ≡ some (taken_of k x)) × (e ≡ record x { dirty = false }))

take_for-Handing :
    (doc : KernelNeighbors) (m : List (Key × Entry)) (r : Round) (d : Drain)
    → Kept doc m d
    → Handing doc m (take_for r d).0 (take_for r d).1
unfolding take_for Handing
take_for-Handing doc m r d h k e got c = elim (take-clean r.take_at _ k e got) [
  | inl before ↦ inl (h k e (claims-clean r.arrived d.actor.table k e before c) c)
  | inr handed ↦ inr handed
]

In-snoc : (ws : List Written) (w x : Written) → In x ws → In x (ws ++ (w ∷ []))
In-snoc [] w x i = absurd i
In-snoc (y ∷ ws) w x (inl e) = inl e
In-snoc (y ∷ ws) w x (inr i) = inr (In-snoc ws w x i)

In-last : (ws : List Written) (w : Written) → In w (ws ++ (w ∷ []))
In-last [] w = inl refl
In-last (y ∷ ws) w = inr (In-last ws w)

Settled-snoc :
    (doc : KernelNeighbors) (m : List (Key × Entry)) (ws : List Written) (w : Written) (k : Key)
    (e : Entry)
    → Settled doc m ws k e
    → Settled doc m (ws ++ (w ∷ [])) k e
Settled-snoc doc m ws w k e (inl same) = inl same
Settled-snoc doc m ws w k e (inr (inl (x, i, key, addr, mac, leg, fine))) =
    inr (inl (x, In-snoc ws w x i, key, addr, mac, leg, fine))
Settled-snoc doc m ws w k e (inr (inr skipped)) = inr (inr skipped)

-- The entry handed out is put back, found with the kernel, or written.
Handing-back :
    (doc : KernelNeighbors) (m : List (Key × Entry)) (t : Taken) (d : Drain)
    → Handing doc m d (some t)
    → Kept doc m (back t d)
unfolding Handing
Handing-back doc m t d h k e got c = elim (h k e got c) [
  | inl (inl s) ↦ inl s
  | inl (inr b) ↦
      inr (ground (arith, b, any-append (λ (j : Key). key_eq j k) d.put_back (key_of t ∷ [])))
  | inr (x, is, _) ↦ inr (
      ground (
        arith,
        is,
        any-append (λ (j : Key). key_eq j k) d.put_back (key_of t ∷ []),
        key_eq_refl {K = Key} k,
      ))
]

Handing-skip :
    (doc : KernelNeighbors) (m : List (Key × Entry)) (t : Taken) (d : Drain)
    → classify t.leg t.addr doc ≡ Class.skip
    → Handing doc m d (some t)
    → Kept doc m d
unfolding Handing
Handing-skip doc m t d skipped h k e got c = elim (h k e got c) [
  | inl s ↦ s
  | inr (x, is, same) ↦ inl (inr (inr (ground (arith, is, same, skipped))))
]

Handing-fork :
    (doc : KernelNeighbors) (m : List (Key × Entry)) (t : Taken) (verb : WriteVerb) (result : Ran)
    (d : Drain)
    → Handing doc m d (some t)
    → Handing doc m (fork verb t result d) (some t)
unfolding Handing
Handing-fork doc m t verb result d h k e got c = elim (h k e got c) [
  | inl (inl s) ↦ inl (inl (Settled-snoc doc m d.written _ k e s))
  | inl (inr b) ↦ inl (inr b)
  | inr handed ↦ inr handed
]

written_of : WriteVerb → Taken → Ran → Written
written_of verb t result = record {
  key = key_of t;
  argv = write_argv verb t.addr t.mac t.leg;
  result = result;
}

Told-fork :
    (t : Taken) (verb : WriteVerb) (result : Ran) (ws : List Written) (k : Key) (e x : Entry)
    → some t ≡ some (taken_of k x)
    → e ≡ record x { dirty = false }
    → failure result ≡ none
    → Told k e (ws ++ (written_of verb t result ∷ []))
unfolding written_of
Told-fork t verb result ws k e x is same fine = (
  written_of verb t result,
  In-last ws (written_of verb t result),
  ground (arith, is),
  ground (arith, is),
  ground (arith, is, same),
  ground (arith, is, same),
  fine,
)

settle_write-Kept :
    (doc : KernelNeighbors) (m : List (Key × Entry)) (t : Taken) (verb : WriteVerb) (result : Ran)
    (d : Drain) (o : Option Why)
    → failure result ≡ o
    → Handing doc m d (some t)
    → Kept doc m (settle_write t o (fork verb t result d))
unfolding settle_write note_write note_write_failure Handing written_of
settle_write-Kept doc m t verb result d none fine h k e got c = elim (h k e got c) [
  | inl (inl s) ↦ inl (Settled-snoc doc m d.written _ k e s)
  | inl (inr b) ↦ inr b
  | inr (x, is, same) ↦ inl (inr (inl (Told-fork t verb result d.written k e x is same fine)))
]
settle_write-Kept doc m t verb result d (some why) fine h k e got c =
    Handing-back doc m t (fork verb t result d) (Handing-fork doc m t verb result d h) k e got c

handle-Kept :
    (doc : KernelNeighbors) (m : List (Key × Entry)) (t : Taken) (r : Round) (d : Drain)
    → Handing doc m d (some t)
    → Kept doc m (handle doc t r d).0
unfolding Handing note_skip
handle-Kept doc m t r d h =
    handle-rule (Kept doc m) doc t r d (λ _. Handing-back doc m t d h)
      (λ _ skipped. Handing-skip doc m t d skipped h) (λ b _. Handing-back doc m t (pay b d) h)
      λ verb b _ _.
        settle_write-Kept doc m t verb r.write_ran (pay b (see t d)) (failure r.write_ran) refl h

drain_batch-Kept :
    (doc : KernelNeighbors) (io : BatchIo) (a : FlushActor)
    → Kept doc a.table.entries (drain_batch doc io a)
unfolding drain_batch Handing
drain_batch-Kept doc io a =
    let m = a.table.entries in
    drain-rule (Kept doc m) doc io.rounds
      (λ i d h e k x got c. elim (take_for-Handing doc m (io.rounds i) d h k x got c) [
        | inl s ↦ s
        | inr (y, is, _) ↦ absurd (ground (arith, e, is))
      ])
      (λ i d t h e.
        handle-Kept doc m t (io.rounds i) (take_for (io.rounds i) d).0
          (rw e at (take_for-Handing doc m (io.rounds i) d h)))
      (burst - 1) (started a) λ k e got c. inl (inl got)

re_dirty_all-clean :
    (ks : List Key) (now : ℕ) (between : ℕ → List Claim) (g : Inner) (dropped : List String)
    (k : Key) (e : Entry)
    → get k (re_dirty_all ks now between g dropped).0.entries ≡ some e
    → e.dirty ≡ false
    → (get k g.entries ≡ some e) × (is_back k ks ≡ false)
unfolding re_dirty_all
re_dirty_all-clean [] now between g dropped k e got c = (got, refl)
re_dirty_all-clean (j ∷ ks) now between g dropped k e got c =
    let g' = claims (between (length ks)) g in
    let (there, rest) = re_dirty_all-clean ks now between _ _ k e got c in
    let (before, other) = re_dirty-clean_before j.0 j.1 now g' k e there c in
    (claims-clean (between (length ks)) g k e before c, ground (arith, other, rest))

clean-Settled :
    (doc : KernelNeighbors) (io : BatchIo) (a : FlushActor) (k : Key) (e : Entry)
    → let d = drain_batch doc io a in
      get k (finish io.end_at io.between d).table.entries ≡ some e
      → e.dirty ≡ false
      → Settled doc a.table.entries d.written k e
unfolding finish
clean-Settled doc io a k e got c =
    let d = drain_batch doc io a in
    let there =
      subst (λ (g : Inner). get k g.entries ≡ some e) (note_expiries-table _ io.end_at _) got in
    let (before, rest) =
      re_dirty_all-clean d.put_back io.end_at io.between d.actor.table d.dropped k e there c in
    elim (drain_batch-Kept doc io a k e before c) [
      | inl s ↦ s
      | inr b ↦ absurd (ground (arith, b, rest))
    ]

-- An entry waits in the queue to be written, or what has come of it is said by `Settled`.
abbrev pub Accounted :
    KernelNeighbors → List (Key × Entry) → List Written → Key → Entry → Inner → Type 0
Accounted doc m ws k e after =
    ((e.dirty ≡ true) × (is_queued k after.queue ≡ true))
    ⊎ ((e.dirty ≡ false) × Settled doc m ws k e)

-- In a coherent actor, an entry that is there before a batch, whose lease outlasts every instant of it,
-- as do the leases that relays claim for it meanwhile, is there after it. Every entry that is there
-- after the batch, those that relays made meanwhile too, waits in the queue to be written; or is clean
-- as it was before; or a write of exactly its address, MAC and leg was run in the batch and exited with
-- 0; or the document that the batch read held a MAC for it on its leg.
pub no_claim_forgotten :
    (doc : KernelNeighbors) (io : BatchIo) (a : FlushActor) (until : ℕ) (k : Key)
    → IsCoherent a
    → IsBatchIo io
    → Within until k io
    → let d = drain_batch doc io a in
      let after = (finish io.end_at io.between d).table in
      (Lasts until k a.table → Lasts until k after)
      × ((e : Entry)
          → get k after.entries ≡ some e
          → Accounted doc a.table.entries d.written k e after)
no_claim_forgotten doc io a until k c small w =
    let d = drain_batch doc io a in
    let valid =
      (finish-IsCoherent io.end_at io.between d small.1
        (drain_batch-IsCoherent doc io a small.0 c)).valid in
    (
      finish-There until k doc io a w,
      λ e got. elim (Bool-cases e.dirty) [
        | inl dirty ↦ inl (dirty, valid.queued k e got dirty)
        | inr clean ↦ inr (clean, clean-Settled doc io a k e got clean)
      ],
    )
