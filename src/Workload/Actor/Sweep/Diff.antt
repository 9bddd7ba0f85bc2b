-- ===== src/Workload/Actor/Sweep/Diff.antt =====
-- What the coherence sweep queues again (src/workload/actor.rs).
use Prim.Native.String.{String}
use cfab.Prelude.{
  ℕ, ◌+◌, ◌≡◌, refl, ◌∙◌, ap, Bool, false, ◌&&◌, List, [], ◌∷◌, map, none, some, arith, any, length,
  filter, if◌then◌else◌, Option-cases, if-cases,
}
use cfab.Prelude.BTreeMap.{string_ord, nat_ord, pair_ord, key_eq, key_eq_iff, get, IsMap}
use cfab.Workload.Table.{Entry, Key, Inner, list_entries, re_dirty}
use cfab.Workload.Table.Valid.{IsValid}
use cfab.Workload.Table.Clean.{requeued, get-re_dirty}
use cfab.Workload.Kernel.{KernelNeighbors, classify}
use cfab.Workload.Actor.{FlushActor}
use cfab.Workload.Actor.Notes.{note_expiries-table}
use cfab.Workload.Actor.Batch.{Claim, claims, and_row}
use cfab.Workload.Actor.Sweep.{diffed, SweepIo, is_absent, diff, diff_against}

abbrev pub lacks : KernelNeighbors → Key × Entry → Bool
lacks doc (k, e) = is_absent (classify e.leg k.1 doc)

-- Some listed entry of the key is absent from the document.
abbrev wants : KernelNeighbors → Key → List (String × ℕ × String) → Bool
wants doc k = any (λ x. key_eq (x.0, x.1) k && is_absent (classify x.2 x.1 doc))

get-diff :
    (doc : KernelNeighbors) (now : ℕ) (es : List (String × ℕ × String)) (g : Inner)
    (dropped : List String) (dirtied : ℕ) (k : Key)
    → get k (diff doc (λ _. []) now es g dropped dirtied).0.entries
      ≡ (if wants doc k es then requeued now (get k g.entries) else get k g.entries)
unfolding diff claims
get-diff doc now [] g dropped dirtied k = refl
get-diff doc now ((row, addr, leg) ∷ es) g dropped dirtied k =
    let g' = (re_dirty row addr now g).0 in
    let gone = (re_dirty row addr now g).2 in
    let es_wants = wants doc k es in
    if-cases
      (λ (r : Inner × List String × ℕ). get k r.0.entries ≡ (
        if wants doc k ((row, addr, leg) ∷ es)
        then requeued now (get k g.entries)
        else get k g.entries))
      (is_absent (classify leg addr doc)) _ _
      (λ absent. ground (
        arith,
        absent,
        get-diff doc now es g' (and_row dropped gone) (dirtied + 1) k,
        get-re_dirty row addr now g k,
        Option-cases (get k g.entries),
      ))
      λ there. ground (arith, there, get-diff doc now es g dropped dirtied k)

diff-dirtied :
    (doc : KernelNeighbors) (turns : ℕ → List Claim) (now : ℕ) (es : List (String × ℕ × String))
    (g : Inner) (dropped : List String) (dirtied : ℕ)
    → (diff doc turns now es g dropped dirtied).2
      ≡ dirtied + length (filter (λ x. is_absent (classify x.2 x.1 doc)) es)
unfolding diff
diff-dirtied doc turns now [] g dropped dirtied = omega arith
diff-dirtied doc turns now ((row, addr, leg) ∷ es) g dropped dirtied =
    let g' = claims (turns (length es)) g in
    let r = re_dirty row addr now g' in
    if-cases
      (λ (r : Inner × List String × ℕ).
        r.2
        ≡ dirtied + length (filter (λ x. is_absent (classify x.2 x.1 doc)) ((row, addr, leg) ∷ es)))
      (is_absent (classify leg addr doc)) _ _
      (λ absent.
        ground
          (arith, absent, diff-dirtied doc turns now es r.0 (and_row dropped r.2) (dirtied + 1)))
      λ there. ground (arith, there, diff-dirtied doc turns now es g' dropped dirtied)

-- An entry as the sweep lists it.
abbrev as_listed : Key × Entry → String × ℕ × String
as_listed x = (x.0.0, x.0.1, x.1.leg)

wants_missing :
    (doc : KernelNeighbors) (m : List (Key × Entry)) (k : Key)
    → get k m ≡ none
    → wants doc k (map as_listed m) ≡ false
wants_missing doc [] k h = refl
wants_missing doc ((j, x) ∷ m) k h = ground (arith, h, wants_missing doc m k)

wants_listed :
    (doc : KernelNeighbors) (m : List (Key × Entry)) (k : Key) (e : Entry)
    → IsMap m
    → get k m ≡ some e
    → wants doc k (map as_listed m) ≡ lacks doc (k, e)
wants_listed doc [] k e d got = absurd (ground (arith, got))
wants_listed doc ((j, x) ∷ m) k e d got =
    ground (arith, got, d.0, key_eq_iff j k, wants_missing doc m k, wants_listed doc m k e d.1)

length-lacks :
    (doc : KernelNeighbors) (m : List (Key × Entry))
    → length (filter (λ x. is_absent (classify x.2 x.1 doc)) (map as_listed m))
      ≡ length (filter (lacks doc) m)
length-lacks doc [] = refl
length-lacks doc ((j, x) ∷ m) = ground (arith, length-lacks doc m)

-- No entry comes to be by the diff.
pub diff_against-missing :
    (doc : KernelNeighbors) (io : SweepIo) (dropped : List String) (a : FlushActor) (k : Key)
    → get k a.table.entries ≡ none
    → let quiet : SweepIo = record io { arrived = []; turns = λ _. [] } in
      get k (diff_against doc quiet dropped a).0.table.entries ≡ none
unfolding diff_against list_entries claims
diff_against-missing doc io dropped a k missing =
    ap (λ (g : Inner). get k g.entries) (note_expiries-table _ io.now _)
    ∙ get-diff doc io.now (list_entries a.table) a.table dropped 0 k
    ∙ rw (missing, wants_missing doc a.table.entries k missing) refl

-- The diff, with no claim in between, touches exactly the entries for which the kernel holds no MAC on
-- their leg: such an entry is dirty again, or dropped if its lease has run out by then, and every
-- other entry is as it was. It counts the entries that the kernel lacked.
pub sweep_queues_absence :
    (doc : KernelNeighbors) (io : SweepIo) (dropped : List String) (a : FlushActor)
    → IsValid a.table
    → let quiet : SweepIo = record io { arrived = []; turns = λ _. [] } in
      let (after, s) = diff_against doc quiet dropped a in
      ((k : Key) (e : Entry)
        → get k a.table.entries ≡ some e
        → get k after.table.entries
          ≡ (if is_absent (classify e.leg k.1 doc) then requeued io.now (some e) else some e))
      × (s ≡ diffed (length (filter (lacks doc) a.table.entries)) (length dropped))
unfolding diff_against list_entries claims
sweep_queues_absence doc io dropped a v =
    let es = list_entries a.table in
    (
      λ k e got.
          ap (λ (g : Inner). get k g.entries) (note_expiries-table _ io.now _)
          ∙ get-diff doc io.now es a.table dropped 0 k
          ∙ rw (got, wants_listed doc a.table.entries k e v.distinct got) refl,
      ap (λ n. diffed n (length dropped))
          (omega (
            arith,
            diff-dirtied doc (λ _. []) io.now es a.table dropped 0,
            length-lacks doc a.table.entries,
          )),
    )
