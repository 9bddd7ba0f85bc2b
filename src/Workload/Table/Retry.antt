-- ===== src/Workload/Table/Retry.antt =====
-- An entry that the actor took and could not write (src/workload/table.rs).
use Prim.Native.String.{String}
use cfab.Prelude.{
  ℕ, ◌<◌, ◌≤◌, ◌≡◌, refl, ◌∙◌, inl, inr, true, false, List, [], ◌∷◌, ◌++◌, Option, none, some,
  arith,
}
use cfab.Prelude.BTreeMap.{
  string_ord, nat_ord, pair_ord, key_eq_refl, get, update, remove, IsMap, get-update, get-remove,
  get-filter, kept,
}
use cfab.Workload.Cap.{RowCap}
use cfab.Workload.Table.{
  Mac, Entry, Taken, Key, Inner, admitted, upsert, re_dirty, hand, visit, take_loop,
  take_next_dirty, is_live, remove_expired,
}
use cfab.Workload.Table.Valid.{Visit-cases}
use cfab.Workload.Table.Drain.{taken_of}
use cfab.Workload.Table.Admission.{claim, upsert_outcome}

-- What a take that hands out `t` found and left.
abbrev Handed : ℕ → List (Key × Entry) → List (Key × Entry) → Taken → Type 0
Handed now before after t =
    (e : Entry) × (get (t.row, t.addr) before ≡ some e)
    × (e.dirty ≡ true)
    × (now < e.expires_at)
    × (t ≡ taken_of (t.row, t.addr) e)
    × (get (t.row, t.addr) after ≡ some (record e { dirty = false }))

visit-hand :
    (now : ℕ) (o : Option Entry) (e : Entry)
    → visit now o ≡ hand e
    → (o ≡ some e) × (e.dirty ≡ true) × (now < e.expires_at)
visit-hand now none e h = absurd (ground arith)
visit-hand now (some x) e h = ground arith

take_loop-Handed :
    (now : ℕ) (m : List (Key × Entry)) (q : List (Key × ℕ)) (expired : List String) (t : Taken)
    → (take_loop now m q expired).2.taken ≡ some t
    → Handed now m (take_loop now m q expired).0 t
unfolding take_loop
take_loop-Handed now m [] expired t h = absurd (ground arith)
take_loop-Handed now m ((k, at) ∷ q) expired t h = elim (Visit-cases (visit now (get k m))) [
  | inl v ↦ rw (v, take_loop) (take_loop-Handed now m q expired t (rw (v, take_loop) at h))
  | inr (inl v) ↦
      let ih =
        take_loop-Handed now (remove k m) q (expired ++ (k.0 ∷ [])) t (rw (v, take_loop) at h) in
      rw (v, take_loop)
        (ih.0, ground (arith, ih.1, get-remove k (t.row, t.addr) m), ih.2, ih.3, ih.4, ih.5)
  | inr (inr (e, v)) ↦
      let (got, d, l) = visit-hand now (get k m) e v in
      let same : taken_of k e ≡ t = ground (arith, rw (v, take_loop) at h) in
      rw (v, take_loop, ← same)
        (
          e,
          got,
          d,
          l,
          refl,
          ground (arith, get-update k k (record e { dirty = false }) m, key_eq_refl k),
        )
]

-- The entry that a take hands out was in the table, dirty and not run out, and what is handed out
-- is its leg and its MAC; it stays in the table, no longer dirty.
pub take_handed :
    (now : ℕ) (g : Inner) (t : Taken)
    → let (after, out) = take_next_dirty now g in
      out.taken ≡ some t
      → (e : Entry) × (get (t.row, t.addr) g.entries ≡ some e)
        × (e.dirty ≡ true)
        × (now < e.expires_at)
        × (t ≡ taken_of (t.row, t.addr) e)
        × (get (t.row, t.addr) after.entries ≡ some (record e { dirty = false }))
unfolding take_next_dirty
take_handed now g t h = take_loop-Handed now g.entries g.queue [] t h

re_dirty-clean :
    (row : String) (addr later : ℕ) (g : Inner) (e : Entry)
    → get (row, addr) g.entries ≡ some e
    → e.dirty ≡ false
    → later < e.expires_at
    → re_dirty row addr later g ≡ (
      record g {
        entries = update (row, addr) (record e { dirty = true }) g.entries;
        queue = g.queue ++ (((row, addr), later) ∷ []);
      },
      true,
      none,
    )
unfolding re_dirty
re_dirty-clean row addr later g e got c l = rw (got, re_dirty) (ground arith)

-- An entry that was taken and could not be written goes to the back of the queue, and is again what
-- it was, if its lease still runs; the actor is woken.
pub retry_goes_last :
    (now later : ℕ) (g : Inner) (t : Taken) (e : Entry)
    → let (after, out) = take_next_dirty now g in
      out.taken ≡ some t
      → get (t.row, t.addr) g.entries ≡ some e
      → later < e.expires_at
      → let r = re_dirty t.row t.addr later after in
        (r.0.queue ≡ after.queue ++ (((t.row, t.addr), later) ∷ []))
        × (get (t.row, t.addr) r.0.entries ≡ some e)
        × (r.1 ≡ true)
        × (r.2 ≡ none)
retry_goes_last now later g t e h got l =
    let (x, got', d, l', same, clean) = take_handed now g t h in
    let is : x ≡ e = ground (arith, got, got') in
    let step =
      re_dirty-clean t.row t.addr later (take_next_dirty now g).0 (record x { dirty = false }) clean
        refl (rw is l) in
    rw step (
      refl,
      ground (
        arith,
        get-update (t.row, t.addr) (t.row, t.addr) (record x { dirty = true })
            (take_next_dirty now g).0.entries,
        key_eq_refl {K = Key} (t.row, t.addr),
        clean,
        is,
        d,
      ),
      refl,
      refl,
    )

re_dirty-waiting :
    (row : String) (addr later : ℕ) (g : Inner) (e : Entry)
    → get (row, addr) g.entries ≡ some e
    → e.dirty ≡ true
    → later < e.expires_at
    → re_dirty row addr later g ≡ (g, false, none)
unfolding re_dirty
re_dirty-waiting row addr later g e got d l = rw (got, re_dirty) (ground arith)

re_dirty-over :
    (row : String) (addr later : ℕ) (g : Inner) (e : Entry)
    → get (row, addr) g.entries ≡ some e
    → e.expires_at ≤ later
    → let r = re_dirty row addr later g in (get (row, addr) r.0.entries ≡ none) × (r.2 ≡ some row)
unfolding re_dirty
re_dirty-over row addr later g e got l =
    rw (got, re_dirty)
      (ground
        (arith, get-remove (row, addr) (row, addr) g.entries, key_eq_refl {K = Key} (row, addr)))

claim_there :
    (row leg : String) (addr : ℕ) (mac : Mac) (expires_at : ℕ) (limit : RowCap) (now : ℕ)
    (g : Inner)
    → (upsert row leg addr mac expires_at limit now g).1 ≡ admitted
    → get (row, addr) (upsert row leg addr mac expires_at limit now g).0.entries
      ≡ some (claim leg mac expires_at)
claim_there row leg addr mac expires_at limit now g h =
    elim (upsert_outcome row leg addr mac expires_at limit now g) [
      | inl (_, there, _, _) ↦ there (row, addr) ∙ rw (key_eq_refl {K = Key} (row, addr))
      | inr r ↦ absurd (ground arith)
    ]

-- A claim that came in during the write keeps its place, and its lease decides: while it runs, the
-- retry changes nothing at all; once it has run out, the retry drops the entry and names its row.
pub newer_claim_stands :
    (row leg : String) (addr : ℕ) (mac : Mac) (expires_at : ℕ) (limit : RowCap) (now later : ℕ)
    (g : Inner)
    → let (after, outcome) = upsert row leg addr mac expires_at limit now g in
      outcome ≡ admitted
      → let r = re_dirty row addr later after in
        (later < expires_at → r ≡ (after, false, none))
        × (expires_at ≤ later → (get (row, addr) r.0.entries ≡ none) × (r.2 ≡ some row))
newer_claim_stands row leg addr mac expires_at limit now later g h =
    let g' = (upsert row leg addr mac expires_at limit now g).0 in
    let there = claim_there row leg addr mac expires_at limit now g h in
    (
      re_dirty-waiting row addr later g' (claim leg mac expires_at) there refl,
      re_dirty-over row addr later g' (claim leg mac expires_at) there,
    )

-- A sweep drops the entries that have run out, and no other; what it keeps is unchanged.
pub remove_expired_exact :
    (now : ℕ) (g : Inner) (k : Key)
    → IsMap g.entries
    → get k (remove_expired now g).0.entries ≡ kept (is_live now) k (get k g.entries)
unfolding remove_expired
remove_expired_exact now g k d = get-filter (is_live now) k g.entries d
