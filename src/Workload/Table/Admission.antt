-- ===== src/Workload/Table/Admission.antt =====
-- What `upsert` admits, refuses and keeps (src/workload/table.rs).
use Prim.Native.String.{String}
use mathlib.Core.Option
use cfab.Prelude.{
  ℕ, ◌+◌, ◌≤◌, ◌≡◌, ◌≢◌, refl, ◌∙◌, ◌⊎◌, inl, inr, Bool, true, false, [], ◌∷◌, ◌++◌, none, some,
  arith, leb, leb→le, if◌then◌else◌, Bool-cases, Option-cases,
}
use cfab.Prelude.BTreeMap.{
  string_ord, nat_ord, pair_ord, key_eq, key_eq_iff, key_eq_refl, get, insert, update, remove,
  get-insert, get-update, get-remove,
}
use cfab.Workload.Cap.{RowCap}
use cfab.Workload.Table.{
  Mac, Entry, Key, Inner, admitted, refused, coalesce, upsert, row_len, is_none,
}

-- The entry that an admission leaves.
abbrev pub claim : String → Mac → ℕ → Entry
claim leg mac expires_at = record { leg = leg; mac = mac; expires_at = expires_at; dirty = true }

module _ (row leg : String) (addr : ℕ) (mac : Mac) (expires_at : ℕ) (limit : RowCap) (now : ℕ)
    (g : Inner) where
  upsert-old :
      (x : Entry)
      → get (row, addr) g.entries ≡ some x
      → upsert row leg addr mac expires_at limit now g
        ≡ (coalesce g (row, addr) x leg mac expires_at now, admitted)
  unfolding upsert
  upsert-old x e = rw (e, upsert)

  upsert-full :
      get (row, addr) g.entries ≡ none
      → leb limit.value (row_len g.entries row) ≡ true
      → upsert row leg addr mac expires_at limit now g ≡ (
        record g {
          refusing = insert row tt g.refusing;
          cap_refusals = insert row (Option.get_or (get row g.cap_refusals) 0 + 1) g.cap_refusals;
        },
        refused (is_none (get row g.refusing)),
      )
  unfolding upsert
  upsert-full e full = rw (e, upsert) (rw full)

  upsert-room :
      get (row, addr) g.entries ≡ none
      → leb limit.value (row_len g.entries row) ≡ false
      → upsert row leg addr mac expires_at limit now g ≡ (
        record g {
          entries = insert (row, addr) (claim leg mac expires_at) g.entries;
          queue = g.queue ++ (((row, addr), now) ∷ []);
          refusing = remove row g.refusing;
        },
        admitted,
      )
  unfolding upsert
  upsert-room e room = rw (e, upsert) (rw room)

  -- An admitted claim is what the table then holds for its key, dirty, and every other entry is
  -- as it was; a refused one changes neither an entry nor the queue, its key was not in the table,
  -- the row was at its cap, and the refusal is counted once.
  pub upsert_outcome :
      let (after, outcome) = upsert row leg addr mac expires_at limit now g in
      ((outcome ≡ admitted)
        × ((k : Key)
            → get k after.entries
              ≡ (if key_eq (row, addr) k then some (claim leg mac expires_at) else get k g.entries))
        × (after.cap_refusals ≡ g.cap_refusals)
        × (get row after.refusing ≡ none))
      ⊎ ((outcome ≡ refused (is_none (get row g.refusing)))
          × (after.entries ≡ g.entries)
          × (after.queue ≡ g.queue)
          × (get (row, addr) g.entries ≡ none)
          × (limit.value ≤ row_len g.entries row)
          × (get row after.cap_refusals ≡ some (Option.get_or (get row g.cap_refusals) 0 + 1))
          × (is_none (get row after.refusing) ≡ false))
  unfolding coalesce
  upsert_outcome = elim (Option-cases (get (row, addr) g.entries)) [
    | inl e ↦ elim (Bool-cases (leb limit.value (row_len g.entries row))) [
      | inl full ↦
          rw (upsert-full e full) (inr (refl, refl, refl, e, leb→le _ _ full, counted, streaked))
      | inr room ↦ rw (upsert-room e room) (
          inl (
            refl,
            λ k. get-insert (row, addr) k (claim leg mac expires_at) g.entries,
            refl,
            rested,
          ))
    ]
    | inr (x, e) ↦ rw (upsert-old x e) (inl (refl, λ k. held_now x e k, refl, rested))
  ]
    where
      counted :
          get row (insert row (Option.get_or (get row g.cap_refusals) 0 + 1) g.cap_refusals)
          ≡ some (Option.get_or (get row g.cap_refusals) 0 + 1)
      counted = simp (get-insert, key_eq_refl)

      streaked : is_none (get row (insert row tt g.refusing)) ≡ false
      streaked = simp (get-insert, key_eq_refl)

      rested : get row (remove row g.refusing) ≡ none
      rested = simp (get-remove, key_eq_refl)

      held_now :
          (x : Entry)
          → get (row, addr) g.entries ≡ some x
          → (k : Key)
          → get k (update (row, addr) (claim leg mac expires_at) g.entries)
            ≡ (if key_eq (row, addr) k then some (claim leg mac expires_at) else get k g.entries)
      held_now x e k = ground (
        arith,
        get-update (row, addr) k (claim leg mac expires_at) g.entries,
        key_eq_iff (row, addr) k,
      )

  upsert_waiting :
      (x : Entry)
      → get (row, addr) g.entries ≡ some x
      → x.dirty ≡ true
      → (upsert row leg addr mac expires_at limit now g).0.queue ≡ g.queue
  unfolding coalesce
  upsert_waiting x e d = rw (upsert-old x e) (rw d)

-- A second claim for a key just admitted keeps the key's place in the queue: re-claiming faster
-- than the actor drains can neither push an entry back nor grow the queue.
pub upsert_keeps_place :
    (row leg leg' : String) (addr : ℕ) (mac mac' : Mac) (expires_at expires_at' : ℕ)
    (limit limit' : RowCap) (now now' : ℕ) (g : Inner)
    → let (first, outcome) = upsert row leg addr mac expires_at limit now g in
      outcome ≡ admitted
      → (upsert row leg' addr mac' expires_at' limit' now' first).0.queue ≡ first.queue
upsert_keeps_place row leg leg' addr mac mac' expires_at expires_at' limit limit' now now' g h =
    elim (upsert_outcome row leg addr mac expires_at limit now g) [
      | inl (_, there, _, _) ↦
          upsert_waiting row leg' addr mac' expires_at' limit' now' _ (claim leg mac expires_at)
            (there (row, addr) ∙ rw (key_eq_refl {K = Key} (row, addr))) refl
      | inr r ↦ absurd (ground arith)
    ]

-- A refusal is the first of its streak exactly when the call before it at the row was admitted:
-- of two calls in a row, a refused second one says so after an admission and not after a refusal.
pub refusal_streak :
    (row leg leg' : String) (addr addr' : ℕ) (mac mac' : Mac) (expires_at expires_at' : ℕ)
    (limit limit' : RowCap) (now now' : ℕ) (g : Inner) {first : Bool}
    → let (after, outcome) = upsert row leg addr mac expires_at limit now g in
      (upsert row leg' addr' mac' expires_at' limit' now' after).1 ≡ refused first
      → ((outcome ≡ admitted) × (first ≡ true)) ⊎ ((outcome ≢ admitted) × (first ≡ false))
refusal_streak row leg leg' addr addr' mac mac' expires_at expires_at' limit limit' now now' g
      {first} h =
    ground (
      arith,
      upsert_outcome row leg addr mac expires_at limit now g,
      upsert_outcome row leg' addr' mac' expires_at' limit' now'
          (upsert row leg addr mac expires_at limit now g).0,
    )
