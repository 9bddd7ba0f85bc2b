-- ===== src/Workload/Table/Valid.antt =====
-- What holds of the neighbor table between any two calls (src/workload/table.rs).
use Prim.Native.String.{String}
use cfab.Prelude.{
  ℕ, ◌<◌, ◌^◌, ◌≡◌, refl, ◌⊎◌, inl, inr, Bool, true, false, List, [], ◌∷◌, ◌++◌, none, some, arith,
  All, any, any-append, leb, if◌then◌else◌, Bool-cases, Option-cases,
}
use cfab.Prelude.BTreeMap.{
  string_ord, nat_ord, pair_ord, key_eq, key_eq_iff, get, insert, update, remove, IsMap, get-insert,
  get-update, get-remove, get-filter, insert-IsMap, update-IsMap, remove-IsMap, filter-IsMap,
  AllKeys-insert, AllKeys-update, AllKeys-remove, AllKeys-filter,
}
use cfab.Workload.Cap.{RowCap}
use cfab.Workload.Table.{
  Mac, Entry, Key, Inner, new, admit, upsert, row_len, re_dirty, Visit, pass, drop, hand, visit,
  take_loop, take_next_dirty, is_live, remove_expired,
}
use cfab.Workload.Table.Keys.{IsAddr}
use cfab.Workload.Table.History.{Op, upserts, re_dirties, takes, expires, IsOp, step, run}

abbrev pub is_queued : Key → List (Key × ℕ) → Bool
is_queued k = any (λ q. key_eq q.0 k)

-- Every dirty entry's key is in the queue.
abbrev pub Queued : List (Key × Entry) → List (Key × ℕ) → Type 0
Queued m queue =
    (k : Key) (e : Entry) → get k m ≡ some e → e.dirty ≡ true → is_queued k queue ≡ true

pub record IsValid (g : Inner) : Type 0 where
  pub distinct : IsMap g.entries
  pub addressed : All (λ x. IsAddr x.0) g.entries
  pub queued : Queued g.entries g.queue

pub new-IsValid : IsValid new
new-IsValid = record { distinct = tt; addressed = tt; queued = λ k e h d. absurd (ground arith) }

Queued-coalesce :
    (m : List (Key × Entry)) (q : List (Key × ℕ)) (key : Key) (e e' : Entry) (now : ℕ)
    → Queued m q
    → get key m ≡ some e
    → Queued (update key e' m) (if e.dirty then q else q ++ ((key, now) ∷ []))
Queued-coalesce m q key e e' now h there k x got d = ground (
  arith,
  get-update key k e' m,
  key_eq_iff key k,
  h k x,
  h key e,
  any-append (λ (p : Key × ℕ). key_eq p.0 k) q ((key, now) ∷ []),
)

Queued-insert :
    (m : List (Key × Entry)) (q : List (Key × ℕ)) (key : Key) (e' : Entry) (now : ℕ)
    → Queued m q
    → Queued (insert key e' m) (q ++ ((key, now) ∷ []))
Queued-insert m q key e' now h k x got d = ground (
  arith,
  get-insert key k e' m,
  h k x,
  any-append (λ (p : Key × ℕ). key_eq p.0 k) q ((key, now) ∷ []),
)

-- What each visit of the drain leaves.
Queued-pass :
    (m : List (Key × Entry)) (q : List (Key × ℕ)) (key : Key) (t now : ℕ)
    → Queued m ((key, t) ∷ q)
    → visit now (get key m) ≡ pass
    → Queued m q
Queued-pass m q key t now h v k x got d = ground (arith, key_eq_iff key k, h k x)

Queued-drop :
    (m : List (Key × Entry)) (q : List (Key × ℕ)) (key : Key) (t : ℕ)
    → Queued m ((key, t) ∷ q)
    → Queued (remove key m) q
Queued-drop m q key t h k x got d = ground (arith, get-remove key k m, h k x)

Queued-hand :
    (m : List (Key × Entry)) (q : List (Key × ℕ)) (key : Key) (t : ℕ) (e : Entry)
    → Queued m ((key, t) ∷ q)
    → Queued (update key (record e { dirty = false }) m) q
Queued-hand m q key t e h k x got d =
    ground (arith, get-update key k (record e { dirty = false }) m, h k x, Option-cases (get k m))

-- The parts of `IsValid` on the entries and the queue alone.
abbrev Sound : List (Key × Entry) → List (Key × ℕ) → Type 0
Sound m q = IsMap m × All (λ x. IsAddr x.0) m × Queued m q

pub Visit-cases : (v : Visit) → (v ≡ pass) ⊎ (v ≡ drop) ⊎ ((e : Entry) × (v ≡ hand e))
Visit-cases pass = inl refl
Visit-cases drop = inr (inl refl)
Visit-cases (hand e) = inr (inr (e, refl))

take_loop-Sound :
    (now : ℕ) (m : List (Key × Entry)) (q : List (Key × ℕ)) (expired : List String)
    → Sound m q
    → Sound (take_loop now m q expired).0 (take_loop now m q expired).1
unfolding take_loop
take_loop-Sound now m [] expired s = s
take_loop-Sound now m ((key, t) ∷ q) expired (d, a, h) =
    elim (Visit-cases (visit now (get key m))) [
      | inl v ↦
          rw (v, take_loop) (take_loop-Sound now m q expired (d, a, Queued-pass m q key t now h v))
      | inr (inl v) ↦
          rw (v, take_loop)
            (take_loop-Sound now (remove key m) q (expired ++ (key.0 ∷ []))
              (remove-IsMap key m d, AllKeys-remove IsAddr key m a, Queued-drop m q key t h))
      | inr (inr (e, v)) ↦
          rw (v, take_loop)
            (update-IsMap key _ m d, AllKeys-update IsAddr key _ m a, Queued-hand m q key t e h)
    ]

admit-IsValid :
    (g : Inner) (key : Key) (leg : String) (mac : Mac) (expires_at : ℕ) (limit : RowCap) (now : ℕ)
    → get key g.entries ≡ none
    → IsAddr key
    → IsValid g
    → IsValid (admit g key leg mac expires_at limit now).0
unfolding admit
admit-IsValid g key leg mac expires_at limit now e small v =
    elim (Bool-cases (leb limit.value (row_len g.entries key.0))) [
      | inl full ↦
          rw (full, admit)
            (record { distinct = v.distinct; addressed = v.addressed; queued = v.queued })
      | inr room ↦
          rw (room, admit)
            (record {
              distinct = insert-IsMap key _ g.entries v.distinct e;
              addressed = AllKeys-insert IsAddr key _ g.entries small v.addressed;
              queued = Queued-insert g.entries g.queue key _ now v.queued;
            })
    ]

pub upsert-IsValid :
    (row leg : String) (addr : ℕ) (mac : Mac) (expires_at : ℕ) (limit : RowCap) (now : ℕ)
    (g : Inner)
    → addr < 2 ^ 32
    → IsValid g
    → IsValid (upsert row leg addr mac expires_at limit now g).0
unfolding upsert
upsert-IsValid row leg addr mac expires_at limit now g small v =
    elim (Option-cases (get (row, addr) g.entries)) [
      | inl e ↦ rw (e, upsert) (admit-IsValid g (row, addr) leg mac expires_at limit now e small v)
      | inr (x, e) ↦
          rw (e, upsert)
            (record {
              distinct = update-IsMap (row, addr) _ g.entries v.distinct;
              addressed = AllKeys-update IsAddr (row, addr) _ g.entries v.addressed;
              queued = Queued-coalesce g.entries g.queue (row, addr) x _ now v.queued e;
            })
    ]

pub re_dirty-IsValid :
    (row : String) (addr now : ℕ) (g : Inner) → IsValid g → IsValid (re_dirty row addr now g).0
unfolding re_dirty
re_dirty-IsValid row addr now g v = elim (Option-cases (get (row, addr) g.entries)) [
  | inl e ↦ rw (e, re_dirty) v
  | inr (x, e) ↦ elim (Bool-cases (leb x.expires_at now)) [
    | inl old ↦
        rw (e, re_dirty)
          (rw old (record {
            distinct = remove-IsMap (row, addr) g.entries v.distinct;
            addressed = AllKeys-remove IsAddr (row, addr) g.entries v.addressed;
            queued =
                Queued-drop g.entries g.queue (row, addr) now
                  λ k y got d. ground (arith, v.queued k y);
          }))
    | inr fresh ↦ elim (Bool-cases x.dirty) [
      | inl d ↦ rw (e, re_dirty) (rw (fresh, d) v)
      | inr c ↦
          rw (e, re_dirty)
            (rw (fresh, c)
              (record {
                distinct = update-IsMap (row, addr) _ g.entries v.distinct;
                addressed = AllKeys-update IsAddr (row, addr) _ g.entries v.addressed;
                queued = rw c at (
                    Queued-coalesce g.entries g.queue (row, addr) x (record x { dirty = true }) now
                      v.queued e);
              }))
    ]
  ]
]

pub take_next_dirty-IsValid : (now : ℕ) (g : Inner) → IsValid g → IsValid (take_next_dirty now g).0
unfolding take_next_dirty
take_next_dirty-IsValid now g v =
    let (d, a, q) = take_loop-Sound now g.entries g.queue [] (v.distinct, v.addressed, v.queued) in
    record { distinct = d; addressed = a; queued = q }

pub remove_expired-IsValid : (now : ℕ) (g : Inner) → IsValid g → IsValid (remove_expired now g).0
unfolding remove_expired
remove_expired-IsValid now g v = record {
  distinct = filter-IsMap (is_live now) g.entries v.distinct;
  addressed = AllKeys-filter IsAddr (is_live now) g.entries v.addressed;
  queued = λ k e got d. ground (
    arith,
    get-filter (is_live now) k g.entries v.distinct,
    v.queued k e,
    Option-cases (get k g.entries),
  );
}

pub step-IsValid : (g : Inner) (o : Op) → IsOp o → IsValid g → IsValid (step g o)
unfolding step
step-IsValid g (upserts row leg addr mac expires_at limit now) small v =
    upsert-IsValid row leg addr mac expires_at limit now g small v
step-IsValid g (re_dirties row addr now) t v = re_dirty-IsValid row addr now g v
step-IsValid g (takes now) t v = take_next_dirty-IsValid now g v
step-IsValid g (expires now) t v = remove_expired-IsValid now g v

run-IsValid : (g : Inner) (os : List Op) → All IsOp os → IsValid g → IsValid (run g os)
unfolding run
run-IsValid g [] a v = v
run-IsValid g (o ∷ os) a v = run-IsValid (step g o) os a.1 (step-IsValid g o a.0 v)

-- After any calls on a new table, in any order and at any instants, no key stands twice, every
-- address is a u32, and every dirty entry's key is still in the queue.
pub run-new-IsValid : (os : List Op) → All IsOp os → IsValid (run new os)
run-new-IsValid os a = run-IsValid new os a new-IsValid
