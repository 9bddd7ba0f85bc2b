-- ===== src/Workload/Table/Departures.antt =====
-- Every entry that leaves the table is reported to the caller (src/workload/table.rs).
use Prim.Native.String.{String}
use cfab.Prelude.{
  ℕ, ◌+◌, ◌≡◌, refl, inl, inr, true, false, not, List, [], ◌∷◌, ◌++◌, Option, none, some, arith,
  filter, map, length, length-append, Option-cases,
}
use cfab.Prelude.BTreeMap.{
  string_ord, nat_ord, pair_ord, key_eq_iff, get, update, remove, IsMap, remove-IsMap,
}
use cfab.Workload.Table.{
  Entry, Key, Inner, re_dirty, drop, visit, take_loop, take_next_dirty, is_live, remove_expired,
  len,
}
use cfab.Workload.Table.Valid.{Visit-cases}

length-update : (k : Key) (e : Entry) (m : List (Key × Entry)) → length (update k e m) ≡ length m
length-update k e [] = refl
length-update k e ((j, x) ∷ m) = ground (arith, length-update k e m)

remove_missing : (k : Key) (m : List (Key × Entry)) → get k m ≡ none → remove k m ≡ m
remove_missing k [] h = refl
remove_missing k ((j, x) ∷ m) h = ground (arith, remove_missing k m)

length-remove :
    (k : Key) (e : Entry) (m : List (Key × Entry))
    → IsMap m
    → get k m ≡ some e
    → length (remove k m) + 1 ≡ length m
length-remove k e [] d h = absurd (ground arith)
length-remove k e ((j, x) ∷ m) d h =
    ground (arith, key_eq_iff j k, remove_missing k m, remove_missing j m, length-remove k e m d.1)

visit-drop : (now : ℕ) (o : Option Entry) → visit now o ≡ drop → (e : Entry) × (o ≡ some e)
visit-drop now none h = absurd (ground arith)
visit-drop now (some e) h = (e, refl)

take_loop-length :
    (now : ℕ) (m : List (Key × Entry)) (q : List (Key × ℕ)) (expired : List String)
    → IsMap m
    → length (take_loop now m q expired).0 + length (take_loop now m q expired).2.expired
      ≡ length m + length expired
unfolding take_loop
take_loop-length now m [] expired d = refl
take_loop-length now m ((k, t) ∷ q) expired d = elim (Visit-cases (visit now (get k m))) [
  | inl v ↦ rw (v, take_loop) (take_loop-length now m q expired d)
  | inr (inl v) ↦
      let (e, got) = visit-drop now (get k m) v in
      let rest = take_loop-length now (remove k m) q (expired ++ (k.0 ∷ [])) (remove-IsMap k m d) in
      rw (v, take_loop)
        (omega (arith, rest, length-remove k e m d got, length-append expired (k.0 ∷ [])))
  | inr (inr (e, v)) ↦
      rw (v, take_loop) (omega (arith, length-update k (record e { dirty = false }) m))
]

filter_split :
    (now : ℕ) (m : List (Key × Entry))
    → length (filter (is_live now) m)
        + length
            (map (λ (x : Key × Entry). x.0.0) (filter (λ (x : Key × Entry). not (is_live now x)) m))
      ≡ length m
filter_split now [] = omega arith
filter_split now ((k, e) ∷ m) = ground (arith, filter_split now m)

abbrev pub one_if {ℓ} : {A : Type ℓ} → Option A → ℕ
one_if none = 0
one_if (some a) = 1

re_dirty-len :
    (row : String) (addr now : ℕ) (g : Inner)
    → IsMap g.entries
    → length (re_dirty row addr now g).0.entries + one_if (re_dirty row addr now g).2
      ≡ length g.entries
unfolding re_dirty
re_dirty-len row addr now g d = elim (Option-cases (get (row, addr) g.entries)) [
  | inl e ↦ rw (e, re_dirty) (omega arith)
  | inr (x, e) ↦
      rw (e, re_dirty)
        (ground (
          arith,
          length-remove (row, addr) x g.entries d e,
          length-update (row, addr) (record x { dirty = true }) g.entries,
        ))
]

-- Whatever leaves the table is reported: on each of the three calls that drop expired entries,
-- the entries that stay and the rows reported add up to the entries there were.
pub departures_reported :
    (row : String) (addr now : ℕ) (g : Inner)
    → IsMap g.entries
    → (let (after, out) = take_next_dirty now g in len after + length out.expired ≡ len g)
      × (let (after, rows) = remove_expired now g in len after + length rows ≡ len g)
      × (let r = re_dirty row addr now g in len r.0 + one_if r.2 ≡ len g)
unfolding take_next_dirty remove_expired len
departures_reported row addr now g d = (
  omega (arith, take_loop-length now g.entries g.queue [] d),
  filter_split now g.entries,
  re_dirty-len row addr now g d,
)
