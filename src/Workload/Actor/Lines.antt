-- ===== src/Workload/Actor/Lines.antt =====
-- The journal's line on expired entries names a row once a window (src/workload/actor.rs).
use Prim.Native.String.{String}
use cfab.Prelude.{
  ℕ, ◌+◌, ◌<◌, ◌≡◌, refl, Bool, true, not, ◌&&◌, ◌||◌, List, [], ◌∷◌, map, some, All, arith, filter,
  leb, if◌then◌else◌,
}
use cfab.Prelude.BTreeMap.{string_ord, key_eq_iff, get, insert, get-insert}
use cfab.Workload.Table.{is_none}
use cfab.Workload.Actor.{
  FlushActor, expiry_log_window, rows_of, is_fresh, contains, fresh_rows, stamp, say_expired,
  note_expiries,
}

contains-filter :
    (p : String → Bool) (rows : List String) (row : String)
    → contains (filter p rows) row ≡ (contains rows row && p row)
contains-filter p [] row = refl
contains-filter p (r ∷ rows) row = ground (arith, contains-filter p rows row, key_eq_iff r row)

contains-map :
    (m : List (String × Unit {0})) (row : String)
    → contains (map (λ x. x.0) m) row ≡ not (is_none (get row m))
contains-map [] row = refl
contains-map ((r, u) ∷ m) row = ground (arith, contains-map m row)

get-rows_of :
    (rows : List String) (seen : List (String × Unit {0})) (row : String)
    → not (is_none (get row (rows_of rows seen)))
      ≡ (contains rows row || not (is_none (get row seen)))
unfolding rows_of
get-rows_of [] seen row = refl
get-rows_of (r ∷ rows) seen row =
    ground (arith, get-rows_of rows (insert r tt seen) row, get-insert r row tt seen)

-- The line names the rows that lost an entry and are fresh.
contains-fresh_rows :
    (rows : List String) (now : ℕ) (expiring : List (String × ℕ)) (row : String)
    → contains (fresh_rows rows now expiring) row
      ≡ (contains rows row && is_fresh now (get row expiring))
unfolding fresh_rows
contains-fresh_rows rows now expiring row = ground (
  arith,
  contains-filter (λ row. is_fresh now (get row expiring)) (map (λ x. x.0) (rows_of rows [])) row,
  contains-map (rows_of rows []) row,
  get-rows_of rows [] row,
)

get-stamp :
    (rows : List String) (now : ℕ) (m : List (String × ℕ)) (row : String)
    → get row (stamp rows now m) ≡ (if contains rows row then some now else get row m)
unfolding stamp
get-stamp [] now m row = refl
get-stamp (r ∷ rows) now m row =
    ground (arith, get-stamp rows now (insert r now m) row, get-insert r row now m)

say_expired-expiring :
    (fresh rows : List String) (now : ℕ) (a : FlushActor)
    → (say_expired fresh rows now a).expiring ≡ stamp fresh now a.expiring
unfolding say_expired stamp
say_expired-expiring [] rows now a = refl
say_expired-expiring (f ∷ fresh) rows now a = refl

-- What a note leaves of a row's stamp.
get-note_expiries :
    (rows : List String) (now : ℕ) (a : FlushActor) (row : String)
    → get row (note_expiries rows now a).expiring
      ≡ (if contains (fresh_rows rows now a.expiring) row then some now else get row a.expiring)
unfolding note_expiries
get-note_expiries rows now a row =
    rw (say_expired-expiring (fresh_rows rows now a.expiring) rows now _)
      (get-stamp (fresh_rows rows now a.expiring) now a.expiring row)

-- Notes one after the other.
abbrev pub notes : List (List String × ℕ) → FlushActor → FlushActor
notes [] a = a
notes ((rows, now) ∷ ns) a = notes ns (note_expiries rows now a)

get-notes :
    (ns : List (List String × ℕ)) (a : FlushActor) (row : String) (at : ℕ)
    → get row a.expiring ≡ some at
    → All (λ (n : List String × ℕ). n.1 < at + expiry_log_window) ns
    → get row (notes ns a).expiring ≡ some at
get-notes [] a row at h early = h
get-notes ((rows, now) ∷ ns) a row at h early =
    get-notes ns (note_expiries rows now a) row at
      (ground (
        arith,
        get-note_expiries rows now a row,
        contains-fresh_rows rows now a.expiring row,
        h,
        early.0,
      ))
      early.1

-- A row that the journal's line names is named again only when a whole window has gone by, whatever
-- was noted in the meantime, of that row and of others; after the window, its next expiry is named.
named_once_a_window :
    (rows : List String) (now : ℕ) (a : FlushActor) (row : String) (ns : List (List String × ℕ))
    (rows' : List String) (later : ℕ)
    → contains (fresh_rows rows now a.expiring) row ≡ true
    → All (λ (n : List String × ℕ). n.1 < now + expiry_log_window) ns
    → let a' = notes ns (note_expiries rows now a) in
      contains (fresh_rows rows' later a'.expiring) row
      ≡ (contains rows' row && leb (now + expiry_log_window) later)
named_once_a_window rows now a row ns rows' later named early =
    let stamped : get row (note_expiries rows now a).expiring ≡ some now =
      ground (arith, get-note_expiries rows now a row, named) in
    let a' = notes ns (note_expiries rows now a) in
    ground (
      arith,
      contains-fresh_rows rows' later a'.expiring row,
      get-notes ns (note_expiries rows now a) row now stamped early,
    )
