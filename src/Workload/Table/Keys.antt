-- ===== src/Workload/Table/Keys.antt =====
-- The walk over one row's range of keys counts that row's entries (src/workload/table.rs).
use Prim.Native.String.{String}
use cfab.Prelude.{◌<◌, ◌^◌, ◌-◌, ◌≡◌, refl, Bool, List, [], ◌∷◌, arith, All}
use cfab.Prelude.BTreeMap.{string_ord, nat_ord, pair_ord, key_eq, count}
use cfab.Workload.Table.{Key, Entry, is_within, row_len}
use cfab.Workload.Cap.{to_u32}

abbrev pub IsAddr : Key → Type 0
IsAddr k = k.1 < 2 ^ 32

abbrev pub in_row : String → Key → Bool
in_row row k = key_eq k.0 row

within-in_row :
    (row : String) (k : Key) → IsAddr k → is_within (row, 0) (row, 2 ^ 32 - 1) k ≡ in_row row k
within-in_row row (r, a) h =
    ground (arith, string_ord.cmp_iff r row, string_ord.cmp_iff row r, string_ord.cmp_flip r row)

count-in_row :
    (row : String) (m : List (Key × Entry))
    → All (λ x. IsAddr x.0) m
    → count (is_within (row, 0) (row, 2 ^ 32 - 1)) m ≡ count (in_row row) m
count-in_row row [] h = refl
count-in_row row ((k, e) ∷ m) h = ground (arith, within-in_row row k h.0, count-in_row row m h.1)

pub row_len-count :
    (row : String) (m : List (Key × Entry))
    → All (λ x. IsAddr x.0) m
    → row_len m row ≡ to_u32 (count (in_row row) m)
unfolding row_len
row_len-count row m h = rw (count-in_row row m h)
