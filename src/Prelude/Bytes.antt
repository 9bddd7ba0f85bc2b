-- ===== src/Prelude/Bytes.antt =====
-- Byte sequences: a byte is a number below 256, a slice a list of them.
use Prim.Native.Nat.{ℕ, zero, suc, ◌+◌, ◌-◌, ◌*◌, ◌/◌, ◌%◌, ◌^◌, ◌≤◌, ◌<◌}
use Prim.Native.Nat.add
use mathlib.Core.Path.{◌≡◌, refl, sym, ap, ◌∙◌}
use mathlib.Core.Logic.{◌↔◌}
use mathlib.Core.Bool.{Bool, true, false, ◌&&◌}
use mathlib.Core.Option.{Option, none, some}
use mathlib.Core.List.{List, [], ◌∷◌, ◌++◌}
use native.Mathlib.Omega.{arith}
use cfab.Prelude.Tests.{leb, ◌==◌, if◌then◌else◌}
use cfab.Prelude.Lists.{length, take, drop, get_or}

abbrev pub Bytes : Type 0
Bytes = List ℕ

-- `a == b` on two byte sequences.
abbrev pub bytes_eq : Bytes → Bytes → Bool
bytes_eq [] [] = true
bytes_eq [] (b ∷ bs) = false
bytes_eq (a ∷ as') [] = false
bytes_eq (a ∷ as') (b ∷ bs) = a == b && bytes_eq as' bs

pub bytes_eq_iff : (a b : Bytes) → (bytes_eq a b ≡ true) ↔ (a ≡ b)
bytes_eq_iff [] [] = ground arith
bytes_eq_iff [] (b ∷ bs) = ground arith
bytes_eq_iff (a ∷ as') [] = ground arith
bytes_eq_iff (a ∷ as') (b ∷ bs) = ground (arith, bytes_eq_iff as' bs)

pub bytes_eq_refl : (a : Bytes) → bytes_eq a a ≡ true
bytes_eq_refl a = (bytes_eq_iff a a).1 refl

-- `&b[lo..hi]` of a slice that is long enough.
abbrev pub range : ℕ → ℕ → Bytes → Bytes
range lo hi b = take (hi - lo) (drop lo b)

-- `b.get(lo..hi)`.
abbrev pub get_range : Bytes → ℕ → ℕ → Option Bytes
get_range b lo hi = if leb hi (length b) then some (range lo hi b) else none

-- `b.get(i)`.
abbrev pub get_byte : Bytes → ℕ → Option ℕ
get_byte [] i = none
get_byte (x ∷ b) zero = some x
get_byte (x ∷ b) (suc i) = get_byte b i

-- `u16::from_be_bytes` and `u32::from_be_bytes` of the first bytes.
abbrev pub be16 : Bytes → ℕ
be16 b = get_or b 0 0 * 256 + get_or b 1 0

abbrev pub be32 : Bytes → ℕ
be32 b = ((get_or b 0 0 * 256 + get_or b 1 0) * 256 + get_or b 2 0) * 256 + get_or b 3 0

-- `to_be_bytes` of a u16.
abbrev pub to_be16 : ℕ → Bytes
to_be16 n = (n / 256 % 256) ∷ (n % 256) ∷ []

-- The octets of a u32.
abbrev pub to_be32 : ℕ → Bytes
to_be32 n = (n / 2 ^ 24 % 256) ∷ (n / 2 ^ 16 % 256) ∷ (n / 256 % 256) ∷ (n % 256) ∷ []

-- `f[at..].copy_from_slice(b)`, the slice being long enough.
abbrev pub copy_at : ℕ → Bytes → Bytes → Bytes
copy_at zero [] f = f
copy_at zero (x ∷ b) [] = []
copy_at zero (x ∷ b) (y ∷ f) = x ∷ copy_at zero b f
copy_at (suc at) b [] = []
copy_at (suc at) b (y ∷ f) = y ∷ copy_at at b f

-- Reading through a slice.
pub get_or-take : (n i d : ℕ) (b : Bytes) → i < n → get_or (take n b) i d ≡ get_or b i d
get_or-take zero i d b h = elim h [ ]
get_or-take (suc n) i d [] h = refl
get_or-take (suc n) zero d (x ∷ b) h = refl
get_or-take (suc n) (suc i) d (x ∷ b) h = get_or-take n i d b (omega arith)

pub get_or-drop : (n i j d : ℕ) (b : Bytes) → j ≡ n + i → get_or (drop n b) i d ≡ get_or b j d
get_or-drop zero i j d b h = rw (h, add.zero)
get_or-drop (suc n) i j d [] h = refl
get_or-drop (suc n) i zero d (x ∷ b) h = absurd (omega arith)
get_or-drop (suc n) i (suc j) d (x ∷ b) h = get_or-drop n i j d b (omega arith)

pub take-take : (k n : ℕ) (b : Bytes) → k ≤ n → take k (take n b) ≡ take k b
take-take zero n b h = refl
take-take (suc k) zero b h = elim h [ ]
take-take (suc k) (suc n) [] h = refl
take-take (suc k) (suc n) (x ∷ b) h = rw (take-take k n b (omega arith))

pub drop-take : (i k n : ℕ) (b : Bytes) → n ≡ i + k → drop i (take n b) ≡ take k (drop i b)
drop-take zero k n b h = rw (h, add.zero)
drop-take (suc i) k zero b h = absurd (omega arith)
drop-take (suc i) zero (suc n) [] h = refl
drop-take (suc i) (suc k) (suc n) [] h = refl
drop-take (suc i) k (suc n) (x ∷ b) h = drop-take i k n b (omega arith)

pub drop-drop : (i n j : ℕ) (b : Bytes) → j ≡ n + i → drop i (drop n b) ≡ drop j b
drop-drop i zero j b h = rw (h, add.zero)
drop-drop zero (suc n) zero [] h = refl
drop-drop zero (suc n) (suc j) [] h = refl
drop-drop (suc i) (suc n) zero [] h = refl
drop-drop (suc i) (suc n) (suc j) [] h = refl
drop-drop i (suc n) zero (x ∷ b) h = absurd (omega arith)
drop-drop i (suc n) (suc j) (x ∷ b) h = drop-drop i n j b (omega arith)

pub get_byte-get_or : (b : Bytes) (i : ℕ) → i < length b → get_byte b i ≡ some (get_or b i 0)
get_byte-get_or [] i h = elim h [ ]
get_byte-get_or (x ∷ b) zero h = refl
get_byte-get_or (x ∷ b) (suc i) h = get_byte-get_or b i (omega arith)

pub add-sub : (lo n : ℕ) → lo + n - lo ≡ n
add-sub lo n = omega arith

pub get_or-range :
    (lo n i d : ℕ) (b : Bytes) → i < n → get_or (range lo (lo + n) b) i d ≡ get_or b (lo + i) d
get_or-range lo n i d b h =
    rw (add-sub lo n) (get_or-take n i d (drop lo b) h ∙ get_or-drop lo i (lo + i) d b refl)

-- A slice of a slice.
pub range-range :
    (lo n i j : ℕ) (b : Bytes)
    → i ≤ j
    → j ≤ n
    → range i j (range lo (lo + n) b) ≡ range (lo + i) (lo + j) b
range-range lo n i j b h k = rw (add-sub lo n) (
    ap (take (j - i)) (drop-take i (n - i) n (drop lo b) (omega arith))
    ∙ take-take (j - i) (n - i) (drop i (drop lo b)) (omega arith)
    ∙ ap (take (j - i)) (drop-drop i lo (lo + i) b refl)
    ∙ ap (λ k. take k (drop (lo + i) b)) (same_width lo i j))
  where
    same_width : (lo i j : ℕ) → j - i ≡ lo + j - (lo + i)
    same_width lo i j = omega arith

-- A slice behind a position.
pub range-drop :
    (n i j lo hi : ℕ) (b : Bytes) → lo ≡ n + i → hi ≡ n + j → range lo hi b ≡ range i j (drop n b)
range-drop n i j lo hi b h k =
    ap (take (hi - lo)) (sym (drop-drop i n lo b h)) ∙ ap (λ w. take w (drop i (drop n b))) width
  where
    width : hi - lo ≡ j - i
    width = omega arith

pub drop-append : (n : ℕ) (xs ys : Bytes) → drop (length xs + n) (xs ++ ys) ≡ drop n ys
drop-append n [] ys = rw add.zero
drop-append n (x ∷ xs) ys = rw add.suc (drop-append n xs ys)

pub get_byte-drop :
    (n : ℕ) (b : Bytes) {x : ℕ} {c : Bytes} → drop n b ≡ x ∷ c → get_byte b n ≡ some x
get_byte-drop zero [] h = absurd (ground arith)
get_byte-drop zero (y ∷ b) h = ground arith
get_byte-drop (suc n) [] h = absurd (ground arith)
get_byte-drop (suc n) (y ∷ b) h = get_byte-drop n b h

pub length-drop_cons :
    (n : ℕ) (b : Bytes) {x : ℕ} {c : Bytes} → drop n b ≡ x ∷ c → length b ≡ n + suc (length c)
length-drop_cons zero [] h = absurd (ground arith)
length-drop_cons zero (y ∷ b) h = ground arith
length-drop_cons (suc n) [] h = absurd (ground arith)
length-drop_cons (suc n) (y ∷ b) h = omega (arith, length-drop_cons n b h)
