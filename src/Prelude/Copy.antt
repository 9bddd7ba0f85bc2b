-- ===== src/Prelude/Copy.antt =====
-- Writes into a byte sequence, and what they leave.
use Prim.Native.Nat.{ℕ, zero, suc, ◌+◌, ◌^◌, ◌≤◌, ◌<◌}
use mathlib.Core.Path.{◌≡◌, refl, sym, ap}
use mathlib.Core.Logic.{◌⊎◌, inr}
use mathlib.Core.List.{[], ◌∷◌}
use native.Mathlib.Omega.{arith}
use cfab.Prelude.Lists.{length, get_or, take, drop}
use cfab.Prelude.Bytes.{Bytes, be32, to_be32, copy_at}

-- A copy leaves every byte outside it, and the length.
pub copy_at-length : (at : ℕ) (b f : Bytes) → length (copy_at at b f) ≡ length f
copy_at-length zero [] f = refl
copy_at-length zero (x ∷ b) [] = refl
copy_at-length zero (x ∷ b) (y ∷ f) = omega (arith, copy_at-length zero b f)
copy_at-length (suc at) b [] = refl
copy_at-length (suc at) b (y ∷ f) = omega (arith, copy_at-length at b f)

pub copy_at-outside :
    (at : ℕ) (b f : Bytes) (i : ℕ)
    → (i < at) ⊎ (at + length b ≤ i)
    → get_or (copy_at at b f) i 0 ≡ get_or f i 0
copy_at-outside zero [] f i h = refl
copy_at-outside zero (x ∷ b) [] i h = refl
copy_at-outside zero (x ∷ b) (y ∷ f) zero h = absurd (ground arith)
copy_at-outside zero (x ∷ b) (y ∷ f) (suc i) h = copy_at-outside zero b f i (inr (ground arith))
copy_at-outside (suc at) b [] i h = refl
copy_at-outside (suc at) b (y ∷ f) zero h = refl
copy_at-outside (suc at) b (y ∷ f) (suc i) h = copy_at-outside at b f i (ground arith)

pub copy_at-range :
    (at n : ℕ) (b f : Bytes)
    → length b ≡ n
    → at + n ≤ length f
    → take n (drop at (copy_at at b f)) ≡ b
copy_at-range zero n [] f h k = rw (sym h) refl
copy_at-range zero n (x ∷ b) [] h k = absurd (omega arith)
copy_at-range zero zero (x ∷ b) (y ∷ f) h k = absurd (omega arith)
copy_at-range zero (suc n) (x ∷ b) (y ∷ f) h k =
    ap (λ t. x ∷ t) (copy_at-range zero n b f (omega arith) (omega arith))
copy_at-range (suc at) n b [] h k = absurd (omega arith)
copy_at-range (suc at) n b (y ∷ f) h k = copy_at-range at n b f h (omega arith)

-- An address is written and read back.
pub be32-to_be32 : (a : ℕ) → a < 2 ^ 32 → be32 (to_be32 a) ≡ a
be32-to_be32 a h = omega arith

pub drop-copy_at : (at k : ℕ) (b f : Bytes) → at + length b ≤ k → drop k (copy_at at b f) ≡ drop k f
drop-copy_at zero k [] f h = refl
drop-copy_at zero k (x ∷ b) [] h = refl
drop-copy_at zero zero (x ∷ b) (y ∷ f) h = absurd (omega arith)
drop-copy_at zero (suc k) (x ∷ b) (y ∷ f) h = drop-copy_at zero k b f (omega arith)
drop-copy_at (suc at) k b [] h = refl
drop-copy_at (suc at) zero b (y ∷ f) h = absurd (omega arith)
drop-copy_at (suc at) (suc k) b (y ∷ f) h = drop-copy_at at k b f (omega arith)
