-- ===== src/Prelude/Options.antt =====
-- Chains of results that may be missing, as Rust's `?` on an `Option`.
use mathlib.Core.Option.{Option, none, some}
use mathlib.Core.List.{List, [], ◌∷◌}

infixl 5 ◌>>=◌
abbrev pub ◌>>=◌ {ℓ κ} : {A : Type ℓ} {B : Type κ} → Option A → (A → Option B) → Option B
none >>= f = none
some a >>= f = f a

-- Each element's result: all of them, or none.
abbrev pub map_all : {A B : Type 0} → (A → Option B) → List A → Option (List B)
map_all g [] = some []
map_all g (x ∷ xs) = do y ← g x; ys ← map_all g xs; some (y ∷ ys)

-- The elements that are there.
abbrev pub present : {A : Type 0} → List (Option A) → List A
present [] = []
present (none ∷ xs) = present xs
present (some x ∷ xs) = x ∷ present xs
