-- ===== src/Prelude/Gives.antt =====
-- What results that may be missing are, if they are there.
use mathlib.Core.Option
use mathlib.Core.Path.{◌≡◌, refl, subst}
use mathlib.Core.Option.{Option, none, some}
use mathlib.Core.List.{List, [], ◌∷◌}
use native.Mathlib.Omega.{arith}
use cfab.Prelude.Lists.{All}
use cfab.Prelude.Options.{◌>>=◌, map_all, present}

-- What a result is, if there is one.
abbrev pub Gives : {A : Type 0} → (A → Type 0) → Option A → Type 0
Gives P o = (a : _) → o ≡ some a → P a

pub some-Gives : {A : Type 0} (P : A → Type 0) (a : A) → P a → Gives P (some a)
some-Gives P a p b e = let same : a ≡ b = ground (arith, e) in subst P same p

pub >>=-Gives :
    {A B : Type 0} (P : A → Type 0) (Q : B → Type 0) (o : Option A) (g : A → Option B)
    → Gives P o
    → ((a : A) → P a → Gives Q (g a))
    → Gives Q (o >>= g)
>>=-Gives P Q none g p h b e = absurd (ground (arith, e))
>>=-Gives P Q (some a) g p h b e = h a (p a refl) b e

pub map_all-Gives :
    {A B : Type 0} (P : B → Type 0) (g : A → Option B) (xs : List A)
    → All (λ x. Gives P (g x)) xs
    → Gives (All P) (map_all g xs)
map_all-Gives P g [] h = some-Gives (All P) [] tt
map_all-Gives P g (x ∷ xs) h = >>=-Gives P (All P) (g x) _ h.0 λ y p.
    >>=-Gives (All P) (All P) (map_all g xs) _ (map_all-Gives P g xs h.1)
      λ ys ps. some-Gives (All P) (y ∷ ys) (p, ps)

pub map-Gives :
    {A B : Type 0} (P : A → Type 0) (Q : B → Type 0) (h : A → B) (o : Option A)
    → Gives P o
    → ((a : A) → P a → Q (h a))
    → Gives Q (Option.map h o)
map-Gives P Q h none p q b e = absurd (ground (arith, e))
map-Gives P Q h (some a) p q b e = some-Gives Q (h a) (q a (p a refl)) b e

module _ {A : Type 0} (P : A → Type 0) where
  pub everywhere : ((x : A) → P x) → (xs : List A) → All P xs
  everywhere h [] = tt
  everywhere h (x ∷ xs) = (h x, everywhere h xs)

  unfoldable pub Held : Option A → Type 0
  Held none = Unit
  Held (some a) = P a

  pub nothing-Held : Held none
  unfolding Held
  nothing-Held = tt

  pub All-present : (xs : List (Option A)) → All Held xs → All P (present xs)
  unfolding Held
  All-present [] a = tt
  All-present (none ∷ xs) a = All-present xs a.1
  All-present (some x ∷ xs) a = (a.0, All-present xs a.1)
