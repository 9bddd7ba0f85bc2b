-- ===== src/Prelude/Text.antt =====
-- What the declaration's parsers use of Rust's `str` and integers: `split_once`, `rsplit_once`,
-- `split` at a character, and `u8::from_str`.
use Prim.Native.Nat.{ℕ, ◌+◌, ◌-◌, ◌*◌}
use Prim.Native.Char.{Char, code}
use Prim.Native.String.{String}
use mathlib.Core.Path.{◌≡◌, refl, sym, subst}
use mathlib.Core.Bool.{Bool, true, ◌&&◌}
use mathlib.Core.Logic.{inl, inr}
use mathlib.Core.Option.{Option, none, some}
use mathlib.Core.List.{List, [], ◌∷◌}
use native.Mathlib.Omega.{arith}
use cfab.Prelude.Lists.{In}
use cfab.Prelude.Tests.{leb, ◌==◌, if◌then◌else◌, if-both, Option-cases}

abbrev onto_first : Char → Option (String × String) → Option (String × String)
onto_first c none = none
onto_first c (some (p, o)) = some (String.◌∷◌ c p, o)

-- What is before and behind the first `sep`.
unfoldable pub split_once : ℕ → String → Option (String × String)
split_once sep String.[] = none
split_once sep (String.◌∷◌ c s) =
    let later = onto_first c (split_once sep s) in
    if code c == sep then some (String.[], s) else later

abbrev or_here : ℕ → Char → String → Option (String × String) → Option (String × String)
or_here sep c s none = if code c == sep then some (String.[], s) else none
or_here sep c s (some (p, o)) = some (String.◌∷◌ c p, o)

-- What is before and behind the last `sep`.
unfoldable pub rsplit_once : ℕ → String → Option (String × String)
rsplit_once sep String.[] = none
rsplit_once sep (String.◌∷◌ c s) = or_here sep c s (rsplit_once sep s)

abbrev longer_head : Char → List String → List String
longer_head c [] = []
longer_head c (x ∷ xs) = String.◌∷◌ c x ∷ xs

-- The parts between the `sep`s: one more than there are of those.
unfoldable pub split : ℕ → String → List String
split sep String.[] = String.[] ∷ []
split sep (String.◌∷◌ c s) =
    let rest = split sep s in if code c == sep then String.[] ∷ rest else longer_head c rest

abbrev pub tail : List String → List String
tail [] = []
tail (x ∷ xs) = xs

abbrev is_digit : ℕ → Bool
is_digit c = leb 48 c && leb c 57

-- The digits behind the number that was read so far; none on another character or above a byte.
digits : ℕ → String → Option ℕ
digits v String.[] = some v
digits v (String.◌∷◌ c s) =
    let rest = digits (v * 10 + (code c - 48)) s in
    if is_digit (code c) && leb (v * 10 + (code c - 48)) 255 then rest else none

abbrev some_digits : String → Option ℕ
some_digits String.[] = none
some_digits (String.◌∷◌ c s) = digits 0 (String.◌∷◌ c s)

-- `u8::from_str`: a `+` may stand before the digits, and zeros may.
unfoldable pub parse_u8 : String → Option ℕ
unfolding digits
parse_u8 String.[] = none
parse_u8 (String.◌∷◌ c s) = if code c == 43 then some_digits s else digits 0 (String.◌∷◌ c s)

pub rsplit_once-none : (sep : ℕ) (s : String) → rsplit_once sep s ≡ none → split sep s ≡ s ∷ []
unfolding rsplit_once split
rsplit_once-none sep String.[] h = refl
rsplit_once-none sep (String.◌∷◌ c s) h = elim (Option-cases (rsplit_once sep s)) [
  | inl e ↦ ground (arith, h, e, rsplit_once-none sep s e)
  | inr (x, e) ↦ ground (arith, h, e)
]

In-tail : (o : String) (xs : List String) → In o (tail xs) → In o xs
In-tail o [] i = i
In-tail o (x ∷ xs) i = inr i

tail-longer_head : (c : Char) (xs : List String) → tail (longer_head c xs) ≡ tail xs
tail-longer_head c [] = refl
tail-longer_head c (x ∷ xs) = refl

tail-split :
    (sep : ℕ) (c : Char) (s o : String)
    → In o (tail (split sep s))
    → In o (tail (split sep (String.◌∷◌ c s)))
unfolding split
tail-split sep c s o i =
    if-both (λ xs. In o (tail xs)) (code c == sep) _ _ (In-tail o (split sep s) i)
      (subst (λ xs. In o xs) (sym (tail-longer_head c (split sep s))) i)

-- What is behind the last `sep` is one of the parts, and not the first.
pub rsplit_once-In :
    (sep : ℕ) (s p o : String) → rsplit_once sep s ≡ some (p, o) → In o (tail (split sep s))
unfolding rsplit_once split
rsplit_once-In sep String.[] p o h = absurd (ground (arith, h))
rsplit_once-In sep (String.◌∷◌ c s) p o h = elim (Option-cases (rsplit_once sep s)) [
  | inl e ↦
      let at : (code c == sep) ≡ true = ground (arith, h, e) in
      let same : s ≡ o = ground (arith, h, e, at) in
      rw at (rw (rsplit_once-none sep s e) (inl same))
  | inr ((q, r), e) ↦
      let same : r ≡ o = ground (arith, h, e) in
      subst (λ x. In x (tail (split sep (String.◌∷◌ c s)))) same
        (tail-split sep c s r (rsplit_once-In sep s q r e))
]
