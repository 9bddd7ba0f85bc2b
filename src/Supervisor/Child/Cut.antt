-- ===== src/Supervisor/Child/Cut.antt =====
-- Where a captured line is cut (src/supervisor/child.rs).
use cfab.Prelude.{
  ℕ, zero, suc, ◌+◌, ◌-◌, ◌<◌, ◌≤◌, ◌≡◌, refl, sym, ap, subst, ◌∙◌, inl, inr, true, [], ◌∷◌, ◌++◌,
  All, arith, leb, ◌==◌, min, Bool-cases,
}
use cfab.Supervisor.Child.{Glyph, Text, width_of, is_char_boundary, boundary_from, slice_to, cut}

-- The characters of a text take a byte at least, as those of UTF-8 do.
abbrev pub IsText : Text → Type 0
IsText line = All (λ (g : Glyph). 0 < g.width) line

-- A beginning of whole characters, within so many bytes, and no longer one is.
pub record IsLongest (most : ℕ) (line kept : Text) : Type 0 where
  pub rest : Text
  pub begins : kept ++ rest ≡ line
  pub fits : width_of kept ≤ most
  pub longest : (g : Glyph) (t : Text) → rest ≡ g ∷ t → most < width_of kept + g.width

zero_is_boundary : (line : Text) → is_char_boundary line 0 ≡ true
unfolding is_char_boundary
zero_is_boundary [] = refl
zero_is_boundary (g ∷ t) = refl

-- The loop finds a boundary, and the last one.
boundary_from-last :
    (line : Text) (n : ℕ)
    → (is_char_boundary line (boundary_from line n) ≡ true)
      × (boundary_from line n ≤ n)
      × ((j : ℕ) → j ≤ n → is_char_boundary line j ≡ true → j ≤ boundary_from line n)
unfolding boundary_from
boundary_from-last line zero = (zero_is_boundary line, omega arith, λ j le b. le)
boundary_from-last line (suc n) =
    let (is, le, last) = boundary_from-last line n in
    elim (Bool-cases (is_char_boundary line (suc n))) [
      | inl e ↦ rw (e, boundary_from) (e, omega arith, λ j le b. le)
      | inr e ↦
          rw (e, boundary_from)
            (
              is,
              omega (arith, le),
              λ j below b. elim (Bool-cases (j == suc n)) [
                | inl same ↦
                    let at : j ≡ suc n = ground (arith, same) in
                    absurd (ground (arith, e, subst (λ i. is_char_boundary line i ≡ true) at b))
                | inr other ↦ last j (ground (arith, other, below)) b
              ],
            )
    ]

-- Up to a boundary, the slice is as long as that.
slice_to-boundary :
    (line : Text) (b : ℕ)
    → is_char_boundary line b ≡ true
    → (rest : Text) × (slice_to b line ++ rest ≡ line) × (width_of (slice_to b line) ≡ b)
unfolding slice_to is_char_boundary
slice_to-boundary [] b h = ([], refl, ground (arith, h))
slice_to-boundary (g ∷ t) b h = elim (Bool-cases (b == 0)) [
  | inl e ↦ rw (e, slice_to) (g ∷ t, refl, ground (arith, e))
  | inr e ↦
      let (rest, whole, wide) = slice_to-boundary t (b - g.width) (ground (arith, h, e)) in
      rw (e, slice_to) (rest, ap (λ (x : Text). g ∷ x) whole, ground (arith, h, e, wide))
]

next_is_boundary :
    (kept : Text) (g : Glyph) (t : Text)
    → is_char_boundary (kept ++ (g ∷ t)) (width_of kept + g.width) ≡ true
unfolding is_char_boundary
next_is_boundary [] g t =
    let same : g.width - g.width ≡ 0 = omega arith in
    let on : is_char_boundary t (g.width - g.width) ≡ true = rw same (zero_is_boundary t) in
    ground (arith, on)
next_is_boundary (h ∷ kept) g t =
    let same : h.width + width_of kept + g.width - h.width ≡ width_of kept + g.width =
      omega arith in
    let on : is_char_boundary (kept ++ (g ∷ t)) (h.width + width_of kept + g.width - h.width)
        ≡ true =
      rw same (next_is_boundary kept g t) in
    ground (arith, on)

width_of-append : (xs ys : Text) → width_of (xs ++ ys) ≡ width_of xs + width_of ys
width_of-append [] ys = omega arith
width_of-append (x ∷ xs) ys = omega (arith, width_of-append xs ys)

All-last :
    (kept : Text) (g : Glyph) (t : Text)
    → All (λ (g : Glyph). 0 < g.width) (kept ++ (g ∷ t))
    → 0 < g.width
All-last [] g t a = a.0
All-last (h ∷ kept) g t a = All-last kept g t a.1

next_exceeds :
    (most : ℕ) (line kept : Text) (g : Glyph) (t : Text)
    → kept ++ (g ∷ t) ≡ line
    → IsText line
    → ((j : ℕ) → j ≤ min (width_of line) most → is_char_boundary line j ≡ true → j ≤ width_of kept)
    → most < width_of kept + g.width
next_exceeds most line kept g t split text last =
    let next =
      subst (λ (x : Text). is_char_boundary x (width_of kept + g.width) ≡ true) split
        (next_is_boundary kept g t) in
    let long : width_of line ≡ width_of kept + (g.width + width_of t) =
      ap width_of (sym split) ∙ width_of-append kept (g ∷ t) in
    let some_width : 0 < g.width = All-last kept g t (subst IsText (sym split) text) in
    elim (Bool-cases (leb (width_of kept + g.width) most)) [
      | inl small ↦
          let below : width_of kept + g.width ≤ min (width_of line) most =
            ground (arith, small, long) in
          absurd (omega (arith, last _ below next, some_width))
      | inr big ↦ ground (arith, big)
    ]

-- The cut keeps the longest beginning of whole characters that fits.
pub cut-IsLongest : (most : ℕ) (line : Text) → IsText line → IsLongest most line (cut most line)
unfolding cut
cut-IsLongest most line text =
    let (is, le, last) = boundary_from-last line (min (width_of line) most) in
    let (rest, whole, wide) = slice_to-boundary line _ is in
    let kept = slice_to (boundary_from line (min (width_of line) most)) line in
    record {
      rest = rest;
      begins = whole;
      fits = ground (arith, le, wide);
      longest = λ g t e.
          next_exceeds most line kept g t (subst (λ (x : Text). kept ++ x ≡ line) e whole) text
            λ j below b. subst (λ n. j ≤ n) (sym wide) (last j below b);
    }
