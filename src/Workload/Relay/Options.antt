-- ===== src/Workload/Relay/Options.antt =====
-- The scan of the option area (src/workload/relay.rs).
use cfab.Prelude.{
  ℕ, zero, suc, ◌≤◌, ◌≡◌, ◌≢◌, refl, subst, ◌∙◌, ◌&&◌, List, [], ◌∷◌, ◌++◌, Option, none, some,
  arith, All, length, length-append, drop, take, ◌==◌, if◌then◌else◌,
}
use cfab.Prelude.Bytes.{Bytes}
use cfab.Workload.Relay.{scan, option}

length-drop-le : (n : ℕ) (b : Bytes) → length (drop n b) ≤ length b
length-drop-le zero b = omega arith
length-drop-le (suc n) [] = omega arith
length-drop-le (suc n) (x ∷ b) = omega (arith, length-drop-le n b)

-- A round per byte is enough: more rounds find the same.
pub scan-enough :
    (n m code len : ℕ) (opts : Bytes)
    → length opts ≤ n
    → length opts ≤ m
    → scan n code len opts ≡ scan m code len opts
unfolding scan
scan-enough zero zero code len [] h k = refl
scan-enough zero (suc m) code len [] h k = refl
scan-enough zero m code len (c ∷ opts) h k = absurd (omega arith)
scan-enough (suc n) zero code len [] h k = refl
scan-enough (suc n) zero code len (c ∷ opts) h k = absurd (omega arith)
scan-enough (suc n) (suc m) code len [] h k = refl
scan-enough (suc n) (suc m) code len (c ∷ []) h k = refl
scan-enough (suc n) (suc m) code len (c ∷ l ∷ rest) h k =
    rw (scan-enough n m code len (l ∷ rest) (omega arith) (omega arith)) (
      rw
        (scan-enough n m code len (drop l rest) (omega (arith, length-drop-le l rest))
          (omega (arith, length-drop-le l rest)))
        refl)

-- An option area as it is written: padding, and options with their values.
pub data Field : Type 0 where
  pad : Field
  opt : (code : ℕ) → (value : Bytes) → Field

abbrev pub IsField : Field → Type 0
IsField pad = Unit
IsField (opt code value) = (code ≢ 0) × (code ≢ 255)

abbrev pub encode : List Field → Bytes → Bytes
encode [] rest = rest
encode (pad ∷ fs) rest = 0 ∷ encode fs rest
encode (opt code value ∷ fs) rest = code ∷ length value ∷ (value ++ encode fs rest)

-- The specification: the value of the first option of that code and that length.
abbrev pub lookup : ℕ → ℕ → List Field → Option Bytes
lookup code len [] = none
lookup code len (pad ∷ fs) = lookup code len fs
lookup code len (opt c value ∷ fs) =
    if c == code && length value == len then some value else lookup code len fs

take-append : (xs ys : Bytes) → take (length xs) (xs ++ ys) ≡ xs
take-append [] ys = refl
take-append (x ∷ xs) ys = rw (take-append xs ys)

drop-append_all : (xs ys : Bytes) → drop (length xs) (xs ++ ys) ≡ ys
drop-append_all [] ys = refl
drop-append_all (x ∷ xs) ys = drop-append_all xs ys

-- What follows the end marker is not read.
scan-end : (n code len : ℕ) (rest : Bytes) → scan n code len (255 ∷ rest) ≡ none
unfolding scan
scan-end zero code len rest = refl
scan-end (suc n) code len [] = refl
scan-end (suc n) code len (l ∷ rest) = refl

scan-pad : (n code len : ℕ) (rest : Bytes) → scan (suc n) code len (0 ∷ rest) ≡ scan n code len rest
unfolding scan
scan-pad zero code len [] = refl
scan-pad (suc n) code len [] = refl
scan-pad n code len (l ∷ rest) = refl

scan-opt :
    (n code len c : ℕ) (value rest : Bytes)
    → c ≢ 0
    → c ≢ 255
    → scan (suc n) code len (c ∷ length value ∷ (value ++ rest))
      ≡ (if c == code && length value == len then some value else scan n code len rest)
unfolding scan
scan-opt n code len c value rest h k =
    rw (take-append value rest, drop-append_all value rest)
      (ground (arith, length-append value rest))

scan-encode :
    (fs : List Field) (n code len : ℕ) (rest : Bytes)
    → All IsField fs
    → length (encode fs (255 ∷ rest)) ≤ n
    → scan n code len (encode fs (255 ∷ rest)) ≡ lookup code len fs
scan-encode [] n code len rest a h = scan-end n code len rest
scan-encode (pad ∷ fs) zero code len rest a h = absurd (omega arith)
scan-encode (opt c value ∷ fs) zero code len rest a h = absurd (omega arith)
scan-encode (pad ∷ fs) (suc n) code len rest a h =
    scan-pad n code len (encode fs (255 ∷ rest)) ∙ scan-encode fs n code len rest a.1 (omega arith)
scan-encode (opt c value ∷ fs) (suc n) code len rest a h =
    rw (scan-opt n code len c value (encode fs (255 ∷ rest)) a.0.0 a.0.1) (
      rw
        (scan-encode fs n code len rest a.1
          (omega (arith, length-append value (encode fs (255 ∷ rest)))))
        refl)

-- On every option area that is written as padding and options up to the end marker, the scan finds
-- the value of the first option that has the code and the length, or nothing if there is none,
-- whatever stands behind the marker; an option of that code and another length is walked past.
pub option-encode :
    (header : Bytes) (fs : List Field) (code len : ℕ) (rest : Bytes)
    → length header ≡ 240
    → All IsField fs
    → option code len (header ++ encode fs (255 ∷ rest)) ≡ lookup code len fs
unfolding option
option-encode header fs code len rest h a =
    let area = encode fs (255 ∷ rest) in
    let rest_is : drop 240 (header ++ area) ≡ area =
      subst (λ n. drop n (header ++ area) ≡ area) h (drop-append_all header area) in
    rw rest_is (scan-encode fs (length area) code len rest a (omega arith))
