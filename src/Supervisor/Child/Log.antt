-- ===== src/Supervisor/Child/Log.antt =====
-- A child's captured output (src/supervisor/child.rs).
use cfab.Prelude.{
  ℕ, zero, suc, ◌+◌, ◌-◌, ◌≤◌, ◌≡◌, refl, sym, ap, ◌∙◌, List, [], ◌∷◌, ◌++◌, map, arith, length,
  length-append, drop, ◌==◌, if-cases, All,
}
use cfab.Supervisor.Child.Cut.{IsText, IsLongest, cut-IsLongest}
use cfab.Supervisor.Child.{Text, log_lines, log_line_max, Child, cut, pop_front, push_log}

-- The lines that a child's streams hand over, in order.
pub push_all : List Text → Child → Child
push_all [] c = c
push_all (l ∷ ls) c = push_all ls (push_log l c)

-- The specification of the ring: the newest `n` of all lines.
abbrev pub newest : ℕ → List Text → List Text
newest n ls = drop (length ls - n) ls

drop-at : (i j : ℕ) (xs : List Text) → i ≡ j → drop i xs ≡ drop j xs
drop-at i j xs h = ap (λ k. drop k xs) h

newest-short : (n : ℕ) (ls : List Text) → length ls ≤ n → newest n ls ≡ ls
newest-short n ls h = drop-at (length ls - n) 0 ls (omega arith)

drop-length-append :
    (k : ℕ) (xs ys : List Text) → k ≤ length xs → drop k (xs ++ ys) ≡ drop k xs ++ ys
drop-length-append zero xs ys h = refl
drop-length-append (suc k) [] ys h = absurd (omega arith)
drop-length-append (suc k) (x ∷ xs) ys h = drop-length-append k xs ys (omega arith)

length-drop : (k : ℕ) (xs : List Text) → length (drop k xs) ≡ length xs - k
length-drop zero xs = omega arith
length-drop (suc k) [] = omega arith
length-drop (suc k) (x ∷ xs) = omega (arith, length-drop k xs)

pop_front-drop : (xs : List Text) → pop_front xs ≡ drop 1 xs
pop_front-drop [] = refl
pop_front-drop (x ∷ xs) = refl

drop-drop_one : (j : ℕ) (xs : List Text) → drop 1 (drop j xs) ≡ drop (suc j) xs
drop-drop_one zero xs = refl
drop-drop_one (suc j) [] = refl
drop-drop_one (suc j) (x ∷ xs) = drop-drop_one j xs

-- One push on a ring that holds the newest lines.
push_log-newest :
    (line : Text) (c : Child) (all : List Text)
    → c.log ≡ newest 200 all
    → (push_log line c).log ≡ newest 200 (all ++ (cut log_line_max line ∷ []))
unfolding push_log
push_log-newest line c all h =
    let x = cut log_line_max line in
    let k = length all - 200 in
    let size : length c.log ≡ length all - k = ap length h ∙ length-drop k all in
    let grown : length (all ++ (x ∷ [])) ≡ length all + 1 = length-append all (x ∷ []) in
    if-cases (λ (ls : List Text). ls ++ (x ∷ []) ≡ newest 200 (all ++ (x ∷ [])))
      (length c.log == log_lines) _ _
      (λ full.
        let fits : suc k ≤ length all = ground (arith, full, size) in
        ap (λ (ls : List Text). ls ++ (x ∷ []))
          (pop_front-drop c.log ∙ ap (λ (ls : List Text). drop 1 ls) h ∙ drop-drop_one k all)
        ∙ sym (drop-length-append (suc k) all (x ∷ []) fits)
        ∙ drop-at (suc k) (length (all ++ (x ∷ [])) - 200) (all ++ (x ∷ []))
            (ground (arith, full, size, grown)))
      (λ room.
        let few : length all + 1 ≤ 200 = ground (arith, room, size) in
        ap (λ (ls : List Text). ls ++ (x ∷ [])) (h ∙ newest-short 200 all (omega (arith, few)))
        ∙ sym (newest-short 200 (all ++ (x ∷ [])) (omega (arith, few, grown))))

append_assoc : (xs ys zs : List Text) → (xs ++ ys) ++ zs ≡ xs ++ (ys ++ zs)
append_assoc [] ys zs = refl
append_assoc (x ∷ xs) ys zs = ap (λ (t : List Text). x ∷ t) (append_assoc xs ys zs)

push_all-newest :
    (ls : List Text) (c : Child) (all : List Text)
    → c.log ≡ newest 200 all
    → (push_all ls c).log ≡ newest 200 (all ++ map (cut log_line_max) ls)
unfolding push_all
push_all-newest [] c all h = h ∙ ap (newest 200) (sym (append-nil all))
  where
    append-nil : (xs : List Text) → xs ++ [] ≡ xs
    append-nil [] = refl
    append-nil (x ∷ xs) = ap (λ (t : List Text). x ∷ t) (append-nil xs)
push_all-newest (l ∷ ls) c all h =
    let x = cut log_line_max l in
    push_all-newest ls (push_log l c) (all ++ (x ∷ [])) (push_log-newest l c all h)
    ∙ ap (newest 200) (append_assoc all (x ∷ []) (map (cut log_line_max) ls))

-- The texts are the lines, each cut to its longest beginning in so many bytes.
abbrev pub AllLongest : ℕ → List Text → List Text → Type 0
AllLongest most [] [] = Unit
AllLongest most [] (k ∷ ks) = ⊥
AllLongest most (l ∷ ls) [] = ⊥
AllLongest most (l ∷ ls) (k ∷ ks) = IsLongest most l k × AllLongest most ls ks

cuts-AllLongest : (ls : List Text) → All IsText ls → AllLongest 2048 ls (map (cut log_line_max) ls)
cuts-AllLongest [] a = tt
cuts-AllLongest (l ∷ ls) a = (cut-IsLongest 2048 l a.0, cuts-AllLongest ls a.1)

-- The ring keeps the newest 200 of all lines that came in, in order, each cut to its longest beginning
-- of whole characters in 2048 bytes. The child's log is empty at first, and a character takes a byte
-- at least.
pub ring_is_newest :
    (ls : List Text) (c : Child)
    → c.log ≡ []
    → All IsText ls
    → (kept : List Text) × ((push_all ls c).log ≡ newest 200 kept) × AllLongest 2048 ls kept
ring_is_newest ls c h text =
    (map (cut log_line_max) ls, push_all-newest ls c [] h, cuts-AllLongest ls text)
