-- ===== src/Prober/Passive/Standing.antt =====
-- What the verdicts of one leg say of its ports (src/prober/passive.rs).
use cfab.Prelude.{
  ℕ, ◌+◌, ◌*◌, ◌<◌, ◌≤◌, ◌≡◌, ◌↔◌, refl, ap, ◌∙◌, ◌⊎◌, Bool, true, false, not, ◌&&◌, ◌||◌, Option,
  none, some, leb, Option-cases, List, [], ◌∷◌, map, arith, All, In, any, if◌then◌else◌,
}
use cfab.Prelude.Search.{any-map, In-map, any-In}
use cfab.Prelude.Time.{from_secs}
use cfab.Prober.Passive.{
  Windows, from_ospf, move_fits_inside_dead, Evidence, last, Verdict, good, watch, suspect, quiet,
  in_grace, is_good, judge, judge_all, verdicts,
}

-- The verdict on a port by the code's own test of it, given whether any port of its leg is good.
abbrev by_good : ℕ → Windows → Bool → Bool → Evidence → Verdict
by_good now w expect any_good e =
    if is_good now w e
    then good
    else if in_grace now e.grace_until
    then watch
    else if expect
    then (if any_good then suspect else quiet)
    else watch

-- The third test of the code never decides: a port that is not good has been silent beyond its
-- window.
judge-by_good :
    (now : ℕ) (w : Windows) (expect any_good : Bool) (e : Evidence)
    → judge now w expect any_good e (is_good now w e) ≡ by_good now w expect any_good e
unfolding judge is_good
judge-by_good now w expect any_good e = ground arith

judge_all-by_good :
    (now : ℕ) (w : Windows) (expect any_good : Bool) (es : List Evidence)
    → judge_all now w expect any_good es (map (is_good now w) es)
      ≡ map (by_good now w expect any_good) es
unfolding judge_all
judge_all-by_good now w expect any_good [] = refl
judge_all-by_good now w expect any_good (e ∷ es) =
    cc (judge-by_good now w expect any_good e, judge_all-by_good now w expect any_good es)

verdicts-by_good :
    (now : ℕ) (ports : List Evidence) (w : Windows) (expect : Bool)
    → verdicts now ports w expect ≡ map (by_good now w expect (any (is_good now w) ports)) ports
unfolding verdicts
verdicts-by_good now ports w expect =
    rw (any-map (is_good now w) ports)
      (judge_all-by_good now w expect (any (is_good now w) ports) ports)

-- A hello came at that instant, which is not in the future and is at most `limit` ago.
abbrev pub heard_within : ℕ → ℕ → Option ℕ → Bool
heard_within now limit none = false
heard_within now limit (some t) = leb t now && leb now (t + limit)

-- The active port lives by a peer's hello within the active window. A backup lives by a peer's hello,
-- or by our own one reflected to it, within the backup window.
abbrev pub is_alive : ℕ → Windows → Evidence → Bool
is_alive now w e =
    if e.active
    then heard_within now w.active e.peer
    else heard_within now w.backup e.peer || heard_within now w.backup e.reflected

-- An instant that has not come yet.
abbrev pub to_come : ℕ → Option ℕ → Bool
to_come now none = false
to_come now (some t) = leb (now + 1) t

-- What the verdict on a port means, given whether any port of its leg lives: the specification. A port
-- that lives is good. Another is only watched in its grace period or on a member that expects no
-- peers; else it is suspect beside a port that lives, and quiet beside none.
abbrev pub standing : ℕ → Windows → Bool → Bool → Evidence → Verdict
standing now w expect any_alive e =
    if is_alive now w e
    then good
    else if to_come now e.grace_until || not expect
    then watch
    else if any_alive
    then suspect
    else quiet

is_good-is_alive :
    (now : ℕ) (w : Windows) (active : Bool) (peer reflected grace : Option ℕ)
    → let e : Evidence = record {
      active = active;
      peer = peer;
      reflected = reflected;
      grace_until = grace;
    } in
      is_good now w e ≡ is_alive now w e
unfolding is_good last
is_good-is_alive now w true none r g = refl
is_good-is_alive now w true (some t) r g = ground arith
is_good-is_alive now w false none none g = refl
is_good-is_alive now w false none (some s) g = ground arith
is_good-is_alive now w false (some t) none g = ground arith
is_good-is_alive now w false (some t) (some s) g = ground arith

by_good-standing :
    (now : ℕ) (w : Windows) (expect b : Bool) (e : Evidence)
    → by_good now w expect b e ≡ standing now w expect b e
by_good-standing now w expect b e = ground (
  arith,
  is_good-is_alive now w e.active e.peer e.reflected e.grace_until,
  Option-cases e.grace_until,
)

-- The two passes give each port, in order, the verdict of the specification, with the leg's own ports
-- as the ones that may live.
pub verdicts-standing :
    (now : ℕ) (ports : List Evidence) (w : Windows) (expect : Bool)
    → verdicts now ports w expect ≡ map (standing now w expect (any (is_alive now w) ports)) ports
verdicts-standing now ports w expect =
    verdicts-by_good now ports w expect
    ∙ ap (λ b. map (by_good now w expect b) ports)
        (same_any ports λ e. is_good-is_alive now w e.active e.peer e.reflected e.grace_until)
    ∙ same_map ports (by_good-standing now w expect _)
  where
    same_any :
        {p q : Evidence → Bool} (es : List Evidence)
        → ((e : Evidence) → p e ≡ q e)
        → any p es ≡ any q es
    same_any [] h = refl
    same_any (e ∷ es) h = cc (h e, same_any es h)

    same_map :
        {f g : Evidence → Verdict} (es : List Evidence)
        → ((e : Evidence) → f e ≡ g e)
        → map f es ≡ map g es
    same_map [] h = refl
    same_map (e ∷ es) h = cc (h e, same_map es h)

-- A wire is suspected only beside a port of its leg that is good, and then no port of the leg is
-- called quiet.
pub suspect_has_company :
    (now : ℕ) (ports : List Evidence) (w : Windows) (expect : Bool)
    → In suspect (verdicts now ports w expect)
    → ((e : Evidence) × In e ports × (is_good now w e ≡ true))
      × ¬ In quiet (verdicts now ports w expect)
suspect_has_company now ports w expect i =
    let verdict_of = by_good now w expect (any (is_good now w) ports) in
    let same = verdicts-by_good now ports w expect in
    let (e, _, s) = In-map verdict_of ports (rw same at i) in
    let lively : any (is_good now w) ports ≡ true = ground arith in
    (any-In _ _ lively, λ q. let (d, _, t) = In-map verdict_of ports (rw same at q) in ground arith)

-- A port is called quiet only when no port of its leg is good.
pub quiet_is_total :
    (now : ℕ) (ports : List Evidence) (w : Windows) (expect : Bool)
    → In quiet (verdicts now ports w expect)
    → any (is_good now w) ports ≡ false
quiet_is_total now ports w expect i =
    let verdict_of = by_good now w expect (any (is_good now w) ports) in
    let (e, _, s) = In-map verdict_of ports (rw (verdicts-by_good now ports w expect) at i) in
    ground arith

All-map :
    {A B : Type 0} (P : B → Type 0) (f : A → B) (xs : List A)
    → ((a : A) → P (f a))
    → All P (map f xs)
All-map P f [] h = tt
All-map P f (x ∷ xs) h = (h x, All-map P f xs h)

abbrev Blameless : Verdict → Type 0
Blameless v = (v ≡ good) ⊎ (v ≡ watch)

-- A member that expects no peers blames no wire: every verdict of its legs is good or watch.
pub alone_blames_none :
    (now : ℕ) (ports : List Evidence) (w : Windows)
    → All (λ v. (v ≡ good) ⊎ (v ≡ watch)) (verdicts now ports w false)
alone_blames_none now ports w =
    rw (verdicts-by_good now ports w false) (All-map Blameless _ ports λ e. ground arith)

last_of_active :
    (e : Evidence) (echo : Option ℕ) (now : ℕ)
    → e.active ≡ true
    → last (record e { reflected = echo }) now ≡ last e now
unfolding last
last_of_active e echo now a = ground arith

-- The port with another reflection, if it is the active one.
abbrev pub with_echo : (Evidence → Option ℕ) → Evidence → Evidence
with_echo f e = if e.active then record e { reflected = f e } else e

last-with_echo :
    (f : Evidence → Option ℕ) (e : Evidence) (now : ℕ) → last (with_echo f e) now ≡ last e now
last-with_echo f e now = ground (arith, last_of_active e (f e) now)

is_good-with_echo :
    (now : ℕ) (w : Windows) (f : Evidence → Option ℕ) (e : Evidence)
    → is_good now w (with_echo f e) ≡ is_good now w e
unfolding is_good
is_good-with_echo now w f e = ground (arith, last_of_active e (f e) now)

by_good-with_echo :
    (now : ℕ) (w : Windows) (expect any_good : Bool) (f : Evidence → Option ℕ) (e : Evidence)
    → by_good now w expect any_good (with_echo f e) ≡ by_good now w expect any_good e
by_good-with_echo now w expect any_good f e = ground (arith, is_good-with_echo now w f e)

map-map_same :
    {A B : Type 0} (g : A → B) (m : A → A) (xs : List A)
    → ((a : A) → g (m a) ≡ g a)
    → map g (map m xs) ≡ map g xs
map-map_same g m [] h = refl
map-map_same g m (x ∷ xs) h = cc (h x, map-map_same g m xs h)

any-map_same :
    {A : Type 0} (p : A → Bool) (m : A → A) (xs : List A)
    → ((a : A) → p (m a) ≡ p a)
    → any p (map m xs) ≡ any p xs
any-map_same p m [] h = refl
any-map_same p m (x ∷ xs) h = rw (h x, any-map_same p m xs h)

-- A port's own reflected hello counts only while it is a backup: whatever an active port's
-- reflection is said to be, all verdicts of the leg stay the same.
pub active_echo_is_ignored :
    (now : ℕ) (ports : List Evidence) (w : Windows) (expect : Bool) (f : Evidence → Option ℕ)
    → verdicts now (map (with_echo f) ports) w expect ≡ verdicts now ports w expect
active_echo_is_ignored now ports w expect f =
    rw
      (verdicts-by_good now (map (with_echo f) ports) w expect, verdicts-by_good now ports w expect)
      (rw (any-map_same (is_good now w) (with_echo f) ports (is_good-with_echo now w f))
        (map-map_same _ (with_echo f) ports (by_good-with_echo now w expect _ f)))

-- The windows leave room for a move exactly when one and a half hellos and a tick fit into the
-- declared dead interval.
pub move_fits_iff :
    (hello_s dead_s tick : ℕ)
    → (move_fits_inside_dead (from_ospf hello_s dead_s) tick dead_s ≡ true)
      ↔ (3 * from_secs hello_s + 2 * tick ≤ 2 * from_secs dead_s)
unfolding move_fits_inside_dead from_ospf
move_fits_iff hello_s dead_s tick = (λ h. ground arith, λ h. ground arith)

-- The active port, silent since `t` beside a good port, is suspect at the first tick past its
-- window, and that tick still falls inside the dead interval that began with the last hello.
pub suspected_inside_dead :
    (hello_s dead_s tick t now : ℕ) (e : Evidence)
    → let w = from_ospf hello_s dead_s in
      move_fits_inside_dead w tick dead_s ≡ true
      → e.active ≡ true
      → e.peer ≡ some t
      → in_grace now e.grace_until ≡ false
      → t + w.active < now
      → now ≤ t + w.active + tick
      → (judge now w true true e (is_good now w e) ≡ suspect) × (now ≤ t + w.dead)
unfolding move_fits_inside_dead from_ospf is_good judge last
suspected_inside_dead hello_s dead_s tick t now e fits a p g past soon =
    (ground arith, ground arith)
