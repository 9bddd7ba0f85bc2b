-- ===== src/Prober/Decide/Choice.antt =====
-- What `decide` chooses, and when it leaves the bond alone (src/prober/decide.rs).
use Prim.Native.String.{String}
use text.Mathlib.TextEquality.{eq_iff}
use cfab.Prelude.{
  ℕ, suc, ◌<◌, ◌≤◌, ◌≡◌, ◌≢◌, refl, ◌⊎◌, inl, inr, Bool, true, false, not, ◌&&◌, Option, none, some,
  List, [], ◌∷◌, arith, All, All-mono, In, filter, ltb, Option-cases, sym, ◌∙◌,
}
use cfab.Prelude.Search.{
  find, FirstMin, least, min_by, by_key, enumerate_from, min_by-FirstMin, FirstMin-All, FirstMin-In,
  In-filter, In-All,
}
use mathlib.Core.Option
use cfab.Prober.Decide.{
  Candidate, usable, cost, before, named, port_of, skipped_for_carrier, best, decide,
}

-- Along the enumeration the index decides nothing: a later element replaces only by its rank.
least-before :
    (prefs : List String) (n i : ℕ) (b : Candidate) (cs : List Candidate)
    → i < n
    → (least
        (before prefs)
        (i, b)
        (filter (λ (p : ℕ × Candidate). usable p.1) (enumerate_from n cs))).1
      ≡ least (by_key (cost prefs)) b (filter usable cs)
least-before prefs n i b [] h = refl
least-before prefs n i b (c ∷ cs) h =
    ground (arith, least-before prefs (suc n) i b cs, least-before prefs (suc n) n c cs)

min_by-before :
    (prefs : List String) (n : ℕ) (cs : List Candidate)
    → Option.map
        (λ (p : ℕ × Candidate). p.1)
        (min_by (before prefs) (filter (λ (p : ℕ × Candidate). usable p.1) (enumerate_from n cs)))
      ≡ min_by (by_key (cost prefs)) (filter usable cs)
min_by-before prefs n [] = refl
min_by-before prefs n (c ∷ cs) =
    ground (arith, least-before prefs (suc n) n c cs, min_by-before prefs (suc n) cs)

best-FirstMin :
    (cands : List Candidate) (prefs : List String) {b : Candidate}
    → best cands prefs ≡ some b
    → FirstMin (cost prefs) b (filter usable cands)
unfolding best
best-FirstMin cands prefs {b} h =
    min_by-FirstMin (cost prefs) (filter usable cands) (sym (min_by-before prefs 0 cands) ∙ h)

min_by_nil : {A : Type 0} (lt : A → A → Bool) (xs : List A) → min_by lt xs ≡ none → xs ≡ []
min_by_nil lt [] h = refl
min_by_nil lt (x ∷ xs) h = absurd (ground arith)

best_nil :
    (cands : List Candidate) (prefs : List String)
    → best cands prefs ≡ none
    → filter usable cands ≡ []
unfolding best
best_nil cands prefs h = min_by_nil _ _ (sym (min_by-before prefs 0 cands) ∙ h)

-- A port that `decide` names is usable, and the first of the best-preferred usable ones; the
-- port that the bond is on is then not usable, or its wire is strictly less preferred.
pub decide_moves :
    (active : Option String) (cands : List Candidate) (prefs : List String) {name : String}
    → decide active cands prefs ≡ some name
    → (b : Candidate) × (b.ifname ≡ name)
      × FirstMin (cost prefs) b (filter usable cands)
      × ((c : Candidate)
          → port_of active cands ≡ some c
          → usable c ≡ true
          → cost prefs b < cost prefs c)
unfolding decide
decide_moves active cands prefs {name} h = elim (Option-cases (best cands prefs)) [
  | inl e ↦ absurd (ground (arith, e))
  | inr (b, e) ↦
      (b, (ground (arith, e)), best-FirstMin cands prefs e, λ c on live. (ground (arith, e)))
]

-- The bond is left alone only when no port is usable, or when it is on a usable port that no
-- usable port is preferred to.
pub decide_stays :
    (active : Option String) (cands : List Candidate) (prefs : List String)
    → decide active cands prefs ≡ none
    → (filter usable cands ≡ [])
      ⊎ ((c : Candidate) × (port_of active cands ≡ some c)
          × (usable c ≡ true)
          × All (λ d. cost prefs c ≤ cost prefs d) (filter usable cands))
unfolding decide
decide_stays active cands prefs h = elim (Option-cases (best cands prefs)) [
  | inl e ↦ inl (best_nil cands prefs e)
  | inr (b, e) ↦ inr (stay b e (port_of active cands) refl)
]
  where
    stay :
        (b : Candidate)
        → best cands prefs ≡ some b
        → (on : Option Candidate) → port_of active cands ≡ on
        → (c : Candidate) × (port_of active cands ≡ some c)
          × (usable c ≡ true)
          × All (λ d. cost prefs c ≤ cost prefs d) (filter usable cands)
    stay b e none p = absurd (ground arith)
    stay b e (some c) p =
        let kept : cost prefs c ≤ cost prefs b = ground arith in
        let least_of = FirstMin-All (cost prefs) b _ (best-FirstMin cands prefs e) in
        (c, p, ground arith, All-mono _ _ _ (λ d k. omega arith) least_of)

-- No two ports share a name.
abbrev pub Distinct : List Candidate → Type 0
Distinct [] = Unit
Distinct (c ∷ cs) = All (λ d. d.ifname ≢ c.ifname) cs × Distinct cs

find-named :
    (cands : List Candidate) (b : Candidate)
    → Distinct cands
    → In b cands
    → find (named b.ifname) cands ≡ some b
find-named [] b d i = absurd i
find-named (c ∷ cs) b d (inl e) = rw e (ground (arith, eq_iff b.ifname b.ifname))
find-named (c ∷ cs) b d (inr i) = ground (
  arith,
  eq_iff c.ifname b.ifname,
  In-All (λ x. x.ifname ≢ c.ifname) cs {x = b} d.0 i,
  find-named cs b d.1 i,
)

-- One move is enough: once the bond is on the named port, and nothing else has changed, it is
-- left there. The ports' names have to be distinct.
pub decide_settles :
    (active : Option String) (cands : List Candidate) (prefs : List String) {name : String}
    → Distinct cands
    → decide active cands prefs ≡ some name
    → decide (some name) cands prefs ≡ none
unfolding decide port_of
decide_settles active cands prefs {name} d h = elim (Option-cases (best cands prefs)) [
  | inl e ↦ absurd (ground (arith, e))
  | inr (b, e) ↦
      let (live, member) =
        In-filter usable cands (FirstMin-In (cost prefs) b _ (best-FirstMin cands prefs e)) in
      let same : b.ifname ≡ name = ground (arith, e) in
      let on : find (named name) cands ≡ some b = rw (← same) (find-named cands b d member) in
      ground (arith, e, on)
]

-- The port that the log line names has no carrier, and is the first of the best-preferred
-- ports that have none and are strictly preferred to the port the bond is on.
pub skipped_for_carrier_lem :
    (on : Option String) (cands : List Candidate) (prefs : List String) {s : Candidate}
    → skipped_for_carrier on cands prefs ≡ some s
    → (c : Candidate) × (port_of on cands ≡ some c)
      × (s.carrier ≡ false)
      × (cost prefs s < cost prefs c)
      × FirstMin
          (cost prefs)
          s
          (filter (λ d. not d.carrier && ltb (cost prefs d) (cost prefs c)) cands)
unfolding skipped_for_carrier
skipped_for_carrier_lem on cands prefs {s} h = elim (Option-cases (port_of on cands)) [
  | inl e ↦ absurd (ground (arith, e))
  | inr (c, e) ↦
      let first =
        min_by-FirstMin (cost prefs)
          (filter (λ (d : Candidate). not d.carrier && ltb (cost prefs d) (cost prefs c)) cands)
          {r = s} (ground (arith, e)) in
      let (t, _) = In-filter _ cands (FirstMin-In (cost prefs) s _ first) in
      (c, e, ground (arith, t), ground (arith, t), first)
]
