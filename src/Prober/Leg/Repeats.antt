-- ===== src/Prober/Leg/Repeats.antt =====
-- A leg that could not be moved does not repeat itself (src/prober/mod.rs).
use Prim.Native.String.{String}
use text.Mathlib.Text.{◌==◌ as str_eq}
use text.Mathlib.TextEquality.{eq_iff}
use cfab.Prelude.{
  ℕ, ◌≡◌, ◌≢◌, refl, sym, ap, ◌∙◌, inl, inr, true, not, List, [], ◌∷◌, map, Option, none, some,
  arith, if-both, if-cases, Bool-cases, Option-cases,
}
use cfab.Prober.Decide.{Candidate, decide, port_of, skipped_for_carrier}
use cfab.Prober.Leg.Port.{ProbePort, candidate}
use cfab.Prober.Leg.State.{Leg, Line, World, ifname_is, same_text}
use cfab.Prober.Leg.Actuate.{
  at_port, restart, restarted, non_empty, note_no_carrier, same_pair, pair_of, was_refused,
  conclude, move, actuate_on, actuate,
}

str_eq_refl : (a : String) → str_eq a a ≡ true
str_eq_refl a = ground (arith, eq_iff a a)

same_text_refl : (o : Option String) → same_text o o ≡ true
same_text_refl none = refl
same_text_refl (some a) = str_eq_refl a

same_pair_refl : (o : Option (String × String)) → same_pair o o ≡ true
same_pair_refl none = refl
same_pair_refl (some p) = ground (arith, str_eq_refl p.0, str_eq_refl p.1)

at_port-restarted :
    (a : String) (ss : List ProbePort)
    → at_port a restarted (at_port a restarted ss) ≡ at_port a restarted ss
unfolding at_port
at_port-restarted a [] = refl
at_port-restarted a (s ∷ ss) = elim (Bool-cases (ifname_is a s)) [
  | inl e ↦ ground (arith, e)
  | inr e ↦ ground (arith, e, at_port-restarted a ss)
]

restart-restart :
    (active : Option String) (ss : List ProbePort)
    → restart active (restart active ss) ≡ restart active ss
restart-restart none ss = refl
restart-restart (some a) ss = at_port-restarted a ss

note_no_carrier-again :
    (active : Option String) (cs : List Candidate) (l : Leg)
    → let r = (note_no_carrier active cs l).0 in note_no_carrier active cs r ≡ (r, [])
unfolding note_no_carrier
note_no_carrier-again active cs l =
    let note = pair_of (skipped_for_carrier active cs l.prefs) (port_of active cs) in
    if-cases (λ (p : Leg × List Line). note_no_carrier active cs p.0 ≡ (p.0, []))
      (same_pair note l.noted_no_carrier) _ _ (λ e. ground (arith, e))
      (λ _. ground (arith, same_pair_refl note))

move-again :
    (w w' : World) (active : Option String) (now now' : ℕ) (target : String) (l : Leg)
    → ((t : String) → w.move_to t ≢ none)
    → let r = (move w active now target l).0 in move w' active now' target r ≡ (r, [])
unfolding move conclude
move-again w w' active now now' target l refuses =
    if-cases (λ (p : Leg × List Line). move w' active now' target p.0 ≡ (p.0, []))
      (was_refused l.refused target active) _ _ (λ e. ground (arith, e))
      (λ _. told (w.move_to target) (refuses target))
  where
    told :
        (o : Option String)
        → o ≢ none
        → let r = (conclude o active now target (record l { noted_no_carrier = none })).0 in
          move w' active now' target r ≡ (r, [])
    told none e = absurd (e refl)
    told (some why) e = ground (arith, str_eq_refl target, same_text_refl active)

-- `actuate_on`, once the return window is restarted.
decided : World → Option String → ℕ → Leg → Leg × List Line
decided w active now l = elim (decide active (map candidate l.ports) l.prefs) [
  | none ↦ note_no_carrier active (map candidate l.ports) l
  | some target ↦ move w active now target l
]

actuate_on-decided :
    (w : World) (active : Option String) (now : ℕ) (r : Leg)
    → restart active r.ports ≡ r.ports
    → actuate_on w active now r ≡ decided w active now r
unfolding actuate_on decided
actuate_on-decided w active now r p =
    ap (decided w active now) (ap (λ (ps : List ProbePort). record r { ports = ps }) p)

-- Neither ports nor preferences change where the system refuses.
abbrev Same : Leg → Leg → Type 0
Same l r = (r.ports ≡ l.ports) × (r.prefs ≡ l.prefs)

note_no_carrier-Same :
    (active : Option String) (cs : List Candidate) (l : Leg)
    → Same l (note_no_carrier active cs l).0
unfolding note_no_carrier
note_no_carrier-Same active cs l =
    if-both (λ (p : Leg × List Line). Same l p.0)
      (same_pair (pair_of (skipped_for_carrier active cs l.prefs) (port_of active cs))
        l.noted_no_carrier)
      _ _ (refl, refl) (refl, refl)

move-Same :
    (w : World) (active : Option String) (now : ℕ) (target : String) (l : Leg)
    → ((t : String) → w.move_to t ≢ none)
    → Same l (move w active now target l).0
unfolding move conclude
move-Same w active now target l refuses =
    if-both (λ (p : Leg × List Line). Same l p.0) (was_refused l.refused target active) _ _
      (refl, refl) (told (w.move_to target) (refuses target))
  where
    told :
        (o : Option String)
        → o ≢ none
        → Same l (conclude o active now target (record l { noted_no_carrier = none })).0
    told none e = absurd (e refl)
    told (some why) e = (refl, refl)

module _ (w : World) (active : Option String) (now : ℕ) (l : Leg) where
  decided-none :
      decide active (map candidate l.ports) l.prefs ≡ none
      → decided w active now l ≡ note_no_carrier active (map candidate l.ports) l
  unfolding decided
  decided-none e = rw (e, decided) refl

  decided-some :
      (target : String)
      → decide active (map candidate l.ports) l.prefs ≡ some target
      → decided w active now l ≡ move w active now target l
  unfolding decided
  decided-some target e = rw (e, decided) refl

decided-again :
    (w w' : World) (active : Option String) (now now' : ℕ) (l : Leg)
    → ((t : String) → w.move_to t ≢ none)
    → let r = (decided w active now l).0 in Same l r × (decided w' active now' r ≡ (r, []))
decided-again w w' active now now' l refuses =
    elim (Option-cases (decide active (map candidate l.ports) l.prefs)) [
      | inl e ↦
          let r = (note_no_carrier active (map candidate l.ports) l).0 in
          let s = note_no_carrier-Same active (map candidate l.ports) l in
          rw (decided-none w active now l e) (
            s,
            decided-none w' active now' r (decides r none s e)
                ∙ nothing r s (note_no_carrier-again active (map candidate l.ports) l),
          )
      | inr (target, e) ↦
          let r = (move w active now target l).0 in
          let s = move-Same w active now target l refuses in
          rw (decided-some w active now l target e) (
            s,
            decided-some w' active now' r target (decides r (some target) s e)
                ∙ move-again w w' active now now' target l refuses,
          )
    ]
  where
    decides :
        (r : Leg) (o : Option String)
        → Same l r
        → decide active (map candidate l.ports) l.prefs ≡ o
        → decide active (map candidate r.ports) r.prefs ≡ o
    decides r o (p, q) e =
        ap (λ (ss : List ProbePort). decide active (map candidate ss) r.prefs) p
        ∙ ap (λ (ps : List String). decide active (map candidate l.ports) ps) q
        ∙ e

    nothing :
        (r : Leg)
        → Same l r
        → note_no_carrier active (map candidate l.ports) r ≡ (r, [])
        → note_no_carrier active (map candidate r.ports) r ≡ (r, [])
    nothing r (p, q) h =
        ap (λ (ss : List ProbePort). note_no_carrier active (map candidate ss) r) p ∙ h

actuate_on-restarted :
    (w : World) (active : Option String) (now : ℕ) (l : Leg)
    → actuate_on w active now l ≡ decided w active now (record l { ports = restart active l.ports })
unfolding actuate_on decided
actuate_on-restarted w active now l = refl

actuate_on-again :
    (w w' : World) (active : Option String) (now now' : ℕ) (l : Leg)
    → ((t : String) → w.move_to t ≢ none)
    → let r = (actuate_on w active now l).0 in actuate_on w' active now' r ≡ (r, [])
actuate_on-again w w' active now now' l refuses =
    let l' = record l { ports = restart active l.ports } in
    let r = (decided w active now l').0 in
    let (s, again) = decided-again w w' active now now' l' refuses in
    let p : restart active r.ports ≡ r.ports =
      ap (restart active) s.0 ∙ restart-restart active l.ports ∙ sym s.0 in
    rw (actuate_on-restarted w active now l) (actuate_on-decided w' active now' r p ∙ again)

-- A leg that could not be moved does not repeat itself: after a round in which the system refused
-- every move, a round from the same place, with nothing else changed, writes nothing, says nothing
-- and leaves the leg as it is, whatever the system would answer then.
pub refusal_is_said_once :
    (w w' : World) (active : Option String) (now now' : ℕ) (l : Leg)
    → ((t : String) → w.move_to t ≢ none)
    → let r = (actuate w active now l).0 in actuate w' active now' r ≡ (r, [])
unfolding actuate
refusal_is_said_once w w' active now now' l refuses =
    if-cases (λ (p : Leg × List Line). actuate w' active now' p.0 ≡ (p.0, [])) (not l.actuates) _ _
      (λ off.
        if-cases (λ (q : Leg × List Line). q ≡ (l, [])) (not l.actuates) _ _ (λ _. refl)
          (λ on. absurd (ground (arith, off, on))))
      (λ _.
        let r = (actuate_on w (non_empty active) now l).0 in
        if-both (λ (q : Leg × List Line). q ≡ (r, [])) (not r.actuates) _ _ refl
          (actuate_on-again w w' (non_empty active) now now' l refuses))
