-- ===== src/Prober/Leg/Moves.antt =====
-- What `actuate` does to a leg (src/prober/mod.rs).
use Prim.Native.String.{String}
use cfab.Prelude.{
  ℕ, ◌+◌, ◌≡◌, refl, ap, ◌∙◌, ◌⊎◌, inl, inr, true, not, List, [], ◌∷◌, map, Option, none, some,
  arith, In, if-both, if-cases,
}
use cfab.Prelude.Search.{In-filter, In-map, FirstMin-In}
use cfab.Prober.Decide.{Candidate, usable, decide, port_of, skipped_for_carrier}
use cfab.Prober.Decide.Choice.{decide_moves}
use cfab.Prober.Leg.Port.{ProbePort, candidate}
use cfab.Prober.Leg.State.{Leg, Line, World, ifname_is}
use cfab.Prober.Leg.Actuate.{
  at_port, restart, restarted, non_empty, note_no_carrier, same_pair, pair_of, was_refused,
  conclude, move, actuate_on, actuate,
}

-- A return window is no part of a candidate.
at_port-candidate :
    (a : String) (ss : List ProbePort) → map candidate (at_port a restarted ss) ≡ map candidate ss
unfolding at_port
at_port-candidate a [] = refl
at_port-candidate a (s ∷ ss) =
    if-both (λ (r : List ProbePort). map candidate r ≡ candidate s ∷ map candidate ss)
      (ifname_is a s) _ _ refl (ap (λ cs. candidate s ∷ cs) (at_port-candidate a ss))

restart-candidate :
    (active : Option String) (ss : List ProbePort)
    → map candidate (restart active ss) ≡ map candidate ss
restart-candidate none ss = refl
restart-candidate (some a) ss = at_port-candidate a ss

-- What a leg is after `actuate`: not moved, or moved to a port of its own that is usable.
abbrev pub Moved : World → Leg → Leg → Type 0
Moved w l r =
    (r.moves ≡ l.moves + 1)
    × (r.active_now ≡ some r.held)
    × (l.actuates ≡ true)
    × (w.move_to r.held ≡ none)
    × ((s : ProbePort) × In s l.ports × (s.ifname ≡ r.held) × (usable (candidate s) ≡ true))

abbrev pub Stayed : Leg → Leg → Type 0
Stayed l r = (r.moves ≡ l.moves) × (r.held ≡ l.held) × (r.active_now ≡ l.active_now)

target_usable :
    (active : Option String) (ss : List ProbePort) (prefs : List String) {target : String}
    → decide active (map candidate ss) prefs ≡ some target
    → (s : ProbePort) × In s ss × (s.ifname ≡ target) × (usable (candidate s) ≡ true)
target_usable active ss prefs h =
    let (b, n, first, _) = decide_moves active (map candidate ss) prefs h in
    let (u, i) = In-filter usable (map candidate ss) (FirstMin-In _ b _ first) in
    let (s, m, e) = In-map candidate ss i in
    (s, m, ap (λ (c : Candidate). c.ifname) e ∙ n, ap usable e ∙ u)

move-cases :
    (w : World) (active : Option String) (now : ℕ) (target : String) (l : Leg)
    → let r = (move w active now target l).0 in
      Stayed l r
      ⊎ ((r.moves ≡ l.moves + 1)
          × (r.active_now ≡ some r.held)
          × (w.move_to target ≡ none)
          × (r.held ≡ target))
unfolding move
move-cases w active now target l =
    if-both
      (λ (p : Leg × List Line).
        Stayed l p.0
        ⊎ ((p.0.moves ≡ l.moves + 1)
            × (p.0.active_now ≡ some p.0.held)
            × (w.move_to target ≡ none)
            × (p.0.held ≡ target)))
      (was_refused l.refused target active) _ _ (inl (refl, refl, refl))
      (told (w.move_to target) refl)
  where
    l' : Leg
    l' = record l { noted_no_carrier = none }

    told :
        (o : Option String)
        → w.move_to target ≡ o
        → let r = (conclude o active now target l').0 in
          Stayed l r
          ⊎ ((r.moves ≡ l.moves + 1)
              × (r.active_now ≡ some r.held)
              × (w.move_to target ≡ none)
              × (r.held ≡ target))
    told (some why) e = inl (refl, refl, refl)
    told none e = inr (refl, refl, e, refl)

note_no_carrier-Stayed :
    (active : Option String) (cs : List Candidate) (l : Leg)
    → Stayed l (note_no_carrier active cs l).0
unfolding note_no_carrier
note_no_carrier-Stayed active cs l =
    if-both (λ (p : Leg × List Line). Stayed l p.0)
      (same_pair (pair_of (skipped_for_carrier active cs l.prefs) (port_of active cs))
        l.noted_no_carrier)
      _ _ (refl, refl, refl) (refl, refl, refl)

actuate_on-cases :
    (w : World) (active : Option String) (now : ℕ) (l : Leg)
    → l.actuates ≡ true
    → let r = (actuate_on w active now l).0 in Stayed l r ⊎ Moved w l r
unfolding actuate_on
actuate_on-cases w active now l on = decided (decide active (map candidate ss) l.prefs) refl
  where
    ss : List ProbePort
    ss = restart active l.ports

    decided :
        (o : Option String)
        → decide active (map candidate ss) l.prefs ≡ o
        → let r : Leg × List Line = elim o [
          | none ↦ note_no_carrier active (map candidate ss) (record l { ports = ss })
          | some target ↦ move w active now target (record l { ports = ss })
        ] in
          Stayed l r.0 ⊎ Moved w l r.0
    decided none e =
        inl (note_no_carrier-Stayed active (map candidate ss) (record l { ports = ss }))
    decided (some target) e = elim (move-cases w active now target (record l { ports = ss })) [
      | inl s ↦ inl s
      | inr (m, a, written, n) ↦
          let (s, i, named, u) =
            target_usable active l.ports l.prefs {target = target}
              (rw (← restart-candidate active l.ports) e) in
          inr (m, a, on, rw n written, (s, i, rw n named, u))
    ]

-- A bond is moved only where the leg actuates and the writes were accepted, and then to a port of
-- the leg that is usable: it answers, is not condemned, has carrier, and its bond link is up. The
-- port is then the one that is held and reported active, and the move is counted. In every other
-- case the port that is held, the active one and the count stay as they were.
pub actuate_moves :
    (w : World) (active : Option String) (now : ℕ) (l : Leg)
    → let r = (actuate w active now l).0 in Stayed l r ⊎ Moved w l r
unfolding actuate
actuate_moves w active now l =
    if-cases (λ (p : Leg × List Line). Stayed l p.0 ⊎ Moved w l p.0) (not l.actuates) _ _
      (λ _. inl (refl, refl, refl))
      (λ on. actuate_on-cases w (non_empty active) now l (ground (arith, on)))
