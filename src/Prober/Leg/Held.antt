-- ===== src/Prober/Leg/Held.antt =====
-- The port that a leg holds, and what the prober publishes of it (src/prober/mod.rs).
use Prim.Native.String.{String}
use cfab.Prelude.{
  ℕ, ◌≡◌, ◌≢◌, refl, sym, ap, ◌∙◌, subst, inl, inr, Bool, List, [], ◌∷◌, Option, none, some, arith,
  All, In, Pairs, length, ltb, ◌==◌, ◌&&◌, if◌then◌else◌, if-both, Option-cases,
}
use cfab.Prelude.Search.{find, find_sound, In-All}
use cfab.Prelude.BTreeMap.{string_ord, key_eq_iff, key_eq_refl, get, get-insert}
use cfab.Prober.Leg.Port.{ProbePort}
use cfab.Prober.Leg.State.{
  Kind, ingress, fallback, Leg, Line, World, wire_is, home_port, new, probed, port_for, hold,
  collect_held, held_primaries,
}
use cfab.Prober.Leg.Receive.{Round, receive, is_some}
use cfab.Prober.Leg.Judge.{note_nl_err, judge_leg, judge_kind, observe}
use cfab.Prober.Leg.Ask.{ask}
use cfab.Prober.Leg.Actuate.{actuate}
use cfab.Prober.Leg.Tick.{took_active, read_active, tick}
use cfab.Prober.Leg.Carries.{Carries}
use cfab.Prober.Leg.Carries.Ticks.{actuate-Carries, ask-Carries, before_asking, after_reading}
use cfab.Prober.Leg.Carries.Receive.{observe-Carries}
use cfab.Prober.Leg.Moves.{actuate_moves}
use cfab.Prober.Leg.Asking.{ticks}

-- The leg holds one of its own ports.
abbrev pub HoldsOwn : Leg → Type 0
HoldsOwn l = (s : ProbePort) × In s l.ports × (s.ifname ≡ l.held)

In-Pairs :
    (w : World) (ss ts : List ProbePort) (s : ProbePort)
    → Pairs (Carries w) ss ts
    → In s ss
    → (t : ProbePort) × In t ts × (t.ifname ≡ s.ifname)
In-Pairs w [] ts s p i = absurd i
In-Pairs w (x ∷ ss) [] s p i = absurd p
In-Pairs w (x ∷ ss) (t ∷ ts) s p (inl e) =
    (t, inl refl, p.0.name ∙ ap (λ (y : ProbePort). y.ifname) e)
In-Pairs w (x ∷ ss) (t ∷ ts) s p (inr i) = let (u, m, e) = In-Pairs w ss ts s p.1 i in (u, inr m, e)

HoldsOwn-Pairs :
    (w : World) (l r : Leg)
    → Pairs (Carries w) l.ports r.ports
    → r.held ≡ l.held
    → HoldsOwn l
    → HoldsOwn r
HoldsOwn-Pairs w l r p h (s, i, e) =
    let (t, m, n) = In-Pairs w l.ports r.ports s p i in (t, m, n ∙ e ∙ sym h)

note_nl_err-held : (o : Option String) (l : Leg) → (note_nl_err o l).0.held ≡ l.held
unfolding note_nl_err
note_nl_err-held none l = refl
note_nl_err-held (some why) l = ground arith

judge_kind-held :
    (w : World) (active : Option String) (now : ℕ) (k : Kind) (r : Round) (l : Leg)
    → (judge_kind w active now k r l).0.held ≡ l.held
unfolding judge_kind judge_leg
judge_kind-held w active now (ingress router) r l = refl
judge_kind-held w active now (fallback f) r l =
    if-both (λ (p : Leg × List Line). p.0.held ≡ l.held) (ltb 0 r.deaf && r.deaf == length r.ports)
      _ _ refl refl

observe-held :
    (w : World) (active : Option String) (now : ℕ) (l : Leg)
    → (observe w active now l).0.held ≡ l.held
unfolding observe
observe-held w active now l =
    let r = receive l.kind w active now l.ports in
    let l' = (note_nl_err r.nl_err l).0 in
    judge_kind-held w active now l'.kind r l' ∙ note_nl_err-held r.nl_err l

actuate-HoldsOwn :
    (w : World) (active : Option String) (now : ℕ) (l : Leg)
    → HoldsOwn l
    → HoldsOwn (actuate w active now l).0
actuate-HoldsOwn w active now l h =
    let r = (actuate w active now l).0 in
    let p = actuate-Carries w active now l in
    elim (actuate_moves w active now l) [
      | inl (_, held, _) ↦ HoldsOwn-Pairs w l r p held h
      | inr (_, _, _, _, (s, i, e, _)) ↦
          let (t, m, n) = In-Pairs w l.ports r.ports s p i in (t, m, n ∙ e)
    ]

before_asking-HoldsOwn :
    (w : World) (active : Option String) (now : ℕ) (l : Leg)
    → HoldsOwn l
    → HoldsOwn (before_asking w active now l)
before_asking-HoldsOwn w active now l h =
    let l' = (observe w active now l).0 in
    let h' =
      HoldsOwn-Pairs w l l' (observe-Carries w active now l) (observe-held w active now l) h in
    if-both (λ (p : Leg × List Line). HoldsOwn p.0) (is_some active && probed l') _ _
      (actuate-HoldsOwn w active now l' h') h'

ask-held : (w : World) (now : ℕ) (l : Leg) → (ask w now l).0.held ≡ l.held
unfolding ask
ask-held w now l = refl

after_reading-HoldsOwn :
    (w : World) (active : Option String) (now : ℕ) (l : Leg)
    → HoldsOwn l
    → HoldsOwn (after_reading w active now l).0
after_reading-HoldsOwn w active now l h =
    let l' = before_asking w active now l in
    HoldsOwn-Pairs w l' (ask w now l').0 (ask-Carries w now l') (ask-held w now l')
      (before_asking-HoldsOwn w active now l h)

took_active-HoldsOwn : (o : Option String) (l : Leg) → HoldsOwn l → HoldsOwn (took_active o l)
unfolding took_active
took_active-HoldsOwn none l h = h
took_active-HoldsOwn (some a) l h = h

tick-HoldsOwn : (w : World) (now : ℕ) (l : Leg) → HoldsOwn l → HoldsOwn (tick w now l).leg
unfolding tick read_active
tick-HoldsOwn w now l h =
    let active = w.active_slave l.bond in
    if-both (λ (p : Leg × Option String). HoldsOwn (after_reading w p.1 now p.0).0) l.actuates _ _
      (after_reading-HoldsOwn w active now (took_active active l) (took_active-HoldsOwn active l h))
      (after_reading-HoldsOwn w none now l h)

ticks-HoldsOwn : (past : List (World × ℕ)) (l : Leg) → HoldsOwn l → HoldsOwn (ticks past l)
unfolding ticks
ticks-HoldsOwn [] l h = h
ticks-HoldsOwn ((w, now) ∷ past) l h = tick-HoldsOwn w now (ticks past l) (ticks-HoldsOwn past l h)

new-HoldsOwn :
    (zone bond : String) (actuates : Bool) (prefs : List String) (home : String) (s : ProbePort)
    (ss : List ProbePort) (kind : Kind)
    → HoldsOwn (new zone bond actuates prefs home (s ∷ ss) kind)
unfolding new home_port
new-HoldsOwn zone bond actuates prefs home s ss kind =
    elim (Option-cases (find (wire_is home) (s ∷ ss))) [
      | inl e ↦ (s, inl refl, rw e refl)
      | inr (t, e) ↦ (t, (find_sound (wire_is home) (s ∷ ss) e).1, rw e refl)
    ]

-- The port that a leg's bond must name as `primary` is always one of the leg's own ports: from the
-- start, and after any ticks, whatever the system answered.
held_is_own :
    (zone bond : String) (actuates : Bool) (prefs : List String) (home : String) (s : ProbePort)
    (ss : List ProbePort) (kind : Kind) (past : List (World × ℕ))
    → let l = ticks past (new zone bond actuates prefs home (s ∷ ss) kind) in
      (t : ProbePort) × In t l.ports × (t.ifname ≡ l.held)
held_is_own zone bond actuates prefs home s ss kind past =
    ticks-HoldsOwn past (new zone bond actuates prefs home (s ∷ ss) kind)
      (new-HoldsOwn zone bond actuates prefs home s ss kind)

-- No two legs share a bond.
abbrev pub Separate : List Leg → Type 0
Separate [] = Unit
Separate (l ∷ ls) = All (λ m. m.bond ≢ l.bond) ls × Separate ls

collect_held-other :
    (bond : String) (ls : List Leg) (held : List (String × String))
    → All (λ m. m.bond ≢ bond) ls
    → get bond (collect_held ls held) ≡ get bond held
unfolding collect_held
collect_held-other bond [] held a = refl
collect_held-other bond (l ∷ ls) held a =
    collect_held-other bond ls (if l.actuates then hold l.bond l.held held else held) a.1
    ∙ ground (arith, a.0, key_eq_iff l.bond bond, get-insert l.bond bond l.held held)

collect_held-own :
    (ls : List Leg) (held : List (String × String)) (l : Leg)
    → Separate ls
    → In l ls
    → get l.bond held ≡ none
    → get l.bond (collect_held ls held) ≡ (if l.actuates then some l.held else none)
unfolding collect_held
collect_held-own [] held l d i n = absurd i
collect_held-own (m ∷ ls) held l d (inl e) n =
    let apart = subst (λ (x : Leg). All (λ (y : Leg). y.bond ≢ x.bond) ls) e d.0 in
    rw e (
      collect_held-other l.bond ls (if l.actuates then hold l.bond l.held held else held) apart
      ∙ ground (arith, key_eq_refl l.bond, get-insert l.bond l.bond l.held held, n))
collect_held-own (m ∷ ls) held l d (inr i) n =
    let apart = In-All (λ (y : Leg). y.bond ≢ m.bond) ls {x = l} d.0 i in
    collect_held-own ls (if m.actuates then hold m.bond m.held held else held) l d.1 i
      (ground (arith, apart, key_eq_iff m.bond l.bond, get-insert m.bond l.bond m.held held, n))

-- The map that the prober publishes names, for the bond of each leg that actuates, the port that the
-- leg holds, and for no other leg's bond anything. No two legs share a bond.
pub held_primaries_exact :
    (ls : List Leg) (l : Leg)
    → Separate ls
    → In l ls
    → port_for l.bond (held_primaries ls) ≡ (if l.actuates then some l.held else none)
unfolding held_primaries
held_primaries_exact ls l d i = collect_held-own ls [] l d i refl
