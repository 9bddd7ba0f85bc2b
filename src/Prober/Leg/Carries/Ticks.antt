-- ===== src/Prober/Leg/Carries/Ticks.antt =====
-- Moving and asking carry the ports over, and so does a whole tick (src/prober/mod.rs).
use Prim.Native.String.{String}
use cfab.Prelude.{
  ℕ, ◌+◌, ◌≡◌, refl, subst, inl, inr, Bool, true, false, not, List, [], ◌∷◌, map, Option, none,
  some, arith, Pairs, Pairs-refl, Pairs-trans, any, ◌&&◌, if◌then◌else◌, if-both, Bool-cases,
  Option-cases,
}
use cfab.Prelude.Bytes.{Bytes}
use cfab.Prober.Decide.{decide}
use cfab.Prober.Leg.Port.{ProbePort, candidate}
use cfab.Prober.Leg.State.{
  Fallback, Kind, ingress, fallback, Leg, Line, World, ifname_is, probed, grace_of,
}
use cfab.Prober.Leg.Receive.{is_some}
use cfab.Prober.Leg.Judge.{observe}
use cfab.Prober.Leg.Ask.{
  ask_router, ask_routers, settle_sent, put, send, targets_of, not_yet, Probe, ask_peers, ask_all,
  ask_kind, ask,
}
use cfab.Prober.Leg.Actuate.{
  at_port, restart, restarted, graced, non_empty, note_no_carrier, arrive, conclude, move,
  was_refused, actuate_on, actuate,
}
use cfab.Prober.Leg.Tick.{took_active, read_active, tick}
use cfab.Prober.Leg.Carries.{Carries, Carries-same, Carries-refl, Carries-trans}
use cfab.Prober.Leg.Carries.Receive.{observe-Carries}

-- A tick up to the question, once it is known where the bond is.
abbrev pub before_asking : World → Option String → ℕ → Leg → Leg
before_asking w active now l =
    let l' = (observe w active now l).0 in
    (if is_some active && probed l' then actuate w active now l' else (l', [])).0

-- The rest of a tick.
abbrev pub after_reading : World → Option String → ℕ → Leg → Leg × List Probe
after_reading w active now l = ask w now (before_asking w active now l)

module _ (w : World) where
  same : (ss : List ProbePort) → Pairs (Carries w) ss ss
  same ss = Pairs-refl (Carries w) (Carries-refl w) ss

  at_port-Carries :
      (name : String) (f : ProbePort → ProbePort) (ss : List ProbePort)
      → ((s : ProbePort) → Carries w s (f s))
      → Pairs (Carries w) ss (at_port name f ss)
  unfolding at_port
  at_port-Carries name f [] h = tt
  at_port-Carries name f (s ∷ ss) h = elim (Bool-cases (ifname_is name s)) [
    | inl e ↦ rw (e, at_port) (h s, same ss)
    | inr e ↦ rw (e, at_port) (Carries-refl w s, at_port-Carries name f ss h)
  ]

  restart-Carries :
      (active : Option String) (ss : List ProbePort) → Pairs (Carries w) ss (restart active ss)
  restart-Carries none ss = same ss
  restart-Carries (some a) ss =
      at_port-Carries a restarted ss λ s. Carries-same w s _ refl refl λ d. d

  note_no_carrier-ports :
      (active : Option String) (l : Leg)
      → (note_no_carrier active (map candidate l.ports) l).0.ports ≡ l.ports
  unfolding note_no_carrier
  note_no_carrier-ports active l = ground arith

  conclude-Carries :
      (o active : Option String) (now : ℕ) (target : String) (l : Leg)
      → Pairs (Carries w) l.ports (conclude o active now target l).0.ports
  unfolding conclude arrive
  conclude-Carries (some why) active now target l = same l.ports
  conclude-Carries none active now target l =
      at_port-Carries target (graced (now + grace_of l.kind)) l.ports
        λ s. Carries-same w s _ refl refl λ d. d

  move-Carries :
      (active : Option String) (now : ℕ) (target : String) (l : Leg)
      → Pairs (Carries w) l.ports (move w active now target l).0.ports
  unfolding move
  move-Carries active now target l = elim (Bool-cases (was_refused l.refused target active)) [
    | inl e ↦ rw (e, move) (same l.ports)
    | inr e ↦
        rw (e, move)
          (conclude-Carries (w.move_to target) active now target
            (record l { noted_no_carrier = none }))
  ]

  actuate_on-Carries :
      (active : Option String) (now : ℕ) (l : Leg)
      → Pairs (Carries w) l.ports (actuate_on w active now l).0.ports
  unfolding actuate_on
  actuate_on-Carries active now l =
      let ss = restart active l.ports in
      let l' = record l { ports = ss } in
      elim (Option-cases (decide active (map candidate ss) l.prefs)) [
        | inl e ↦
            rw (e, actuate_on)
              (rw (note_no_carrier-ports active l') (restart-Carries active l.ports))
        | inr (target, e) ↦
            rw (e, actuate_on)
              (Pairs-trans _ _ _ (Carries-trans w) l.ports ss _ (restart-Carries active l.ports)
                (move-Carries active now target l'))
      ]

  pub actuate-Carries :
      (active : Option String) (now : ℕ) (l : Leg)
      → Pairs (Carries w) l.ports (actuate w active now l).0.ports
  unfolding actuate
  actuate-Carries active now l =
      if-both (λ (r : Leg × List Line). Pairs (Carries w) l.ports r.0.ports) (not l.actuates) _ _
        (same l.ports) (actuate_on-Carries (non_empty active) now l)

  ask_router-Carries : (router : Bytes) (s : ProbePort) → Carries w s (ask_router w router s)
  unfolding ask_router
  ask_router-Carries router s = Carries-same w s _ (ground arith) (ground arith) λ d. ground arith

  ask_routers-Carries :
      (router : Bytes) (ss : List ProbePort) → Pairs (Carries w) ss (ask_routers w router ss).0
  unfolding ask_routers
  ask_routers-Carries router [] = tt
  ask_routers-Carries router (s ∷ ss) = (ask_router-Carries router s, ask_routers-Carries router ss)

  settle_sent-Carries : (b : Bool) (s : ProbePort) → Carries w s (settle_sent b s)
  unfolding settle_sent
  settle_sent-Carries true s = Carries-same w s _ refl refl λ d. d
  settle_sent-Carries false s = Carries-same w s _ refl refl λ d. d

  put-Carries : (f : Fallback) (s : ProbePort) → Carries w s (put w f s).0
  unfolding put
  put-Carries f s = settle_sent-Carries (any (send w s) (targets_of f s)) s

  ask_peers-Carries : (now : ℕ) (f : Fallback) (s : ProbePort) → Carries w s (ask_peers w now f s).0
  unfolding ask_peers
  ask_peers-Carries now f s =
      let P : ProbePort × List Probe → Type 0 = (λ r. Carries w s r.0) in
      let s' = record s { next_ask = some (now + f.windows.hello) } in
      if-both P (not s.escalating) _ _ (Carries-refl w s) (
        if-both P s.state.reachable _ _ (put-Carries f s) (
          if-both P (not_yet now s.next_ask) _ _ (Carries-same w s _ refl refl λ d. d)
            (Carries-trans w s s' _ (Carries-same w s s' refl refl λ d. d) (put-Carries f s'))))

  ask_all-Carries :
      (now : ℕ) (f : Fallback) (ss : List ProbePort) → Pairs (Carries w) ss (ask_all w now f ss).0
  unfolding ask_all
  ask_all-Carries now f [] = tt
  ask_all-Carries now f (s ∷ ss) = (ask_peers-Carries now f s, ask_all-Carries now f ss)

  pub ask-Carries : (now : ℕ) (l : Leg) → Pairs (Carries w) l.ports (ask w now l).0.ports
  unfolding ask ask_kind
  ask-Carries now l = by_kind l.kind
    where
      by_kind : (k : Kind) → Pairs (Carries w) l.ports (ask_kind k w now l.ports).0
      by_kind (ingress router) = ask_routers-Carries router l.ports
      by_kind (fallback f) = ask_all-Carries now f l.ports

  pub before_asking-Carries :
      (active : Option String) (now : ℕ) (l : Leg)
      → Pairs (Carries w) l.ports (before_asking w active now l).ports
  before_asking-Carries active now l =
      let l' = (observe w active now l).0 in
      let seen = observe-Carries w active now l in
      if-both (λ (r : Leg × List Line). Pairs (Carries w) l.ports r.0.ports)
        (is_some active && probed l') _ _
        (Pairs-trans _ _ _ (Carries-trans w) l.ports l'.ports _ seen
          (actuate-Carries active now l'))
        seen

  after_reading-Carries :
      (active : Option String) (now : ℕ) (l : Leg)
      → Pairs (Carries w) l.ports (after_reading w active now l).0.ports
  after_reading-Carries active now l =
      let l' = before_asking w active now l in
      Pairs-trans _ _ _ (Carries-trans w) l.ports l'.ports _ (before_asking-Carries active now l)
        (ask-Carries now l')

  pub took_active-ports : (o : Option String) (l : Leg) → (took_active o l).ports ≡ l.ports
  unfolding took_active
  took_active-ports none l = refl
  took_active-ports (some a) l = refl

  -- Place by place, the ports of a leg carry over a whole tick.
  pub tick-Carries : (now : ℕ) (l : Leg) → Pairs (Carries w) l.ports (tick w now l).leg.ports
  unfolding tick read_active
  tick-Carries now l =
      let active = w.active_slave l.bond in
      if-both
        (λ (p : Leg × Option String).
          Pairs (Carries w) l.ports (after_reading w p.1 now p.0).0.ports)
        l.actuates _ _
        (subst
          (λ (ss : List ProbePort).
            Pairs (Carries w) ss (after_reading w active now (took_active active l)).0.ports)
          (took_active-ports active l) (after_reading-Carries active now (took_active active l)))
        (after_reading-Carries none now l)
