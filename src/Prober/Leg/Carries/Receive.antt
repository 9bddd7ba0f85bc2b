-- ===== src/Prober/Leg/Carries/Receive.antt =====
-- Receiving and judging carry the ports over (src/prober/mod.rs).
use Prim.Native.String.{String}
use cfab.Prelude.{
  ℕ, refl, inl, inr, Bool, true, false, not, List, [], ◌∷◌, map, Option, none, some, arith, Pairs,
  Pairs-refl, Pairs-trans, Pairs-map, length, leb, ltb, any, ◌==◌, ◌&&◌, Bool-cases, Option-cases,
}
use cfab.Prober.Passive.{Verdict, good, watch, suspect, quiet, verdicts}
use cfab.Prober.Leg.Port.{ProbePort, note_usability, evidence}
use cfab.Prober.Leg.State.{Fallback, Kind, ingress, fallback, Leg, World}
use cfab.Prober.Leg.Receive.{
  read_port, appear, take_in, tap_error, opened, Round, receive_port, receive,
}
use cfab.Prober.Leg.Judge.{
  condemn, mark_dead, peers_all_below_two_way, convict, witness, sentence, sentence_all,
  judge_ports, note_nl_err, judge_leg, judge_kind, observe,
}
use cfab.Prober.Leg.Carries.{
  Carries, Carries-same, Carries-refl, Carries-trans, Carries-read, Carries-appear, Carries-opened,
  Carries-take_in,
}

module _ (w : World) where
  Carries-before :
      (k : Kind) (now : ℕ) (s : ProbePort)
      → Carries w s (appear now k (read_port (w.bond_port_state s.ifname) s))
  Carries-before k now s =
      let r = read_port (w.bond_port_state s.ifname) s in
      Carries-trans w s r.port _ (Carries-read w (w.bond_port_state s.ifname) s)
        (Carries-appear w now k r)

  Carries-taken :
      (k : Kind) (active : Option String) (now : ℕ) (s : ProbePort)
      → Carries w s (take_in k active now (w.recv s.ifname) (opened k s))
  Carries-taken (ingress router) active now s = Carries-take_in w (ingress router) active now s
  Carries-taken (fallback f) active now s =
      let k = fallback f in
      Carries-trans w s (opened k s) _ (Carries-opened w k s)
        (Carries-take_in w k active now (opened k s))

  Carries-receive_port :
      (k : Kind) (active : Option String) (now : ℕ) (s : ProbePort)
      → Carries w s (receive_port k w active now s).port
  unfolding receive_port
  Carries-receive_port k active now s =
      let t = appear now k (read_port (w.bond_port_state s.ifname) s) in
      elim (Option-cases (tap_error k w t)) [
        | inl e ↦
            rw (e, receive_port)
              (Carries-trans w s t _ (Carries-before k now s) (Carries-taken k active now t))
        | inr (why, e) ↦
            rw (e, receive_port)
              (Carries-trans w s t _ (Carries-before k now s) (Carries-same w t _ refl refl λ d. d))
      ]

  pub receive-Carries :
      (k : Kind) (active : Option String) (now : ℕ) (ss : List ProbePort)
      → Pairs (Carries w) ss (receive k w active now ss).ports
  unfolding receive
  receive-Carries k active now [] = tt
  receive-Carries k active now (s ∷ ss) =
      (Carries-receive_port k active now s, receive-Carries k active now ss)

  mark_dead-Carries :
      (ss : List ProbePort) (cs : List Bool) → Pairs (Carries w) ss (mark_dead ss cs)
  unfolding mark_dead
  mark_dead-Carries [] cs = tt
  mark_dead-Carries (s ∷ ss) [] = Pairs-refl (Carries w) (Carries-refl w) (s ∷ ss)
  mark_dead-Carries (s ∷ ss) (c ∷ cs) =
      (Carries-same w s _ refl refl (λ d. ground arith), mark_dead-Carries ss cs)

  sentence-Carries : (s : ProbePort) (v : Verdict) → Carries w s (sentence s v)
  unfolding sentence
  sentence-Carries s good = Carries-same w s _ refl refl λ d. d
  sentence-Carries s watch = Carries-refl w s
  sentence-Carries s quiet = Carries-same w s _ refl refl λ d. d
  sentence-Carries s suspect = Carries-same w s _ (ground arith) (ground arith) λ d. ground arith

  sentence_all-Carries :
      (ss : List ProbePort) (vs : List Verdict) → Pairs (Carries w) ss (sentence_all ss vs)
  unfolding sentence_all
  sentence_all-Carries [] vs = tt
  sentence_all-Carries (s ∷ ss) [] = Pairs-refl (Carries w) (Carries-refl w) (s ∷ ss)
  sentence_all-Carries (s ∷ ss) (v ∷ vs) = (sentence-Carries s v, sentence_all-Carries ss vs)

  convict-Carries :
      (f : Fallback) (ss : List ProbePort) (cs : List Bool) (o : Option Bool)
      → Pairs (Carries w) ss (convict f ss cs o).ports
  unfolding convict
  convict-Carries f ss cs none = Pairs-refl (Carries w) (Carries-refl w) ss
  convict-Carries f ss cs (some true) = mark_dead-Carries ss cs
  convict-Carries f ss cs (some false) = Pairs-refl (Carries w) (Carries-refl w) ss

  witness-Carries :
      (f : Fallback) (ss : List ProbePort) (cs : List Bool)
      → Pairs (Carries w) ss (witness w f ss cs).ports
  unfolding witness
  witness-Carries f ss cs = elim (Bool-cases (any (λ c. c) cs)) [
    | inl e ↦
        rw (e, witness) (convict-Carries f ss cs (peers_all_below_two_way w.neighbors f.peers))
    | inr e ↦ rw (e, witness) (Pairs-refl (Carries w) (Carries-refl w) ss)
  ]

  judge_ports-Carries :
      (active : Option String) (now : ℕ) (f : Fallback) (ss : List ProbePort)
      → Pairs (Carries w) ss (judge_ports w active now f ss).ports
  unfolding judge_ports
  judge_ports-Carries active now f ss =
      let vs = verdicts now (map (evidence active) ss) f.windows (not (leb (length f.peers) 0)) in
      let j = witness w f ss (condemn now f active ss vs) in
      Pairs-trans _ _ _ (Carries-trans w) ss j.ports _
        (witness-Carries f ss (condemn now f active ss vs)) (sentence_all-Carries j.ports vs)

  usability-Carries : (ss : List ProbePort) → Pairs (Carries w) ss (map note_usability ss)
  unfolding note_usability
  usability-Carries ss =
      Pairs-map (Carries w) note_usability (λ s. Carries-same w s _ refl refl λ d. d) ss

  judge_kind-Carries :
      (active : Option String) (now : ℕ) (k : Kind) (r : Round) (l : Leg)
      → Pairs (Carries w) r.ports (judge_kind w active now k r l).0.ports
  unfolding judge_kind judge_leg
  judge_kind-Carries active now (ingress router) r l = usability-Carries r.ports
  judge_kind-Carries active now (fallback f) r l =
      elim (Bool-cases (ltb 0 r.deaf && r.deaf == length r.ports)) [
        | inl e ↦ rw (e, judge_leg) (usability-Carries r.ports)
        | inr e ↦
            let j = judge_ports w active now (record f { noted_deaf = false }) r.ports in
            rw (e, judge_leg)
              (Pairs-trans _ _ _ (Carries-trans w) r.ports j.ports _
                (judge_ports-Carries active now (record f { noted_deaf = false }) r.ports)
                (usability-Carries j.ports))
      ]

  pub observe-Carries :
      (active : Option String) (now : ℕ) (l : Leg)
      → Pairs (Carries w) l.ports (observe w active now l).0.ports
  unfolding observe
  observe-Carries active now l =
      let r = receive l.kind w active now l.ports in
      let (l', _) = note_nl_err r.nl_err l in
      Pairs-trans _ _ _ (Carries-trans w) l.ports r.ports _
        (receive-Carries l.kind active now l.ports) (judge_kind-Carries active now l'.kind r l')
