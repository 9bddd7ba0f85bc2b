-- ===== src/Prober/Leg/Condemned.antt =====
-- When a port is condemned, and what revives it (src/prober/mod.rs).
use Prim.Native.String.{String}
use cfab.Prelude.{
  ℕ, ◌≡◌, refl, sym, ◌∙◌, ◌⊎◌, inl, inr, Bool, true, false, not, List, [], ◌∷◌, map, Option, none,
  some, arith, Pairs, Pairs-refl, Pairs-trans, Pairs-mono, In, length, leb, any, if◌then◌else◌,
  Option-cases,
}
use cfab.Prober.Passive.{Verdict, good, watch, suspect, quiet, beyond, is_good, verdicts}
use cfab.Prober.Passive.Standing.{suspect_has_company}
use cfab.Prelude.Search.{In-any}
use cfab.Prober.Leg.Port.{ProbePort, is_named, evidence}
use cfab.Prober.Leg.State.{Fallback, Leg, World}
use cfab.Prober.Leg.Judge.{
  is_condemned, condemn, mark_dead, peers_all_below_two_way, convict, witness, sentence,
  sentence_all, judge_ports,
}
use cfab.Prober.Leg.Tick.{tick}
use cfab.Prober.Leg.Carries.{NoHello}
use cfab.Prober.Leg.Carries.Ticks.{tick-Carries}

-- An answer to an ARP probe never clears a condemned port: over a whole tick, a port that was
-- condemned still is, unless a frame that carries a Router ID was waiting on it.
pub arp_never_clears :
    (w : World) (now : ℕ) (l : Leg)
    → Pairs
        (λ s s'. NoHello w s.ifname → s.hello_dead ≡ true → s'.hello_dead ≡ true)
        l.ports
        (tick w now l).leg.ports
arp_never_clears w now l = Pairs-mono _ _ (λ s s' c. c.dead) l.ports _ (tick-Carries w now l)

-- Why a port may be condemned, given what else is known then.
abbrev pub Cause : Type 0 → ℕ → Fallback → Option String → ProbePort → ProbePort → Type 0
Cause C now f active s s' =
    s'.hello_dead ≡ true
    → (s.hello_dead ≡ true)
      ⊎ ((is_named active s ≡ true) × (beyond now f.windows.dead s.peer_heard ≡ true) × C)

module _ (C : Type 0) (now : ℕ) (f : Fallback) (active : Option String) where
  is_condemned-Cause :
      (s : ProbePort) (v : Verdict)
      → (v ≡ suspect → C)
      → Cause C now f active s
          (record s { hello_dead = if is_condemned now f active s v then true else s.hello_dead })
  unfolding is_condemned
  is_condemned-Cause s good c h = inl h
  is_condemned-Cause s watch c h = inl h
  is_condemned-Cause s quiet c h = inl h
  is_condemned-Cause s suspect c h = ground (arith, c refl)

  mark_dead-Cause :
      (ss : List ProbePort) (vs : List Verdict)
      → (In suspect vs → C)
      → Pairs (Cause C now f active) ss (mark_dead ss (condemn now f active ss vs))
  unfolding mark_dead condemn
  mark_dead-Cause [] vs c = tt
  mark_dead-Cause (s ∷ ss) [] c = Pairs-refl (Cause C now f active) (λ s h. inl h) (s ∷ ss)
  mark_dead-Cause (s ∷ ss) (v ∷ vs) c =
      (is_condemned-Cause s v (λ e. c (inl e)), mark_dead-Cause ss vs (λ i. c (inr i)))

sentence-hello_dead : (s : ProbePort) (v : Verdict) → (sentence s v).hello_dead ≡ s.hello_dead
unfolding sentence
sentence-hello_dead s good = refl
sentence-hello_dead s watch = refl
sentence-hello_dead s quiet = refl
sentence-hello_dead s suspect = ground arith

sentence_all-hello_dead :
    (ss : List ProbePort) (vs : List Verdict)
    → Pairs (λ s s'. s'.hello_dead ≡ s.hello_dead) ss (sentence_all ss vs)
unfolding sentence_all
sentence_all-hello_dead [] vs = tt
sentence_all-hello_dead (s ∷ ss) [] = Pairs-refl _ (λ s. refl) (s ∷ ss)
sentence_all-hello_dead (s ∷ ss) (v ∷ vs) = (sentence-hello_dead s v, sentence_all-hello_dead ss vs)

-- The engine said that no expected peer is adjacent over the bond.
abbrev pub PeersDown : World → Fallback → Type 0
PeersDown w f = (two_way : ℕ → Bool) × (w.neighbors ≡ some two_way) × (any two_way f.peers ≡ false)

peers_down :
    (w : World) (f : Fallback)
    → peers_all_below_two_way w.neighbors f.peers ≡ some true
    → PeersDown w f
unfolding peers_all_below_two_way
peers_down w f h = elim (Option-cases w.neighbors) [
  | inl e ↦ absurd (ground (arith, e))
  | inr (t, e) ↦ (t, e, ground (arith, e))
]

witness-Cause :
    (C : Type 0) (w : World) (now : ℕ) (f : Fallback) (active : Option String) (ss : List ProbePort)
    (vs : List Verdict)
    → (In suspect vs → C)
    → Pairs
        (Cause (PeersDown w f × C) now f active)
        ss
        (witness w f ss (condemn now f active ss vs)).ports
unfolding witness convict
witness-Cause C w now f active ss vs c = asked (any (λ b. b) (condemn now f active ss vs))
  where
    P : List ProbePort → Type 0
    P ss' = Pairs (Cause (PeersDown w f × C) now f active) ss ss'

    kept : P ss
    kept = Pairs-refl (Cause (PeersDown w f × C) now f active) (λ s h. inl h) ss

    told :
        (o : Option Bool)
        → peers_all_below_two_way w.neighbors f.peers ≡ o
        → P (convict f ss (condemn now f active ss vs) o).ports
    told none e = kept
    told (some false) e = kept
    told (some true) e =
        mark_dead-Cause (PeersDown w f × C) now f active ss vs λ i. (peers_down w f e, c i)

    asked :
        (b : Bool)
        → P
            (if b
              then convict f ss
                  (condemn now f active ss vs)
                  (peers_all_below_two_way w.neighbors f.peers)
              else record { ports = ss; known = f; lines = [] }).ports
    asked true = told (peers_all_below_two_way w.neighbors f.peers) refl
    asked false = kept

-- A port is newly condemned only if the bond is on it, its peers have been silent on it beyond the
-- dead interval, a port of the leg is heard within its window, and the engine reports every
-- expected peer below 2-Way; where the engine cannot be read, no port is.
pub condemned_on_evidence :
    (w : World) (active : Option String) (now : ℕ) (f : Fallback) (ss : List ProbePort)
    → Pairs
        (Cause
          (PeersDown w f × (any (is_good now f.windows) (map (evidence active) ss) ≡ true))
          now
          f
          active)
        ss
        (judge_ports w active now f ss).ports
unfolding judge_ports
condemned_on_evidence w active now f ss =
    let es = map (evidence active) ss in
    let expect = not (leb (length f.peers) 0) in
    let vs = verdicts now es f.windows expect in
    let C : Type 0 = PeersDown w f × (any (is_good now f.windows) es ≡ true) in
    let j = witness w f ss (condemn now f active ss vs) in
    Pairs-trans _ _ (Cause C now f active) (λ s t u c same h. c (sym same ∙ h)) ss j.ports _
      (witness-Cause (any (is_good now f.windows) es ≡ true) w now f active ss vs λ i.
        (let ((e, m, g), _) = suspect_has_company now es f.windows expect i in
          In-any (is_good now f.windows) es e m g))
      (sentence_all-hello_dead j.ports vs)
