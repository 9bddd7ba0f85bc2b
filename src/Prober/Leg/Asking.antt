-- ===== src/Prober/Leg/Asking.antt =====
-- How much a leg asks, and how often (src/prober/mod.rs).
use Prim.Native.String.{String}
use cfab.Prelude.{
  ℕ, ◌+◌, ◌*◌, ◌<◌, ◌≤◌, ◌≡◌, refl, ◌∙◌, ◌⊎◌, inl, inr, Bool, true, false, not, List, [], ◌∷◌, ◌++◌,
  Option, none, some, arith, All, Pairs-All, Pairs-length, length, length-append, length-map, any,
  if-both, if-cases, Option-cases,
}
use cfab.Prelude.Bytes.{Bytes}
use cfab.Prober.Hysteresis.Flips.{miss-unreachable}
use cfab.Prober.Leg.Port.{ProbePort}
use cfab.Prober.Leg.State.{Fallback, Kind, ingress, fallback, Leg, World, target_of}
use cfab.Prober.Leg.Ask.{
  Probe, recent_targets, fill_up, targets_of, settle_sent, put, send, not_yet, ask_peers, ask_all,
  ask_routers, ask_kind, ask,
}
use cfab.Prober.Leg.Tick.{read_active, took_active, tick}
use cfab.Prober.Leg.Carries.{Carries}
use cfab.Prober.Leg.Carries.Ticks.{
  before_asking, before_asking-Carries, after_reading, tick-Carries,
}

-- The list of peers heard on a port is short.
abbrev pub IsShort : ProbePort → Type 0
IsShort s = length s.recent ≤ 4

recent_targets-length :
    (targets : List Bytes) (rids : List ℕ) → length (recent_targets targets rids) ≤ length rids
unfolding recent_targets
recent_targets-length targets [] = omega arith
recent_targets-length targets (rid ∷ rids) = elim (Option-cases (target_of targets rid)) [
  | inl e ↦ rw (e, recent_targets) (omega (arith, recent_targets-length targets rids))
  | inr (t, e) ↦ rw (e, recent_targets) (omega (arith, recent_targets-length targets rids))
]

fill_up-length : (chosen ts : List Bytes) → length chosen ≤ 4 → length (fill_up chosen ts) ≤ 4
unfolding fill_up
fill_up-length chosen [] h = h
fill_up-length chosen (t ∷ ts) h = ground (
  arith,
  length-append chosen (t ∷ []),
  fill_up-length chosen ts,
  fill_up-length (chosen ++ (t ∷ [])) ts,
)

targets_of-length : (f : Fallback) (s : ProbePort) → IsShort s → length (targets_of f s) ≤ 4
unfolding targets_of
targets_of-length f s h =
    fill_up-length (recent_targets f.targets s.recent) f.targets
      (omega (arith, recent_targets-length f.targets s.recent))

put-length : (w : World) (f : Fallback) (s : ProbePort) → IsShort s → length (put w f s).1 ≤ 4
unfolding put
put-length w f s h = omega (
  arith,
  length-map {B = Probe} (λ (t : Bytes). (s.ifname, t)) (targets_of f s),
  targets_of-length f s h,
)

ask_peers-length :
    (w : World) (now : ℕ) (f : Fallback) (s : ProbePort)
    → IsShort s
    → length (ask_peers w now f s).1 ≤ 4
unfolding ask_peers
ask_peers-length w now f s h =
    let P : ProbePort × List Probe → Type 0 = (λ r. length r.1 ≤ 4) in
    if-both P (not s.escalating) _ _ (omega arith) (
      if-both P s.state.reachable _ _ (put-length w f s h) (
        if-both P (not_yet now s.next_ask) _ _ (omega arith)
          (put-length w f (record s { next_ask = some (now + f.windows.hello) }) h)))

ask_all-length :
    (w : World) (now : ℕ) (f : Fallback) (ss : List ProbePort)
    → All IsShort ss
    → length (ask_all w now f ss).1 ≤ 4 * length ss
unfolding ask_all
ask_all-length w now f [] a = omega arith
ask_all-length w now f (s ∷ ss) a = omega (
  arith,
  ask_peers-length w now f s a.0,
  ask_all-length w now f ss a.1,
  length-append (ask_peers w now f s).1 (ask_all w now f ss).1,
)

ask_routers-length :
    (w : World) (router : Bytes) (ss : List ProbePort)
    → length (ask_routers w router ss).1 ≤ 4 * length ss
unfolding ask_routers
ask_routers-length w router [] = omega arith
ask_routers-length w router (s ∷ ss) = omega (arith, ask_routers-length w router ss)

ask-length :
    (w : World) (now : ℕ) (l : Leg)
    → All IsShort l.ports
    → length (ask w now l).1 ≤ 4 * length l.ports
unfolding ask ask_kind
ask-length w now l a = by_kind l.kind
  where
    by_kind : (k : Kind) → length (ask_kind k w now l.ports).1 ≤ 4 * length l.ports
    by_kind (ingress router) = ask_routers-length w router l.ports
    by_kind (fallback f) = ask_all-length w now f l.ports a

after_reading-length :
    (w : World) (active : Option String) (now : ℕ) (l : Leg)
    → All IsShort l.ports
    → length (after_reading w active now l).1 ≤ 4 * length l.ports
after_reading-length w active now l a =
    let l' = before_asking w active now l in
    let c = before_asking-Carries w active now l in
    omega (
      arith,
      ask-length w now l'
          (Pairs-All (Carries w) IsShort IsShort (λ s s' k h. k.short h) l.ports l'.ports c a),
      Pairs-length (Carries w) l.ports l'.ports c,
    )

took_active-length :
    (w : World) (o : Option String) (now : ℕ) (l : Leg)
    → All IsShort l.ports
    → length (after_reading w o now (took_active o l)).1 ≤ 4 * length l.ports
unfolding took_active
took_active-length w none now l a = after_reading-length w none now l a
took_active-length w (some x) now l a = after_reading-length w (some x) now _ a

tick-length :
    (w : World) (now : ℕ) (l : Leg)
    → All IsShort l.ports
    → length (tick w now l).probes ≤ 4 * length l.ports
unfolding tick read_active
tick-length w now l a =
    if-both
      (λ (p : Leg × Option String). length (after_reading w p.1 now p.0).1 ≤ 4 * length l.ports)
      l.actuates _ _ (took_active-length w (w.active_slave l.bond) now l a)
      (after_reading-length w none now l a)

-- A leg after ticks, each with what the system answered and its instant.
unfoldable pub ticks : List (World × ℕ) → Leg → Leg
ticks [] l = l
ticks ((w, now) ∷ past) l = (tick w now (ticks past l)).leg

ticks-IsShort :
    (past : List (World × ℕ)) (l : Leg) → All IsShort l.ports → All IsShort (ticks past l).ports
unfolding ticks
ticks-IsShort [] l a = a
ticks-IsShort ((w, now) ∷ past) l a =
    Pairs-All (Carries w) IsShort IsShort (λ s s' k h. k.short h) (ticks past l).ports _
      (tick-Carries w now (ticks past l)) (ticks-IsShort past l a)

ticks-length : (past : List (World × ℕ)) (l : Leg) → length (ticks past l).ports ≡ length l.ports
unfolding ticks
ticks-length [] l = refl
ticks-length ((w, now) ∷ past) l =
    Pairs-length (Carries w) (ticks past l).ports _ (tick-Carries w now (ticks past l))
    ∙ ticks-length past l

-- However long a leg has been ticking, and whatever came in, one tick sends at most four probes per
-- port, if no port began with more than four peers in its list.
pub probes_are_a_burst :
    (past : List (World × ℕ)) (w : World) (now : ℕ) (l : Leg)
    → All IsShort l.ports
    → length (tick w now (ticks past l)).probes ≤ 4 * length l.ports
probes_are_a_burst past w now l a =
    omega (arith, tick-length w now (ticks past l) (ticks-IsShort past l a), ticks-length past l)

put_quiet :
    (w w' : World) (f : Fallback) (s : ProbePort) (later : ℕ)
    → s.state.reachable ≡ false
    → not_yet later s.next_ask ≡ true
    → (ask_peers w' later f (put w f s).0).1 ≡ []
unfolding ask_peers put
put_quiet w w' f s later r n = settled (any (send w s) (targets_of f s))
  where
    settled : (b : Bool) → (ask_peers w' later f (settle_sent b s)).1 ≡ []
    settled true = ground (arith, r, n)
    settled false = ground (arith, miss-unreachable s.state r)

-- A port that is confirmed dead is asked at most once per hello interval: of two asks less than a
-- hello interval apart, with nothing heard between them, one sends nothing.
pub dead_is_asked_seldom :
    (w w' : World) (f : Fallback) (s : ProbePort) (now later : ℕ)
    → s.state.reachable ≡ false
    → later < now + f.windows.hello
    → let (s', probes) = ask_peers w now f s in (probes ≡ []) ⊎ ((ask_peers w' later f s').1 ≡ [])
unfolding ask_peers
dead_is_asked_seldom w w' f s now later r h =
    let P : ProbePort × List Probe → Type 0 =
      (λ p. (p.1 ≡ []) ⊎ ((ask_peers w' later f p.0).1 ≡ [])) in
    let s' = record s { next_ask = some (now + f.windows.hello) } in
    let again : P (put w f s') = inr (put_quiet w w' f s' later r (ground arith)) in
    if-both P (not s.escalating) _ _ (inl refl) (
      if-cases P s.state.reachable _ _ (λ live. absurd (ground (arith, r, live)))
        (λ _. if-both P (not_yet now s.next_ask) _ _ (inl refl) again))
