-- ===== src/Prober/Hysteresis/Flips.antt =====
-- When a wire's verdict flips (src/prober/decide.rs).
use cfab.Prelude.{ℕ, zero, suc, ◌<◌, ◌≡◌, ◌≢◌, Bool, true, false, not, List, [], ◌∷◌, arith}
use cfab.Prober.Hysteresis.{Hysteresis, hysteresis, observe, heard, precharge, after}

-- The streak of a state that the operations reach.
abbrev pub IsCounting : Hysteresis → Type 0
IsCounting h = h.streak < hysteresis

-- What a wire's caller may do to it.
pub data Event : Type 0 where
  tick : Bool → Event
  frame escalate : Event

pub apply : Hysteresis → Event → Hysteresis
apply h (tick replied) = observe h replied
apply h frame = heard h
apply h escalate = precharge h

pub apply_all : Hysteresis → List Event → Hysteresis
apply_all h [] = h
apply_all h (e ∷ es) = apply_all (apply h e) es

apply-IsCounting : (h : Hysteresis) (e : Event) → IsCounting h → IsCounting (apply h e)
unfolding apply observe heard precharge
apply-IsCounting h (tick replied) c = ground arith
apply-IsCounting h frame c = ground arith
apply-IsCounting h escalate c = ground arith

-- After any events from the initial state, the streak is below 3.
pub apply_all-IsCounting :
    (es : List Event) (h : Hysteresis) → IsCounting h → IsCounting (apply_all h es)
unfolding apply_all
apply_all-IsCounting [] h c = c
apply_all-IsCounting (e ∷ es) h c = apply_all-IsCounting es (apply h e) (apply-IsCounting h e c)

after-IsCounting : (past : List Bool) → IsCounting (after past)
unfolding after apply
after-IsCounting [] = omega arith
after-IsCounting (b ∷ past) = apply-IsCounting (after past) (tick b) (after-IsCounting past)

-- The newest `n` answers were all `b`.
abbrev pub Ends : ℕ → Bool → List Bool → Type 0
Ends zero b past = Unit
Ends (suc n) b [] = ⊥
Ends (suc n) b (x ∷ past) = (x ≡ b) × Ends n b past

-- The streak counts answers against the verdict, and they are the newest ones.
streak-Ends : (past : List Bool) → Ends (after past).streak (not (after past).reachable) past
unfolding after
streak-Ends [] = tt
streak-Ends (true ∷ past) = ground (arith, streak-Ends past, after-IsCounting past)
streak-Ends (false ∷ past) = ground (arith, streak-Ends past, after-IsCounting past)

-- Three equal answers in a row decide the verdict, whatever came before.
pub three_decide : (b : Bool) (past : List Bool) → (after (b ∷ b ∷ b ∷ past)).reachable ≡ b
unfolding after
three_decide true past = ground (arith, after-IsCounting past)
three_decide false past = ground (arith, after-IsCounting past)

-- A tick changes the verdict only if it is the third equal answer in a row.
flip_needs_three :
    (b : Bool) (past : List Bool)
    → (after (b ∷ past)).reachable ≢ (after past).reachable
    → Ends 3 b (b ∷ past)
unfolding after
flip_needs_three true past h = ground (arith, streak-Ends past, after-IsCounting past)
flip_needs_three false past h = ground (arith, streak-Ends past, after-IsCounting past)

-- An escalation changes no verdict, and the next miss confirms it; a frame heard first
-- clears it, so that two more misses still leave the wire reachable and the third does not.
pub escalation :
    (h : Hysteresis)
    → ((precharge h).reachable ≡ h.reachable)
      × ((observe (precharge h) false).reachable ≡ false)
      × ((observe (observe (heard (precharge h)) false) false).reachable ≡ true)
      × ((observe (observe (observe (heard (precharge h)) false) false) false).reachable ≡ false)
unfolding observe heard precharge
escalation h = ground arith

-- A miss leaves an unreachable wire unreachable.
pub miss-unreachable : (h : Hysteresis) → h.reachable ≡ false → (observe h false).reachable ≡ false
unfolding observe
miss-unreachable h r = ground (arith, r)
