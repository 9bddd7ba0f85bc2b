-- ===== src/Prober/Passive/Tests.antt =====
-- The verdicts at the testbed's timers, hello 1 s and dead 3 s (src/prober/passive.rs).
use cfab.Prelude.{ℕ, ◌*◌, ◌≡◌, refl, true, false, none, some, List, [], ◌∷◌, map, any}
use cfab.Prober.Passive.{
  Windows, from_ospf, Evidence, last, good, suspect, is_good, judge, judge_all, verdicts,
}
use cfab.Prober.Passive.Standing.{is_alive, standing, verdicts-standing}

abbrev windows : Windows
windows = from_ospf 1 3

abbrev ms : ℕ → ℕ
ms n = n * 1_000_000

-- The active port heard a peer 1.6 s ago, and a backup 0.1 s ago.
abbrev silent_port : Evidence
silent_port = record { active = true; peer = some (ms 1000); reflected = none; grace_until = none }

abbrev lively_port : Evidence
lively_port = record { active = false; peer = some (ms 2500); reflected = none; grace_until = none }

abbrev leg : List Evidence
leg = silent_port ∷ lively_port ∷ []

leg_judged : verdicts (ms 2600) leg windows true ≡ suspect ∷ good ∷ []
unfolding verdicts judge_all judge is_good last from_ospf
leg_judged = refl

verdicts-standing_example :
    verdicts (ms 2600) leg windows true
    ≡ map (standing (ms 2600) windows true (any (is_alive (ms 2600) windows) leg)) leg
verdicts-standing_example = verdicts-standing (ms 2600) leg windows true
