-- ===== src/Prober/Hysteresis/Tests.antt =====
-- Runs of the hysteresis, and its theorems at histories (src/prober/decide.rs).
use cfab.Prelude.{◌≡◌, refl, true, false, [], ◌∷◌}
use cfab.Prober.Hysteresis.{after}

two_misses : (after (false ∷ false ∷ [])).reachable ≡ true
unfolding after
two_misses = refl

three_misses : (after (false ∷ false ∷ false ∷ [])).reachable ≡ false
unfolding after
three_misses = refl
