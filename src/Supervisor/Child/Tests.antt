-- ===== src/Supervisor/Child/Tests.antt =====
-- One life of the engine (src/supervisor/child.rs).
use cfab.Prelude.{◌≡◌, refl, true, List, [], ◌∷◌, arith}
use cfab.Prelude.Time.{from_secs}
use cfab.Supervisor.Child.{
  restarting, Text, new, spawned, exited, became_ready, cut, boundary_from, is_char_boundary,
  slice_to, push_log,
}
use cfab.Supervisor.Child.Life.{
  Event, launches, dies, ready, logs, react, live, IsSane, live-new-IsSane,
}
use cfab.Supervisor.Child.Log.{newest, push_all, AllLongest, ring_is_newest}

abbrev line : Text
line = record { code = 104; width = 1 } ∷ record { code = 105; width = 1 } ∷ []

abbrev events : List Event
events = launches 10 (from_secs 1) true ∷ ready ∷ logs line ∷ dies "exit 0" (from_secs 5) ∷ []

ended : (live (new "engine") events).state ≡ restarting
unfolding live react spawned became_ready push_log exited
ended = refl

live-new-IsSane_example : IsSane (live (new "engine") events)
live-new-IsSane_example = live-new-IsSane "engine" events

ring_is_newest_example :
    (kept : List Text) × ((push_all (line ∷ line ∷ []) (new "engine")).log ≡ newest 200 kept)
    × AllLongest 2048 (line ∷ line ∷ []) kept
ring_is_newest_example =
    ring_is_newest (line ∷ line ∷ []) (new "engine") refl
      ((omega arith, (omega arith, tt)), ((omega arith, (omega arith, tt)), tt))

-- A character of three bytes, of which two fit.
abbrev wide : Text
wide = record { code = 104; width = 1 } ∷ record { code = 8364; width = 3 } ∷ []

cut_before : cut 3 wide ≡ record { code = 104; width = 1 } ∷ []
unfolding cut boundary_from is_char_boundary slice_to
cut_before = refl
