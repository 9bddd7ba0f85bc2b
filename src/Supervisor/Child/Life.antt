-- ===== src/Supervisor/Child/Life.antt =====
-- The life of a child under the supervisor: `Child` of src/supervisor/child.rs, and what `launch`
-- and the stop sequence of src/supervisor/mod.rs do to it.
use Prim.Native.String.{String}
use cfab.Prelude.{
  ℕ, ◌+◌, ◌≡◌, refl, ◌⊎◌, inl, Bool, true, false, List, [], ◌∷◌, Option, none, some, arith, All,
  if-both,
}
use cfab.Supervisor.Child.{
  State, starting, running, restarting, stopped, Text, Child, new, exited, spawned, ready_state,
  became_ready, push_log,
}

-- What happens to a child. `launches` is a spawn that succeeded, `fails` one that did not, and
-- `unwanted` the stop sequence's `want = false`.
pub data Event : Type 0 where
  launches : (pid now : ℕ) → (needs_readiness : Bool) → Event
  fails dies : (cause : String) → (now : ℕ) → Event
  ready unwanted : Event
  logs : Text → Event

-- `launch` sets `want` before it spawns.
unfoldable pub react : Child → Event → Child × Option ℕ
react c (launches pid now needs_readiness) =
    (spawned pid now needs_readiness (record c { want = true }), none)
react c (fails cause now) = exited cause now (record c { want = true })
react c (dies cause now) = exited cause now c
react c ready = (became_ready c, none)
react c unwanted = (record c { want = false }, none)
react c (logs line) = (push_log line c, none)

unfoldable pub live : Child → List Event → Child
unfolding react
live c [] = c
live c (e ∷ es) = live (react c e).0 es

-- The state agrees with the rest: a process is there exactly while the child starts or runs, it has
-- a start then, and a child that waits for its restart, or was seen to die, says of what.
abbrev pub Agrees : State → Option ℕ → Option ℕ → Option String → Option ℕ → Type 0
Agrees starting (some p) (some t) cause at = Unit
Agrees running (some p) (some t) cause at = Unit
Agrees restarting none none (some cause) (some at) = Unit
Agrees stopped none none cause at = Unit
Agrees _ _ _ _ _ = ⊥

abbrev pub IsSane : Child → Type 0
IsSane c = Agrees c.state c.pid c.started_at c.last_exit c.exited_at

spawned-IsSane : (pid now : ℕ) (r : Bool) (c : Child) → IsSane (spawned pid now r c)
unfolding spawned
spawned-IsSane pid now true c = tt
spawned-IsSane pid now false c = tt

exited-IsSane : (cause : String) (now : ℕ) (c : Child) → IsSane (exited cause now c).0
unfolding exited
exited-IsSane cause now c = if-both (λ (p : Child × Option ℕ). IsSane p.0) c.want _ _ tt tt

ready_state-Agrees :
    (s : State) (p t : Option ℕ) (cause : Option String) (at : Option ℕ)
    → Agrees s p t cause at
    → Agrees (ready_state s) p t cause at
ready_state-Agrees starting none t cause at a = absurd a
ready_state-Agrees starting (some p) none cause at a = absurd a
ready_state-Agrees starting (some p) (some t) cause at a = tt
ready_state-Agrees running p t cause at a = a
ready_state-Agrees restarting p t cause at a = a
ready_state-Agrees stopped p t cause at a = a

react-IsSane : (c : Child) (e : Event) → IsSane c → IsSane (react c e).0
unfolding react became_ready push_log
react-IsSane c (launches pid now r) a = spawned-IsSane pid now r (record c { want = true })
react-IsSane c (fails cause now) a = exited-IsSane cause now (record c { want = true })
react-IsSane c (dies cause now) a = exited-IsSane cause now c
react-IsSane c ready a = ready_state-Agrees c.state c.pid c.started_at c.last_exit c.exited_at a
react-IsSane c unwanted a = a
react-IsSane c (logs line) a = a

live-IsSane : (c : Child) (es : List Event) → IsSane c → IsSane (live c es)
unfolding live
live-IsSane c [] a = a
live-IsSane c (e ∷ es) a = live-IsSane (react c e).0 es (react-IsSane c e a)

-- Whatever happens to a new child, its state agrees with the rest: it has a process, and the start of
-- one, exactly while it starts or runs, and while it waits for its restart the cause and the instant
-- of its death are there.
pub live-new-IsSane : (name : String) (es : List Event) → IsSane (live (new name) es)
live-new-IsSane name es = live-IsSane (new name) es tt

-- How many respawns were scheduled on the way.
abbrev pub one_if_some : Option ℕ → ℕ
one_if_some none = 0
one_if_some (some t) = 1

pub scheduled : Child → List Event → ℕ
unfolding react
scheduled c [] = 0
scheduled c (e ∷ es) = one_if_some (react c e).1 + scheduled (react c e).0 es

react-restarts :
    (c : Child) (e : Event) → (react c e).0.restarts ≡ c.restarts + one_if_some (react c e).1
unfolding react spawned exited became_ready push_log
react-restarts c (launches pid now r) = omega arith
react-restarts c (fails cause now) = omega arith
react-restarts c (dies cause now) = ground arith
react-restarts c ready = omega arith
react-restarts c unwanted = omega arith
react-restarts c (logs line) = omega arith

-- The counter of restarts counts every respawn that was scheduled, and is never reset.
pub live-restarts :
    (c : Child) (es : List Event) → (live c es).restarts ≡ c.restarts + scheduled c es
unfolding live scheduled
live-restarts c [] = omega arith
live-restarts c (e ∷ es) = omega (arith, live-restarts (react c e).0 es, react-restarts c e)

-- An event that starts no process.
abbrev pub IsQuiet : Event → Type 0
IsQuiet (launches pid now r) = ⊥
IsQuiet (fails cause now) = Unit
IsQuiet (dies cause now) = Unit
IsQuiet ready = Unit
IsQuiet unwanted = Unit
IsQuiet (logs line) = Unit

abbrev pub IsDown : Child → Type 0
IsDown c = (c.pid ≡ none) × ((c.state ≡ restarting) ⊎ (c.state ≡ stopped))

react-IsDown : (c : Child) (e : Event) → IsQuiet e → IsDown c → IsDown (react c e).0
unfolding react exited became_ready push_log
react-IsDown c (launches pid now r) q d = absurd q
react-IsDown c (fails cause now) q d = (refl, inl refl)
react-IsDown c (dies cause now) q d = ground arith
react-IsDown c ready q d = ground arith
react-IsDown c unwanted q d = d
react-IsDown c (logs line) q d = d

-- Only a launch brings a child back: one that is down stays down through everything else, a late
-- answer that it is ready included.
pub only_launch_revives :
    (c : Child) (es : List Event) → All IsQuiet es → IsDown c → IsDown (live c es)
unfolding live
only_launch_revives c [] q d = d
only_launch_revives c (e ∷ es) q d =
    only_launch_revives (react c e).0 es q.1 (react-IsDown c e q.0 d)
