-- ===== src/Supervisor/Child.antt =====
-- One supervised child process: the pure state machine of src/supervisor/child.rs. The counter of
-- restarts does not wrap; a log line is the list of its characters, each with its length in bytes.
pub mod Cut
pub mod Life
pub mod Log
mod Tests
use Prim.Native.String.{String}
use cfab.Prelude.{
  ℕ, zero, suc, ◌+◌, ◌-◌, ◌/◌, Bool, true, false, List, [], ◌∷◌, ◌++◌, Option, none, some, ltb, leb,
  ◌==◌, ◌&&◌, not, min, if◌then◌else◌, length, drop,
}
use cfab.Prelude.Time.{from_secs}

-- `BACKOFF`.
abbrev pub backoff : ℕ
backoff = from_secs 2

abbrev pub log_lines : ℕ
log_lines = 200

abbrev pub log_line_max : ℕ
log_line_max = 2048

pub data State : Type 0 where
  starting running restarting stopped : State

-- A character of a line: its code, and how many bytes it takes.
pub record Glyph : Type 0 where
  pub code : ℕ
  pub width : ℕ

abbrev pub Text : Type 0
Text = List Glyph

pub record Child : Type 0 where
  pub name : String
  pub state : State
  pub want : Bool
  pub restarts : ℕ
  pub why_stopped : Option String
  pub pid : Option ℕ
  pub started_at : Option ℕ
  pub last_exit : Option String
  pub exited_at : Option ℕ
  pub log : List Text

-- `Child::new`.
abbrev pub new : String → Child
new name = record {
  name = name;
  state = stopped;
  want = false;
  restarts = 0;
  why_stopped = none;
  pid = none;
  started_at = none;
  last_exit = none;
  exited_at = none;
  log = [];
}

-- `Child::stopped`.
abbrev pub never_run : String → String → Child
never_run name why = record (new name) { why_stopped = some why }

-- The result is the instant at which the child may be spawned again.
pub exited : String → ℕ → Child → Child × Option ℕ
exited cause now c =
    let c = record c {
      pid = none;
      started_at = none;
      last_exit = some cause;
      exited_at = some now;
    } in
    if c.want
    then (record c { state = restarting; restarts = c.restarts + 1 }, some (now + backoff))
    else (record c { state = stopped }, none)

pub spawned : ℕ → ℕ → Bool → Child → Child
spawned pid now needs_readiness c = record c {
  pid = some pid;
  started_at = some now;
  want = true;
  why_stopped = none;
  state = if needs_readiness then starting else running;
}

abbrev pub ready_state : State → State
ready_state starting = running
ready_state s = s

pub became_ready : Child → Child
became_ready c = record c { state = ready_state c.state }

-- `exit_cause`, with its age in seconds.
abbrev pub aged : ℕ → Option String → Option ℕ → Option (String × ℕ)
aged now none at = none
aged now (some cause) none = none
aged now (some cause) (some at) = some (cause, (now - at) / 1000000000)

-- `Child::last_exit`.
pub exit_cause : ℕ → Child → Option (String × ℕ)
exit_cause now c = aged now c.last_exit c.exited_at

abbrev pub since : ℕ → Option ℕ → Option ℕ
since now none = none
since now (some t) = some ((now - t) / 1000000000)

pub uptime_s : ℕ → Child → Option ℕ
uptime_s now c = since now c.started_at

abbrev pub width_of : Text → ℕ
width_of [] = 0
width_of (g ∷ t) = g.width + width_of t

-- `is_char_boundary`: the index is 0, or where a character ends.
unfoldable pub is_char_boundary : Text → ℕ → Bool
is_char_boundary [] end = end == 0
is_char_boundary (g ∷ t) end =
    let later = is_char_boundary t (end - g.width) in
    if end == 0 then true else leb g.width end && later

-- The loop: back from `end` to a boundary.
unfoldable pub boundary_from : Text → ℕ → ℕ
unfolding is_char_boundary
boundary_from line zero = zero
boundary_from line (suc end) =
    let rest = boundary_from line end in
    if not (is_char_boundary line (suc end)) then rest else suc end

-- `line[..end]`, at a boundary.
unfoldable pub slice_to : ℕ → Text → Text
slice_to end [] = []
slice_to end (g ∷ t) = let rest = slice_to (end - g.width) t in if end == 0 then [] else g ∷ rest

-- The line up to the last boundary in its first `most` bytes.
unfoldable pub cut : ℕ → Text → Text
unfolding boundary_from slice_to
cut most line = slice_to (boundary_from line (min (width_of line) most)) line

abbrev pub pop_front : List Text → List Text
pop_front [] = []
pop_front (l ∷ ls) = ls

pub push_log : Text → Child → Child
unfolding cut
push_log line c =
    let log = if length c.log == log_lines then pop_front c.log else c.log in
    record c { log = log ++ (cut log_line_max line ∷ []) }

pub log_tail : ℕ → Child → List Text
log_tail n c = drop (length c.log - n) c.log
