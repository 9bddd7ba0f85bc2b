-- ===== src/Lib.antt =====
-- cfab: a verification library for the per-host runtime of the cluster network fabric.
--
-- The runtime declares a fabric, applies it to the host, and keeps it alive. The checks and the
-- derivations of the declaration are modelled here, and three of the parts that decide on their own
-- while the fabric runs.
--
-- The model (src/model.rs, src/derive.rs): the fabric as it was declared, what is asked of it before
-- it is used, and what each member makes of it.
--   Model.antt             the records, the lookups, the names of interfaces and the addresses.
--   Model/Prefix.antt      `Ipv4Prefix`.
--   Model/Checks.antt      one check after the other: the first that refuses is the result, and a
--                          check may panic, where the source expects a lookup to succeed.
--   Model/Validate.antt    `Fabric::validate`, a function for each block; Model/Rows.antt has the
--                          workload rows and the members' addresses on them, and Model/Refusals.antt
--                          names each refusal. Validate/Accepted and Rows/Sound are about what an
--                          accepted fabric has, Validate/Apart about its addresses, and the files
--                          named Calm about the lookups that the source expects to succeed.
--   Model/Decl.antt        the declaration, table by table, with its defaults (src/decl.rs).
--   Model/Resolve.antt     `Fabric::from_decl`: a declaration resolved into the model and validated.
--                          Resolve/Origin says which declared row each row of the model comes from,
--                          Resolve/Calm is about panics, and Resolve/Fits and Resolve/Names about the
--                          names of interfaces that are made up. The texts are split and read by
--                          Prelude/Text.antt and Prelude/Ipv4.antt.
--   Model/Derive.antt      the orders of a member's wires, its segment rows with their costs, its bond
--                          legs and its ingresses (src/derive.rs). Derive/Total is about the panics
--                          of the source, Derive/Ladder about the costs.
--   Model/View.antt        `View` (src/derive.rs): the fabric as one member sees it; View/Owned,
--                          View/Listed and View/Guarded are about the interfaces that may forward. Vectors are sorted
--                          and merged by Prelude/Sorting.antt.
--   Model/Derived.antt     `validate_derived`; Model/Paths.antt has its last check, which counts the
--                          shortest paths between members. Its search is given as many rounds as
--                          there are edges and two more, which are enough (Paths/Ends.antt).
--                          Sums of costs wrap at 32 bits; Paths/Exact is the search without a bound,
--                          Paths/Bounded says where the two are the same, and Paths/Shortest and
--                          Paths/Once are about its distances and its counts, which are not cut.
--
-- The workload path (src/workload): a relay and a scan claim (row, address) pairs for workloads; the
-- neighbor write table keeps the claims and the order in which they wait, and a flush actor drains it.
--   Workload/Cap.antt      what one row may claim, and for how long (src/workload/table.rs).
--   Workload/Table.antt    `NeighborTable` (src/workload/table.rs). A method runs whole under the
--                          mutex, so it is a function on `Inner`; the maps are ordered association
--                          lists (Prelude/BTreeMap.antt). The children prove its invariant (Valid),
--                          admission (Admission, Rows), drain (Drain, Departures) and retries (Retry).
--   Workload/Relay.antt    what the DHCP relay does with one packet (src/workload/relay.rs): the
--                          parser, `forward_client`, `forward_server` and `ack_discovery`.
--   Workload/Bucket.antt   the token bucket that bounds what the flush actor spends
--                          (src/workload/actor.rs). The loop that refills it has at most as many
--                          rounds as tokens are missing.
--   Workload/Kernel.antt   one read of the kernel's neighbors, its classes, and the calls of `ip`
--                          (src/workload/actor.rs, src/workload/writer.rs). `serde_json` is an
--                          argument.
--   Workload/Actor.antt    `FlushActor` (src/workload/actor.rs): its state and notes; Actor/Batch has
--                          `run_batch`, Actor/Publish `publish`, and Actor/Sweep `sweep`, `step` and
--                          `run`. Workload/Report.antt is what is published. The shared table is
--                          part of the state, what the relays claim between two calls of it is given
--                          to the rounds, and so is what each call of `ip` returns. A batch handles at
--                          most 31 entries; the wait for tokens is given its rounds, of which two are
--                          enough (Actor/Waits.antt).
--
-- The supervisor (src/supervisor) keeps the runtime's daemons alive.
--   Supervisor/Child.antt  `Child` (src/supervisor/child.rs), and in Supervisor/Child/Life.antt what
--                          `launch` and the stop sequence (src/supervisor/mod.rs) do to one.
--
-- The prober (src/prober): for each leg of a bond it asks or hears, over every wire, whether the far
-- side is there, and moves the bond to the best wire that works.
--   Prober/Hysteresis.antt `Hysteresis` (src/prober/decide.rs): three equal answers decide.
--   Prober/Decide.antt     `decide` (src/prober/decide.rs): the port that a bond should be on.
--   Prober/Passive.antt    `verdicts` (src/prober/passive.rs): what silence on one port means.
--   Prober/Frame.antt      the two frames, byte for byte (src/prober/frame.rs).
--   Prober/Bpf.antt        the kernel filter and its interpreter (src/prober/bpf.rs).
--   Prober/Leg.antt        `ProbePort` and `Leg` (src/prober/mod.rs): Leg/Port and Leg/State are what
--                          is kept; Leg/Receive and Leg/Judge are the two halves of `Leg::observe`,
--                          Leg/Ask and Leg/Actuate the methods of those names, Leg/Tick the tick. What
--                          the system answers during a tick (sysfs, netlink, the taps, the engine's
--                          neighbours) is a record of functions, `World`, the parameter of each; the
--                          journal's lines and the probes that are sent are results. Leg/Carries says
--                          what each part keeps of each port, and the others prove from it what a
--                          whole tick does (Condemned, Moves, Repeats, Asking, Held).
--   Prober/Build.antt      `Prober` (src/prober/mod.rs): the legs that a `View` gives, and the tick of
--                          all; Build/Peers, Build/Asked and Build/Built are about whom they ask and hear.
--   Prober/Report.antt     the rows that the prober publishes.
-- The verdicts and the hysteresis say which ports are reachable, `decide` chooses among them, the
-- frames are what they are told by, and the filter decides which frames the parsers ever see.
--
-- Numbers: integers are natural numbers; where the source saturates or converts, the bound is written
-- out. A subtraction stops at 0, and stands only where the source saturates or cannot go below.
-- Durations and instants are nanoseconds (Prelude/Time.antt); the clock is an argument. Bytes are
-- numbers (Prelude/Bytes.antt). The interpreter of the filter keeps the source's budget of 4096
-- instructions; the program has nine and only jumps forward. The scan of DHCP options has one round per
-- byte of the option area, and more rounds find the same (Workload/Relay/Options.antt).
--
-- Not modelled: the sockets, sysfs and netlink behind the prober, the text of the journal, the
-- counters' wrap-around, the reading of the declaration file (toml and serde), the relay's
-- serving loop, the rest of the supervisor, the emitters and the commands.
pub mod Prelude
pub mod Prober
pub mod Workload
pub mod Supervisor
pub mod Model
