-- ===== src/Workload/Actor/Sweep/Touched.antt =====
-- What a whole sweep does to the table (src/workload/actor.rs).
use Prim.Native.String.{String}
use mathlib.Core.Option
use cfab.Prelude.{
  Bool, ℕ, ◌≡◌, false, List, [], length, filter, Option, none, some, not, leb, if◌then◌else◌,
}
use cfab.Prelude.BTreeMap.{string_ord, nat_ord, pair_ord, get}
use cfab.Workload.Table.{Entry, Key, is_live, remove_expired}
use cfab.Workload.Table.Valid.{IsValid}
use cfab.Workload.Table.Clean.{requeued}
use cfab.Workload.Bucket.{Bucket}
use cfab.Workload.Kernel.{Element, KernelNeighbors}
use cfab.Workload.Actor.{FlushActor, Read, read, unread}
use cfab.Workload.Actor.Sweep.{Sweep, read_failed, diffed, SweepIo, sweep}

-- The document has a MAC for the address on the leg.
abbrev pub has_mac : KernelNeighbors → String → ℕ → Bool
has_mac doc leg addr = Option.get_or (get (leg, addr) doc) false

-- What the read makes of an entry: nothing if it failed; else the entry is put back if the document
-- has no MAC for it on its leg.
abbrev pub by_read : Read → ℕ → Key → Entry → Option Entry
by_read (unread why) now k e = some e
by_read (read doc) now k e = if has_mac doc e.leg k.1 then some e else requeued now (some e)

-- What is left of an entry after the sweep.
abbrev pub left_of : Read → SweepIo → Key → Option Entry → Option Entry
left_of r io k none = none
left_of r io k (some e) = if leb e.expires_at io.expire_at then none else by_read r io.now k e

-- What the sweep says: how many live entries the kernel lacked, and how many had run out.
abbrev pub reported : Read → ℕ → List (Key × Entry) → Sweep
reported (unread why) now m = read_failed
reported (read doc) now m =
    diffed
      (length
        (filter (λ (x : Key × Entry). not (has_mac doc x.1.leg x.0.1)) (filter (is_live now) m)))
      (length (filter (λ x. not (is_live now x)) m))

abbrev pub undisturbed : SweepIo → SweepIo
undisturbed io = record io { arrived = []; turns = λ _. [] }

abbrev live_only : ℕ → Option Entry → Option Entry
live_only now none = none
live_only now (some e) = if leb e.expires_at now then none else some e

module _ (read_json : String → Option (List Element)) (io : SweepIo) (a : FlushActor) (b : Bucket)
    (v : IsValid a.table) where
  abbrev expired_actor : FlushActor
  expired_actor = record a {
    table = (remove_expired io.expire_at a.table).0;
    bucket = b;
    read_failing = false;
  }

  abbrev rows : List String
  rows = (remove_expired io.expire_at a.table).1

  -- What a sweep gives for the result of the read.
  abbrev Touches : Read → Type 0
  Touches r =
      (after : FlushActor) × (sweep read_json (undisturbed io) a
        ≡ some (after, reported r io.expire_at a.table.entries))
      × ((k : Key) → get k after.table.entries ≡ left_of r io k (get k a.table.entries))
