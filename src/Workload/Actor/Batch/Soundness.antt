-- ===== src/Workload/Actor/Batch/Soundness.antt =====
-- Which writes a batch runs (src/workload/actor.rs).
use cfab.Prelude.{◌≡◌, Bool, true, false, List, [], ◌∷◌, All, any}
use cfab.Prelude.BTreeMap.{string_ord, nat_ord, pair_ord, key_eq}
use cfab.Workload.Table.{Key}
use cfab.Workload.Kernel.{KernelNeighbors, classify}
use cfab.Workload.Actor.Batch.{Written, Drain}
use cfab.Workload.Actor.Batch.Rule.{class_for}

-- The kernel's document held no MAC for the address on the leg, and the verb is the one for what it
-- held.
abbrev pub FillsAbsence : KernelNeighbors → Written → Type 0
FillsAbsence doc w =
    (classify w.argv.leg w.argv.addr doc ≡ class_for w.argv.verb) × (w.argv.addr ≡ w.key.1)

abbrev pub is_written : Key → List Written → Bool
is_written k = any (λ w. key_eq w.key k)

-- No key is written twice.
abbrev pub Once : List Written → Type 0
Once [] = Unit
Once (w ∷ ws) = (is_written w.key ws ≡ false) × Once ws

-- What holds of the writes so far.
record IsSound (doc : KernelNeighbors) (ws : List Written) (seen : List Key) : Type 0 where
  pub fills : All (FillsAbsence doc) ws
  pub once : Once ws
  pub met : (k : Key) → is_written k ws ≡ true → any (λ j. key_eq j k) seen ≡ true

abbrev SoundDrain : KernelNeighbors → Drain → Type 0
SoundDrain doc d = IsSound doc d.written d.seen
