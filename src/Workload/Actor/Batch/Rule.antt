-- ===== src/Workload/Actor/Batch/Rule.antt =====
-- The rules of the drain: what holds of every way an entry is handled holds of the loop
-- (src/workload/actor.rs).
use cfab.Prelude.{
  ℕ, zero, suc, ◌≡◌, refl, inl, inr, Bool, true, false, Option, none, some, Option-cases, if-cases,
}
use cfab.Workload.Table.{Taken}
use cfab.Workload.Bucket.{Bucket, spend}
use cfab.Workload.Kernel.{KernelNeighbors, Class, WriteVerb, classify}
use cfab.Workload.Actor.{Why}
use cfab.Workload.Actor.Batch.{
  Round, Drain, failure, see, back, pay, fork, skip_past, settle_write, attempt, sort_out, is_seen,
  handle, take_for, drain,
}

-- The class that calls for a verb.
abbrev pub class_for : WriteVerb → Class
class_for WriteVerb.add = Class.add
class_for WriteVerb.replace = Class.replace

module _ (P : Drain → Type 0) where
  attempt-rule :
      (verb : WriteVerb) (t : Taken) (r : Round) (d : Drain)
      → ((b : Bucket) → P (back t (pay b d)))
      → ((b : Bucket)
          → P (settle_write t (failure r.write_ran) (fork verb t r.write_ran (pay b d))))
      → P (attempt verb t r d).0
  unfolding attempt
  attempt-rule verb t r d unpaid written =
      if-cases (λ (x : Drain × Bool). P x.0) (spend r.spend_at d.actor.bucket).1 _ _
        (λ _. written (spend r.spend_at d.actor.bucket).0)
        (λ _. unpaid (spend r.spend_at d.actor.bucket).0)

  sort_out-rule :
      (c : Class) (t : Taken) (r : Round) (d : Drain)
      → (c ≡ Class.skip → P (skip_past t d))
      → ((b : Bucket) → P (back t (pay b d)))
      → ((verb : WriteVerb) (b : Bucket)
          → c ≡ class_for verb
          → P (settle_write t (failure r.write_ran) (fork verb t r.write_ran (pay b d))))
      → P (sort_out c t r d).0
  unfolding sort_out
  sort_out-rule Class.skip t r d skipped unpaid written = skipped refl
  sort_out-rule Class.add t r d skipped unpaid written =
      attempt-rule WriteVerb.add t r d unpaid λ b. written WriteVerb.add b refl
  sort_out-rule Class.replace t r d skipped unpaid written =
      attempt-rule WriteVerb.replace t r d unpaid λ b. written WriteVerb.replace b refl

  -- An entry was met before in this batch, the kernel has it, the bucket is empty, or its write
  -- was run.
  pub handle-rule :
      (doc : KernelNeighbors) (t : Taken) (r : Round) (d : Drain)
      → (is_seen t d ≡ true → P (back t d))
      → (is_seen t d ≡ false → classify t.leg t.addr doc ≡ Class.skip → P (skip_past t (see t d)))
      → ((b : Bucket) → is_seen t d ≡ false → P (back t (pay b (see t d))))
      → ((verb : WriteVerb) (b : Bucket)
          → is_seen t d ≡ false
          → classify t.leg t.addr doc ≡ class_for verb
          → P (settle_write t (failure r.write_ran) (fork verb t r.write_ran (pay b (see t d)))))
      → P (handle doc t r d).0
  unfolding handle
  handle-rule doc t r d again skipped unpaid written =
      if-cases (λ (x : Drain × Bool). P x.0) (is_seen t d) _ _ again
        λ new.
          sort_out-rule (classify t.leg t.addr doc) t r (see t d) (skipped new) (λ b. unpaid b new)
            λ verb b. written verb b new

  pub settle_write-rule :
      (t : Taken) (o : Option Why) (d : Drain)
      → (o ≡ none → P (settle_write t none d))
      → ((why : Why) → P (settle_write t (some why) d))
      → P (settle_write t o d)
  settle_write-rule t none d done undone = done refl
  settle_write-rule t (some why) d done undone = undone why

  pub drain-rule :
      (doc : KernelNeighbors) (world : ℕ → Round)
      → ((i : ℕ) (d : Drain) → P d → (take_for (world i) d).1 ≡ none → P (take_for (world i) d).0)
      → ((i : ℕ) (d : Drain) (t : Taken)
          → P d
          → (take_for (world i) d).1 ≡ some t
          → P (handle doc t (world i) (take_for (world i) d).0).0)
      → (left : ℕ) (d : Drain) → P d
      → P (drain left doc world d)
  unfolding drain
  drain-rule doc world ended handled zero d p = p
  drain-rule doc world ended handled (suc left) d p =
      elim (Option-cases (take_for (world left) d).1) [
        | inl e ↦ rw (e, drain) (ended left d p e)
        | inr (t, e) ↦
            let d' = (take_for (world left) d).0 in
            let p' = handled left d t p e in
            rw (e, drain)
              (if-cases P (handle doc t (world left) d').1 _ _
                (λ _. drain-rule doc world ended handled left (handle doc t (world left) d').0 p')
                (λ _. p'))
      ]
