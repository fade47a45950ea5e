-- ===== src/Worker/Manager/Drain.antt =====
-- The inner loop of services/worker/src/manager.js ends, whatever the jobs come to and whatever the
-- clock says; and how `stop` and `start` treat a loop that is at work.
use trapchat.Prelude.{
  ℕ, zero, suc, ◌+◌, ◌-◌, ◌≤◌, ◌<◌, ◌≡◌, refl, inl, inr, Option, none, some, [], ◌∷◌, ◌++◌, arith,
  get_elem?, sum_by, sum_by-append, All-get_elem?,
}
use trapchat.Worker.Queue.{Job, Queue, failed}
use trapchat.Worker.Manager.{
  Manager, Loop, working, sleeping, ended, Outcome, done, threw, fail_job, backoff, settle,
}
use trapchat.Worker.Manager.Totals.{total, total-poll}
use trapchat.Worker.Manager.Failure.{fail_job-FailsAs, retried}
use trapchat.Worker.Manager.Events.{settles, step}
use trapchat.Worker.Manager.Attempts.{HasTries, LoopHasTries, IsValid, manager_step-IsValid}

module _ {D : Type 0} where
  -- The tries that a job has left.
  abbrev pub tries : Job D → ℕ
  tries j = j.max_attempts - j.attempts

  tries-fail_job :
      (q : Queue D) (j : Job D) (now : ℕ)
      → HasTries j
      → sum_by tries (fail_job q j now).items + 1 ≤ sum_by tries q.items + tries j
  unfolding failed
  tries-fail_job q j now h = elim (fail_job-FailsAs q j now) [
    | inl (_, e) ↦ rw e (omega arith)
    | inr (_, e) ↦ rw e (
        omega
          (arith, sum_by-append tries q.items (retried j (now + backoff (j.attempts + 1)) ∷ [])))
  ]

  abbrev pub IsWorking : Option (Loop D) → Type 0
  IsWorking (some (working j)) = Unit {0}
  IsWorking (some (sleeping t)) = ⊥
  IsWorking (some ended) = ⊥
  IsWorking none = ⊥

module _ {D R : Type 0} where
  -- All the tries that are left to the worker's jobs.
  abbrev pub budget : Manager D R → ℕ
  budget m = total tries m

  -- The end of a job uses up a try.
  pub budget-settle :
      (m : Manager D R) (i : ℕ) (j : Job D) (out : Outcome R) (now : ℕ)
      → IsValid m
      → get_elem? m.loops i ≡ some (working j)
      → budget (settle m i out now) < budget m
  unfolding settle
  budget-settle m i j (done r) now v e =
      rw (e, settle)
        (omega (
          arith,
          total-poll tries (record m { results = m.results ++ (j, r) ∷ [] }) i now (working j) e,
          All-get_elem? LoopHasTries m.loops i v.loops e,
        ))
  budget-settle m i j threw now v e =
      let h : HasTries j = All-get_elem? LoopHasTries m.loops i v.loops e in
      rw (e, settle)
        (omega (
          arith,
          total-poll tries (record m { queue = fail_job m.queue j now }) i now (working j) e,
          tries-fail_job m.queue j now h,
        ))

  -- Loop `i` with nothing else going on: one job after another comes to its end, as `outs` says,
  -- until the loop has no job at hand.
  pub drain : ℕ → Manager D R → ℕ → (ℕ → Job D → Outcome R) → (ℕ → ℕ) → Manager D R
  drain zero m i outs clock = m
  drain (suc fuel) m i outs clock = elim (get_elem? m.loops i) [
    | some (working j) ↦ drain fuel (settle m i (outs fuel j) (clock fuel)) i outs clock
    | _ ↦ m
  ]

  -- The inner loop of a worker whose jobs are valid ends: after at most as many jobs as there are
  -- tries left, the loop is at no job any more, for every outcome of every job and every clock.
  pub drain_ends :
      (fuel : ℕ) (m : Manager D R) (i : ℕ) (outs : ℕ → Job D → Outcome R) (clock : ℕ → ℕ)
      → IsValid m
      → budget m ≤ fuel
      → ¬ IsWorking (get_elem? (drain fuel m i outs clock).loops i)
  unfolding drain step
  drain_ends zero m i outs clock v b = go (get_elem? m.loops i) refl
    where
      go : (l : Option (Loop D)) → get_elem? m.loops i ≡ l → ¬ IsWorking l
      go none e = λ w. w
      go (some (sleeping t)) e = λ w. w
      go (some ended) e = λ w. w
      go (some (working j)) e = λ w. absurd (omega (arith, budget-settle m i j threw 0 v e))
  drain_ends (suc fuel) m i outs clock v b = go (get_elem? m.loops i) refl (λ j e.
      drain_ends fuel (settle m i (outs fuel j) (clock fuel)) i outs clock
        (manager_step-IsValid m (settles i (outs fuel j) (clock fuel)) v)
        (omega (arith, budget-settle m i j (outs fuel j) (clock fuel) v e)))
    where
      after : Job D → Manager D R
      after j = drain fuel (settle m i (outs fuel j) (clock fuel)) i outs clock

      go :
          (l : Option (Loop D))
          → get_elem? m.loops i ≡ l
          → ((j : Job D)
              → get_elem? m.loops i ≡ some (working j)
              → ¬ IsWorking (get_elem? (after j).loops i))
          → let m' : Manager D R = elim l [ some (working j) ↦ after j | _ ↦ m ] in
            ¬ IsWorking (get_elem? m'.loops i)
      go none e ih = rw e (λ w. w)
      go (some (sleeping t)) e ih = rw e (λ w. w)
      go (some ended) e ih = rw e (λ w. w)
      go (some (working j)) e ih = ih j e
