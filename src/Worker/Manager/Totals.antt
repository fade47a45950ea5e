-- ===== src/Worker/Manager/Totals.antt =====
-- What the runs of `WorkerManager` keep of the jobs that the worker holds: a sum over the queue and
-- over the jobs that are being processed.
use trapchat.Prelude.{
  ℕ, ◌+◌, ◌≡◌, ap, inl, inr, some, arith, get_elem?, sum_by, sum_by-middle, sum_by-set,
}
use trapchat.Worker.Queue.{Job}
use trapchat.Worker.Queue.Order.{dequeue-GivesFirst}
use trapchat.Worker.Manager.{Manager, Loop, working, sleeping, ended, poll}

module _ {D : Type 0} (w : Job D → ℕ) where
  abbrev pub load : Loop D → ℕ
  load (working j) = w j
  load (sleeping t) = 0
  load ended = 0

module _ {D R : Type 0} (w : Job D → ℕ) where
  -- Over the queue and the jobs in work.
  abbrev pub total : Manager D R → ℕ
  total m = sum_by w m.queue.items + sum_by (load w) m.loops

  -- A run of the inner loop moves a job from the queue into work, or goes to sleep.
  pub total-poll :
      (m : Manager D R) (i now : ℕ) (l : Loop D)
      → get_elem? m.loops i ≡ some l
      → total (poll m i now) + load w l ≡ total m
  unfolding poll
  total-poll m i now l h = elim (dequeue-GivesFirst m.queue now) [
    | inl (e, _) ↦
        rw (e, poll) (omega (arith, sum_by-set (load w) m.loops i l (sleeping m.next_timer) h))
    | inr (b, j, a, e, _, _, f) ↦
        rw (f, poll)
          (omega (
            arith,
            sum_by-set (load w) m.loops i l (working j) h,
            sum_by-middle w b a j,
            ap (sum_by w) e,
          ))
  ]
