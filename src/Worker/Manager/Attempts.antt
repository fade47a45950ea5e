-- ===== src/Worker/Manager/Attempts.antt =====
-- How often services/worker/src/manager.js tries a job, and that its inner loop ends.
use trapchat.Prelude.{
  ℕ, ◌<◌, ◌≡◌, subst, inl, inr, false, true, Option, none, some, List, [], ◌∷◌, ◌++◌, arith, map,
  if◌then◌else◌, Bool, ◌==◌, All, All-append, All-left, All-right, All-get_elem?, All-set, All-drop,
  All-map,
}
use trapchat.Worker.Queue.{Job, Queue, DeadLetter, new_job, enqueue, dead_letter, failed}
use trapchat.Worker.Queue.DeadLetters.{evict-drop}
use trapchat.Worker.Queue.Order.{dequeue-GivesFirst}
use trapchat.Worker.Manager.{
  Manager, Loop, working, sleeping, ended, clear_timer, fail_job, poll, start, stop,
}
use trapchat.Worker.Manager.Failure.{fail_job-FailsAs}
use trapchat.Worker.Manager.Events.{
  Event, starts, stops, settles, fires, submits, step, run, start_cases, settle_cases, fire_cases,
}

module _ {D : Type 0} where
  -- A job that may still be tried.
  abbrev pub HasTries : Job D → Type 0
  HasTries j = j.attempts < j.max_attempts

  abbrev pub LoopHasTries : Loop D → Type 0
  LoopHasTries (working j) = HasTries j
  LoopHasTries (sleeping t) = Unit
  LoopHasTries ended = Unit

-- A dead letter's job was tried exactly as often as it may be.
abbrev pub UsedUp : DeadLetter → Type 0
UsedUp d = d.attempts ≡ d.max_attempts

pub record QueueIsValid {D : Type 0} (q : Queue D) : Type 0 where
  pub items : All HasTries q.items
  pub letters : All UsedUp q.dead_letters

pub record IsValid {D R : Type 0} (m : Manager D R) : Type 0 where
  pub queue : QueueIsValid m.queue
  pub loops : All LoopHasTries m.loops

module _ {D : Type 0} where
  fail_job-QueueIsValid :
      (q : Queue D) (j : Job D) (now : ℕ)
      → HasTries j
      → QueueIsValid q
      → QueueIsValid (fail_job q j now)
  unfolding failed dead_letter
  fail_job-QueueIsValid q j now tries v = elim (fail_job-FailsAs q j now) [
    | inl (last, e) ↦ rw e (record {
      items = v.items;
      letters =
          rw evict-drop
            (All-drop UsedUp _ _ (All-append UsedUp q.dead_letters _ v.letters (omega arith, tt)));
    })
    | inr (more, e) ↦
        rw e
          (record { items = All-append HasTries q.items _ v.items (more, tt); letters = v.letters })
  ]

  clear_timer-LoopHasTries : (t : ℕ) (l : Loop D) → LoopHasTries l → LoopHasTries (clear_timer t l)
  unfolding clear_timer
  clear_timer-LoopHasTries t (working j) h = h
  clear_timer-LoopHasTries t (sleeping u) h = by_test (u == t)
    where
      by_test : (b : Bool) → LoopHasTries {D = D} (if b then ended else sleeping u)
      by_test true = tt
      by_test false = tt
  clear_timer-LoopHasTries t ended h = h

module _ {D R : Type 0} where
  poll-IsValid : (m : Manager D R) (i now : ℕ) → IsValid m → IsValid (poll m i now)
  unfolding poll
  poll-IsValid m i now v = elim (dequeue-GivesFirst m.queue now) [
    | inl (e, _) ↦
        rw (e, poll)
          (record { queue = v.queue; loops = All-set LoopHasTries m.loops i _ v.loops tt })
    | inr (b, j, a, e, _, _, f) ↦
        let all : All HasTries (b ++ j ∷ a) = subst (All HasTries) e v.queue.items in
        let after = All-right HasTries b (j ∷ a) all in
        rw (f, poll)
          (record {
            queue = record {
              items = All-append HasTries b a (All-left HasTries b (j ∷ a) all) after.1;
              letters = v.queue.letters;
            };
            loops = All-set LoopHasTries m.loops i _ v.loops after.0;
          })
  ]

  start-IsValid : (m : Manager D R) (now : ℕ) → IsValid m → IsValid (start m now)
  start-IsValid m now v = start_cases IsValid m now v (
      poll-IsValid _ _ now (record {
        queue = v.queue;
        loops = All-append LoopHasTries m.loops (ended ∷ []) v.loops (tt, tt);
      }))

  stop-IsValid : (m : Manager D R) → IsValid m → IsValid (stop m)
  unfolding stop
  stop-IsValid m v = go m.timer
    where
      go :
          (t : Option ℕ)
          → IsValid (elim t [
            | none ↦ record m { running = false }
            | some t ↦ record m {
              running = false;
              timer = none;
              loops = map (clear_timer t) m.loops;
            }
          ])
      go none = record { queue = v.queue; loops = v.loops }
      go (some t) = record {
        queue = v.queue;
        loops = All-map LoopHasTries (clear_timer t) (clear_timer-LoopHasTries t) m.loops v.loops;
      }

  -- Every event keeps a worker's jobs valid: a job that is queued or in work has a try left, and
  -- one that is dead has used exactly all of its tries.
  pub manager_step-IsValid : (m : Manager D R) (e : Event D R) → IsValid m → IsValid (step m e)
  unfolding step enqueue new_job
  manager_step-IsValid m (starts now) v = start-IsValid m now v
  manager_step-IsValid m stops v = stop-IsValid m v
  manager_step-IsValid m (settles i out now) v =
      settle_cases IsValid m i out now v
        (λ j r e. poll-IsValid _ i now (record { queue = v.queue; loops = v.loops }))
        (λ j e. poll-IsValid _ i now (record {
          queue =
              fail_job-QueueIsValid m.queue j now (All-get_elem? LoopHasTries m.loops i v.loops e)
                v.queue;
          loops = v.loops;
        }))
  manager_step-IsValid m (fires i now) v =
      fire_cases IsValid m i now v (λ t e. poll-IsValid m i now v)
        (λ t e. record { queue = v.queue; loops = All-set LoopHasTries m.loops i ended v.loops tt })
  manager_step-IsValid m (submits id type d now) v = record {
    queue = record {
      items = All-append HasTries m.queue.items _ v.queue.items (omega arith, tt);
      letters = v.queue.letters;
    };
    loops = v.loops;
  }

  manager_run-IsValid : (m : Manager D R) (es : List (Event D R)) → IsValid m → IsValid (run m es)
  unfolding run
  manager_run-IsValid m [] v = v
  manager_run-IsValid m (e ∷ es) v = manager_run-IsValid (step m e) es (manager_step-IsValid m e v)
