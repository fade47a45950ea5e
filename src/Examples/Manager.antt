-- ===== src/Examples/Manager.antt =====
-- The theorems on services/worker/src/queue.js and manager.js at concrete queues.
use trapchat.Prelude.{
  is_some, get_elem?, ℕ, ◌+◌, ◌≤◌, ◌≡◌, refl, true, none, some, [], ◌∷◌, arith, get_elem?,
}
use trapchat.Worker.Queue.{
  Job, Queue, undefined, text, object, new_job, is_eligible, splice_first, dequeue, error_summary,
}
use trapchat.Worker.Queue.Order.{GivesFirst, dequeue-GivesFirst}
use trapchat.Worker.Manager.{Manager, working, threw, backoff, start, stop}
use trapchat.Worker.Manager.Events.{settles, step}
use trapchat.Worker.Manager.Conservation.{held, submitted, held-step}
use trapchat.Worker.Manager.Attempts.{IsValid, manager_step-IsValid}
use trapchat.Worker.Manager.Drain.{drain, drain_ends, IsWorking}
use trapchat.Worker.Shutdown.{Process, shutdown, force_due}
use trapchat.Worker.Shutdown.InTime.{after, signals, exits_in_time}
use trapchat.Worker.Manager.Restart.{active, restart_overlaps}

abbrev first_job : Job ℕ
first_job = record {
  id = "a";
  job_type = "room:cleanup";
  job_data = 7;
  created_at = 100;
  attempts = 0;
  max_attempts = 3;
  retry_after = none;
  error = undefined;
  last_error = undefined;
  queued_at = none;
  scheduled_at = none;
}

abbrev waiting_job : Job ℕ
waiting_job = record first_job { id = "b"; attempts = 1; retry_after = some 2000 }

abbrev two_jobs : Queue ℕ
two_jobs = record { items = waiting_job ∷ first_job ∷ []; dead_letters = [] }

-- A job in backoff is passed over.
dequeue_passes_over :
    dequeue two_jobs 1000 ≡ some (first_job, record two_jobs { items = waiting_job ∷ [] })
unfolding dequeue splice_first is_eligible
dequeue_passes_over = refl

error_summary_message : error_summary (object (some "boom")) (text "old") ≡ some "boom"
unfolding error_summary
error_summary_message = refl

error_summary_text : error_summary undefined (text "old") ≡ some "old"
unfolding error_summary
error_summary_text = refl

new_job_first : new_job "a" "room:cleanup" 7 100 ≡ first_job
unfolding new_job
new_job_first = refl

backoff_second : backoff 2 ≡ 2000
unfolding backoff
backoff_second = refl

-- One job is in work, another one is queued.
abbrev at_work : Manager ℕ ℕ
at_work = record {
  queue = record { items = waiting_job ∷ []; dead_letters = [] };
  running = true;
  timer = none;
  next_timer = 0;
  loops = working first_job ∷ [];
  results = [];
}

at_work-IsValid : IsValid at_work
at_work-IsValid = record {
  queue = record { items = (omega arith, tt); letters = tt };
  loops = (omega arith, tt);
}

dequeue-GivesFirst_example : GivesFirst two_jobs 1000 (dequeue two_jobs 1000)
dequeue-GivesFirst_example = dequeue-GivesFirst two_jobs 1000

held-step_example :
    held "a" (step at_work (settles 0 threw 300))
    ≡ held "a" at_work + submitted {D = ℕ} {R = ℕ} "a" (settles 0 threw 300)
held-step_example = held-step "a" at_work (settles 0 threw 300) (omega arith)

manager_step-IsValid_example : IsValid (step at_work (settles 0 threw 300))
manager_step-IsValid_example = manager_step-IsValid at_work (settles 0 threw 300) at_work-IsValid

drain_ends_example : ¬ IsWorking (get_elem? (drain 5 at_work 0 (λ i j. threw) (λ i. 300)).loops 0)
drain_ends_example = drain_ends 5 at_work 0 (λ i j. threw) (λ i. 300) at_work-IsValid (omega arith)

restart_overlaps_example :
    (get_elem? (start (stop at_work) 300).loops 0 ≡ some (working first_job))
    × (2 ≤ active (start (stop at_work) 300))
restart_overlaps_example = restart_overlaps at_work 0 300 first_job refl

-- A process whose only poll is at work.
abbrev process : Process ℕ ℕ
process = record { manager = at_work; listening = true; forced_at = []; exit_code = none }

exits_in_time_example :
    is_some (force_due (after (shutdown process 5) (signals 6 ∷ [])) 20000).exit_code ≡ true
exits_in_time_example = exits_in_time process 5 20000 (signals 6 ∷ []) (omega arith)
