-- ===== src/Worker/Manager/Conservation.antt =====
-- No job of the worker is lost or doubled over any history of services/worker/src/manager.js.
use trapchat.Prelude.{
  ℕ, ◌+◌, ◌≤◌, ◌<◌, ◌≡◌, refl, inl, inr, false, true, Option, none, some, String, [], ◌∷◌, ◌++◌,
  arith, get_elem?, get_elem?-append_length, map, sum_by, sum_by-append, sum_by-map, sum_by-set,
  length, length-append, if◌then◌else◌, str_eq,
}
use trapchat.Worker.Queue.{
  Job, Queue, DeadLetter, max_dead_letters, new_job, enqueue, dead_letter, failed,
}
use trapchat.Worker.Queue.DeadLetters.{evict_fits}
use trapchat.Worker.Manager.{
  Manager, Loop, working, sleeping, ended, Outcome, clear_timer, fail_job, backoff, poll, start,
  stop, settle, fire,
}
use trapchat.Worker.Manager.Totals.{load, total, total-poll}
use trapchat.Worker.Manager.Failure.{fail_job-FailsAs, exhausted, retried}
use trapchat.Worker.Manager.Events.{
  Event, starts, stops, settles, fires, submits, step, poll_keeps, start_cases, settle_cases,
  fire_cases,
}

-- 1 for the id `k`, 0 for any other.
abbrev pub is_id : String → String → ℕ
is_id k id = if str_eq id k then 1 else 0

abbrev pub letter_is : String → DeadLetter → ℕ
letter_is k d = is_id k d.id

module _ {D : Type 0} where
  abbrev pub job_is : String → Job D → ℕ
  job_is k j = is_id k j.id

  load-clear_timer : (w : Job D → ℕ) (t : ℕ) (l : Loop D) → load w (clear_timer t l) ≡ load w l
  unfolding clear_timer
  load-clear_timer w t (working j) = refl
  load-clear_timer w t (sleeping u) = ground arith
  load-clear_timer w t ended = refl

  held_fail_job :
      (k : String) (q : Queue D) (j : Job D) (now : ℕ)
      → length q.dead_letters < max_dead_letters
      → sum_by (job_is k) (fail_job q j now).items
          + sum_by (letter_is k) (fail_job q j now).dead_letters
        ≡ sum_by (job_is k) q.items + sum_by (letter_is k) q.dead_letters + job_is k j
  unfolding failed dead_letter
  held_fail_job k q j now room = elim (fail_job-FailsAs q j now) [
    | inl (_, e) ↦
        let letters = q.dead_letters ++ dead_letter (exhausted j) now ∷ [] in
        let fits : length letters ≤ max_dead_letters =
          omega (arith, length-append q.dead_letters (dead_letter (exhausted j) now ∷ [])) in
        rw (e, evict_fits max_dead_letters letters fits)
          (omega (
            arith,
            sum_by-append (letter_is k) q.dead_letters (dead_letter (exhausted j) now ∷ []),
          ))
    | inr (_, e) ↦ rw e (
        omega (
          arith,
          sum_by-append (job_is k) q.items (retried j (now + backoff (j.attempts + 1)) ∷ []),
        ))
  ]

module _ {D R : Type 0} where
  abbrev pub result_is : String → Job D × R → ℕ
  result_is k r = is_id k r.0.id

  -- How often the worker holds a job with the id `k`: queued, in work, completed or dead.
  abbrev pub held : String → Manager D R → ℕ
  held k m =
      total (job_is k) m
      + sum_by (result_is k) m.results
      + sum_by (letter_is k) m.queue.dead_letters

  held-poll :
      (k : String) (m : Manager D R) (i now : ℕ) (l : Loop D)
      → get_elem? m.loops i ≡ some l
      → held k (poll m i now) + load (job_is k) l ≡ held k m
  held-poll k m i now l h =
      rw ((poll_keeps m i now).0, (poll_keeps m i now).1)
        (omega (arith, total-poll (job_is k) m i now l h))

  held-start : (k : String) (m : Manager D R) (now : ℕ) → held k (start m now) ≡ held k m
  held-start k m now =
      start_cases (λ m'. held k m' ≡ held k m) m now refl
        (omega (
          arith,
          held-poll k (record m { running = true; loops = m.loops ++ ended ∷ [] }) (length m.loops)
              now ended (get_elem?-append_length m.loops [] ended),
          sum_by-append (load (job_is k)) m.loops (ended ∷ []),
        ))

  held-stop : (k : String) (m : Manager D R) → held k (stop m) ≡ held k m
  unfolding stop
  held-stop k m = go m.timer
    where
      go :
          (t : Option ℕ)
          → held k (elim t [
            | none ↦ record m { running = false }
            | some t ↦ record m {
              running = false;
              timer = none;
              loops = map (clear_timer t) m.loops;
            }
          ])
            ≡ held k m
      go none = refl
      go (some t) = omega (
        arith,
        sum_by-map (load (job_is k)) (load (job_is k)) (clear_timer t)
            (load-clear_timer (job_is k) t) m.loops,
      )

  -- A job that an event brings in.
  abbrev pub submitted : String → Event D R → ℕ
  submitted k (submits id type d now) = is_id k id
  submitted k (starts now) = 0
  submitted k stops = 0
  submitted k (settles i out now) = 0
  submitted k (fires i now) = 0

  held-settle :
      (k : String) (m : Manager D R) (i : ℕ) (out : Outcome R) (now : ℕ)
      → length m.queue.dead_letters < max_dead_letters
      → held k (settle m i out now) ≡ held k m
  held-settle k m i out now room =
      settle_cases (λ m'. held k m' ≡ held k m) m i out now refl
        (λ j r e. omega (
          arith,
          held-poll k (record m { results = m.results ++ (j, r) ∷ [] }) i now (working j) e,
          sum_by-append (result_is k) m.results ((j, r) ∷ []),
        ))
        (λ j e. omega (
          arith,
          held-poll k (record m { queue = fail_job m.queue j now }) i now (working j) e,
          held_fail_job k m.queue j now room,
        ))

  held-fire : (k : String) (m : Manager D R) (i now : ℕ) → held k (fire m i now) ≡ held k m
  held-fire k m i now =
      fire_cases (λ m'. held k m' ≡ held k m) m i now refl
        (λ t e. omega (arith, held-poll k m i now (sleeping t) e))
        (λ t e. omega (arith, sum_by-set (load (job_is k)) m.loops i (sleeping t) ended e))

  -- While the dead letters have room, no event loses or doubles a job: the worker holds an id as
  -- often after it as before, and once more if the event submits it.
  pub held-step :
      (k : String) (m : Manager D R) (e : Event D R)
      → length m.queue.dead_letters < max_dead_letters
      → held k (step m e) ≡ held k m + submitted k e
  unfolding step enqueue new_job
  held-step k m (starts now) room = omega (arith, held-start k m now)
  held-step k m stops room = omega (arith, held-stop k m)
  held-step k m (settles i out now) room = omega (arith, held-settle k m i out now room)
  held-step k m (fires i now) room = omega (arith, held-fire k m i now)
  held-step k m (submits id type d now) room =
      omega (arith, sum_by-append (job_is k) m.queue.items (new_job id type d now ∷ []))
