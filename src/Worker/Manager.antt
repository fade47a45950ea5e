-- ===== src/Worker/Manager.antt =====
-- services/worker/src/manager.js: class `WorkerManager`. Its `#poll` is a coroutine: it runs until
-- it waits for `processJob` or for its timer, so each operation here is one such run. The clock is
-- read once in a run, and what `processJob` came to is an argument.
pub mod Failure
pub mod Events
pub mod Conservation
pub mod Attempts
pub mod Drain
pub mod Restart
pub mod Totals
use trapchat.Prelude.{
  ℕ, suc, ◌+◌, ◌-◌, ◌*◌, ◌^◌, min, ◌≡◌, Bool, true, false, Option, none, some, List, [], ◌∷◌, ◌++◌,
  map, ◌==◌, if◌then◌else◌, length, get_elem?, set,
}
use trapchat.Worker.Queue.{Job, Queue, dequeue, requeue}

-- How far one `#poll` has come: it waits for a job, for a timer, or has ended (also by a timer that
-- was cleared, after which its promise never resolves).
pub data Loop (D : Type 0) : Type 0 where
  working : Job D → Loop D
  sleeping : ℕ → Loop D
  ended : Loop D

-- What `await processJob(job)` came to.
pub data Outcome (R : Type 0) : Type 0 where
  done : R → Outcome R
  threw : Outcome R

-- `results` are the calls of `onResult`, the latest last.
pub record Manager (D R : Type 0) : Type 0 where
  pub queue : Queue D
  pub running : Bool
  pub timer : Option ℕ
  pub next_timer : ℕ
  pub loops : List (Loop D)
  pub results : List (Job D × R)

-- Math.min(1000 * Math.pow(2, attempts - 1), 30000)
unfoldable pub backoff : ℕ → ℕ
backoff attempts = min (1000 * 2 ^ (attempts - 1)) 30000

module _ {D : Type 0} where
  -- `job._retryAfter = …` on the job that `requeue` has just pushed, which is the last item.
  pub mark_last : ℕ → List (Job D) → List (Job D)
  mark_last t [] = []
  mark_last t (j ∷ []) = record j { retry_after = some t } ∷ []
  mark_last t (j ∷ k ∷ js) = j ∷ mark_last t (k ∷ js)

  unfoldable pub clear_timer : ℕ → Loop D → Loop D
  clear_timer t (working j) = working j
  clear_timer t (sleeping u) = if u == t then ended else sleeping u
  clear_timer t ended = ended

  -- The `catch` block.
  pub fail_job : Queue D → Job D → ℕ → Queue D
  fail_job q j now =
      let (q', j', again) = requeue q j now in
      if again then record q' { items = mark_last (now + backoff j'.attempts) q'.items } else q'

module _ {D R : Type 0} where
  -- From the test of the inner `while` to the next `await`, in the loop numbered `i`.
  pub poll : Manager D R → ℕ → ℕ → Manager D R
  poll m i now = elim (dequeue m.queue now) [
    | some (j, q) ↦ record m { queue = q; loops = set m.loops i (working j) }
    | none ↦ record m {
      timer = some m.next_timer;
      next_timer = suc m.next_timer;
      loops = set m.loops i (sleeping m.next_timer);
    }
  ]

  pub start : Manager D R → ℕ → Manager D R
  start m now =
      if m.running
      then m
      else poll (record m { running = true; loops = m.loops ++ ended ∷ [] }) (length m.loops) now

  unfoldable pub stop : Manager D R → Manager D R
  stop m = elim m.timer [
    | none ↦ record m { running = false }
    | some t ↦ record m { running = false; timer = none; loops = map (clear_timer t) m.loops }
  ]

  -- `processJob` has come to an end in loop `i`.
  pub settle : Manager D R → ℕ → Outcome R → ℕ → Manager D R
  settle m i out now = elim (get_elem? m.loops i) [
    | some (working j) ↦ elim out [
      | done r ↦ poll (record m { results = m.results ++ (j, r) ∷ [] }) i now
      | threw ↦ poll (record m { queue = fail_job m.queue j now }) i now
    ]
    | _ ↦ m
  ]

  -- The timer of loop `i` fires: `while (this.#running)`.
  pub fire : Manager D R → ℕ → ℕ → Manager D R
  fire m i now = elim (get_elem? m.loops i) [
    | some (sleeping t) ↦
        if m.running then poll m i now else record m { loops = set m.loops i ended }
    | _ ↦ m
  ]
