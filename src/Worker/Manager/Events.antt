-- ===== src/Worker/Manager/Events.antt =====
-- The worker's jobs over a history: what can happen to a `WorkerManager`
-- (services/worker/src/manager.js) and to its queue from outside, one event at a time.
use trapchat.Prelude.{
  ℕ, ◌≡◌, refl, inl, inr, false, true, Option, none, some, String, List, [], ◌∷◌, ◌++◌, get_elem?,
  length, Bool, set, if◌then◌else◌,
}
use trapchat.Worker.Queue.{Job, Queue, enqueue}
use trapchat.Worker.Queue.Order.{dequeue-GivesFirst}
use trapchat.Worker.Manager.{
  Manager, Loop, working, sleeping, ended, Outcome, done, threw, fail_job, poll, start, stop,
  settle, fire,
}

pub data Event (D R : Type 0) : Type 0 where
  starts : ℕ → Event D R
  stops : Event D R
  settles : ℕ → Outcome R → ℕ → Event D R
  fires : ℕ → ℕ → Event D R
  submits : String → String → D → ℕ → Event D R

module _ {D R : Type 0} where
  abbrev pub new : Queue D → Manager D R
  new q = record {
    queue = q;
    running = false;
    timer = none;
    next_timer = 0;
    loops = [];
    results = [];
  }

  unfoldable pub step : Manager D R → Event D R → Manager D R
  step m (starts now) = start m now
  step m stops = stop m
  step m (settles i out now) = settle m i out now
  step m (fires i now) = fire m i now
  step m (submits id type d now) = record m { queue = enqueue m.queue id type d now }

  unfoldable pub run : Manager D R → List (Event D R) → Manager D R
  run m [] = m
  run m (e ∷ es) = run (step m e) es

  pub poll_keeps :
      (m : Manager D R) (i now : ℕ)
      → ((poll m i now).results ≡ m.results)
        × ((poll m i now).queue.dead_letters ≡ m.queue.dead_letters)
        × ((poll m i now).running ≡ m.running)
  unfolding poll
  poll_keeps m i now = elim (dequeue-GivesFirst m.queue now) [
    | inl (e, _) ↦ rw (e, poll) (refl, refl, refl)
    | inr (b, j, a, _, _, _, f) ↦ rw (f, poll) (refl, refl, refl)
  ]

  -- The case splits that the operations make.
  pub start_cases {ℓ} :
      (P : Manager D R → Type ℓ) (m : Manager D R) (now : ℕ)
      → P m
      → P (poll (record m { running = true; loops = m.loops ++ ended ∷ [] }) (length m.loops) now)
      → P (start m now)
  unfolding start
  start_cases P m now on off = go m.running
    where
      first : Manager D R
      first = record m { running = true; loops = m.loops ++ ended ∷ [] }

      go : (b : Bool) → P (if b then m else poll first (length m.loops) now)
      go true = on
      go false = off

  pub settle_cases {ℓ} :
      (P : Manager D R → Type ℓ) (m : Manager D R) (i : ℕ) (out : Outcome R) (now : ℕ)
      → P m
      → ((j : Job D) (r : R)
          → get_elem? m.loops i ≡ some (working j)
          → P (poll (record m { results = m.results ++ (j, r) ∷ [] }) i now))
      → ((j : Job D)
          → get_elem? m.loops i ≡ some (working j)
          → P (poll (record m { queue = fail_job m.queue j now }) i now))
      → P (settle m i out now)
  unfolding settle
  settle_cases P m i out now none_working ok failing = go (get_elem? m.loops i) refl out
    where
      go :
          (l : Option (Loop D))
          → get_elem? m.loops i ≡ l
          → (o : Outcome R)
          → P (elim l [
            | some (working j) ↦ elim o [
              | done r ↦ poll (record m { results = m.results ++ (j, r) ∷ [] }) i now
              | threw ↦ poll (record m { queue = fail_job m.queue j now }) i now
            ]
            | _ ↦ m
          ])
      go none e o = none_working
      go (some (sleeping t)) e o = none_working
      go (some ended) e o = none_working
      go (some (working j)) e (done r) = ok j r e
      go (some (working j)) e threw = failing j e

  pub fire_cases {ℓ} :
      (P : Manager D R → Type ℓ) (m : Manager D R) (i now : ℕ)
      → P m
      → ((t : ℕ) → get_elem? m.loops i ≡ some (sleeping t) → P (poll m i now))
      → ((t : ℕ)
          → get_elem? m.loops i ≡ some (sleeping t)
          → P (record m { loops = set m.loops i ended }))
      → P (fire m i now)
  unfolding fire
  fire_cases P m i now none_sleeping on off = go (get_elem? m.loops i) refl
    where
      by_running :
          (b : Bool)
          → P (poll m i now)
          → P (record m { loops = set m.loops i ended })
          → P (if b then poll m i now else record m { loops = set m.loops i ended })
      by_running true p q = p
      by_running false p q = q

      go :
          (l : Option (Loop D))
          → get_elem? m.loops i ≡ l
          → P (elim l [
            | some (sleeping t) ↦
                if m.running then poll m i now else record m { loops = set m.loops i ended }
            | _ ↦ m
          ])
      go none e = none_sleeping
      go (some (working j)) e = none_sleeping
      go (some (sleeping t)) e = by_running m.running (on t e) (off t e)
      go (some ended) e = none_sleeping
