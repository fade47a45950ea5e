-- ===== src/Worker/Manager/Failure.antt =====
-- The `catch` block of services/worker/src/manager.js: a failed job is put back with a delay, or
-- becomes a dead letter.
use trapchat.Prelude.{
  ℕ, ◌+◌, ◌-◌, ◌≤◌, ◌<◌, ◌≡◌, refl, ap, ◌⊎◌, inl, inr, true, false, some, List, [], ◌∷◌, ◌++◌,
  arith, Bool-cases, tests, pow_pos, leb,
}
use trapchat.Worker.Queue.{Job, Queue, failed, requeue, is_eligible}
use trapchat.Worker.Manager.{mark_last, backoff, fail_job}

module _ {D : Type 0} where
  -- The job as it waits for its next try.
  abbrev pub retried : Job D → ℕ → Job D
  retried j until = record j { attempts = j.attempts + 1; retry_after = some until }

  -- The job as it goes to the dead letters.
  abbrev pub exhausted : Job D → Job D
  exhausted j = record j { attempts = j.attempts + 1 }

  mark_last-append :
      (t : ℕ) (js : List (Job D)) (j : Job D)
      → mark_last t (js ++ j ∷ []) ≡ js ++ record j { retry_after = some t } ∷ []
  unfolding mark_last
  mark_last-append t [] j = refl
  mark_last-append t (k ∷ []) j = refl
  mark_last-append t (k ∷ l ∷ js) j = ap (k ∷◌) (mark_last-append t (l ∷ js) j)

  abbrev pub FailsAs : Queue D → Job D → ℕ → Queue D → Type 0
  FailsAs q j now r =
      ((j.max_attempts ≤ j.attempts + 1) × (r ≡ failed q (exhausted j) now))
      ⊎ ((j.attempts + 1 < j.max_attempts)
          × (r ≡ record q { items = q.items ++ retried j (now + backoff (j.attempts + 1)) ∷ [] }))

  -- The last attempt makes a dead letter, and any attempt before it puts the job, one attempt on,
  -- at the end of the queue with its backoff.
  pub fail_job-FailsAs : (q : Queue D) (j : Job D) (now : ℕ) → FailsAs q j now (fail_job q j now)
  unfolding fail_job requeue
  fail_job-FailsAs q j now = elim (Bool-cases (leb j.max_attempts (j.attempts + 1))) [
    | inl last ↦ inl (omega tests, rw last)
    | inr more ↦ inr (omega tests, rw (more, mark_last-append))
  ]

backoff_bounds : (n : ℕ) → (1000 ≤ backoff n) × (backoff n ≤ 30000)
unfolding backoff
backoff_bounds n = (omega (arith, pow_pos (n - 1)), omega arith)

module _ {D : Type 0} (q : Queue D) (j : Job D) (now : ℕ) where
  -- A job that fails before its last attempt is put at the end of the queue with one more attempt.
  -- It is in backoff for at least a second, and no longer than thirty.
  pub backoff_window :
      j.attempts + 1 < j.max_attempts
      → (r : Job D) × ((fail_job q j now).items ≡ q.items ++ r ∷ [])
        × (r.attempts ≡ j.attempts + 1)
        × ((t : ℕ) → t < now + 1000 → is_eligible t r ≡ false)
        × ((t : ℕ) → now + 30000 ≤ t → is_eligible t r ≡ true)
  unfolding is_eligible
  backoff_window more = (
    retried j until,
    ground (arith, fail_job-FailsAs q j now),
    refl,
    λ t early. ground (arith, backoff_bounds (j.attempts + 1)),
    λ t late. ground (arith, backoff_bounds (j.attempts + 1)),
  )
    where
      until : ℕ
      until = now + backoff (j.attempts + 1)
