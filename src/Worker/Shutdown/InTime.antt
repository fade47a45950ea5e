-- ===== src/Worker/Shutdown/InTime.antt =====
-- When a worker that is told to stop exits (services/worker/src/index.js).
use trapchat.Prelude.{ℕ, ◌+◌, ◌≤◌, ◌≡◌, true, List, [], ◌∷◌, ◌++◌, is_some, arith}
use trapchat.Worker.Shutdown.{
  Process, shutdown, server_closed, force_due, exit, is_due, shutdown_timeout,
}

-- What can happen to a process that was told to stop: further signals, the server is closed, time goes by.
pub data After : Type 0 where
  signals closes passes : ℕ → After

due-append : (t u : ℕ) (ts : List ℕ) → is_due t ts ≡ true → is_due t (ts ++ u ∷ []) ≡ true
unfolding is_due
due-append t u [] h = cc
due-append t u (x ∷ ts) h = ground (arith, due-append t u ts)

due_last : (t u : ℕ) (ts : List ℕ) → u ≤ t → is_due t (ts ++ u ∷ []) ≡ true
unfolding is_due
due_last t u [] h = ground arith
due_last t u (x ∷ ts) h = ground (arith, due_last t u ts)

module _ {D R : Type 0} where
  pub after : Process D R → List After → Process D R
  after p [] = p
  after p (signals now ∷ es) = after (shutdown p now) es
  after p (closes now ∷ es) = after (server_closed p) es
  after p (passes now ∷ es) = after (force_due p now) es

  due-after :
      (p : Process D R) (es : List After) (t : ℕ)
      → is_due t p.forced_at ≡ true
      → is_due t (after p es).forced_at ≡ true
  unfolding after shutdown server_closed force_due exit
  due-after p [] t h = h
  due-after p (signals now ∷ es) t h =
      due-after (shutdown p now) es t (due-append t (now + shutdown_timeout) p.forced_at h)
  due-after p (closes now ∷ es) t h = due-after (server_closed p) es t (ground (arith, h))
  due-after p (passes now ∷ es) t h = due-after (force_due p now) es t (ground (arith, h))

  -- Ten seconds after a signal, whatever happened in between, further signals too, the process has exited.
  pub exits_in_time :
      (p : Process D R) (now t : ℕ) (es : List After)
      → now + shutdown_timeout ≤ t
      → is_some (force_due (after (shutdown p now) es) t).exit_code ≡ true
  unfolding force_due exit shutdown
  exits_in_time p now t es h =
      forced (after (shutdown p now) es) t
        (due-after (shutdown p now) es t (due_last t (now + shutdown_timeout) p.forced_at h))
    where
      forced :
          (q : Process D R) (t : ℕ)
          → is_due t q.forced_at ≡ true
          → is_some (force_due q t).exit_code ≡ true
      forced q t h = ground (arith, h)
