-- ===== src/Worker/Shutdown.antt =====
-- services/worker/src/index.js: the shutdown on a signal. A process has the manager of
-- services/worker/src/manager.js, and the times at which its timers force an exit.
pub mod InTime
use trapchat.Prelude.{
  ℕ, ◌+◌, Bool, true, false, Option, none, some, List, [], ◌∷◌, ◌++◌, leb, if◌then◌else◌, is_some,
}
use trapchat.Worker.Manager.{Manager, start, stop}

abbrev pub shutdown_timeout : ℕ
shutdown_timeout = 10000

pub record Process (D R : Type 0) : Type 0 where
  pub manager : Manager D R
  pub listening : Bool
  pub forced_at : List ℕ
  pub exit_code : Option ℕ

pub is_due : ℕ → List ℕ → Bool
is_due now [] = false
is_due now (t ∷ ts) = if leb t now then true else is_due now ts

module _ {D R : Type 0} where
  -- The callback of `server.listen`.
  pub listened : Process D R → ℕ → Process D R
  listened p now = record p { listening = true; manager = start p.manager now }

  pub exit : Process D R → ℕ → Process D R
  exit p code = if is_some p.exit_code then p else record p { exit_code = some code }

  -- `shutdown(signal)`; a second signal sets a second timer.
  pub shutdown : Process D R → ℕ → Process D R
  shutdown p now = record p {
    manager = stop p.manager;
    listening = false;
    forced_at = p.forced_at ++ (now + shutdown_timeout) ∷ [];
  }

  -- The callback of `server.close`, once the last connection is closed.
  pub server_closed : Process D R → Process D R
  server_closed p = exit p 0

  -- The timers that force an exit.
  pub force_due : Process D R → ℕ → Process D R
  force_due p now = if is_due now p.forced_at then exit p 1 else p
