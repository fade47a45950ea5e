-- ===== src/App/Remaining.antt =====
-- apps/trapchat/src/components/ChatView.jsx: `formatTimeRemaining`, with its texts as values. A time that
-- is over is 0.
pub mod Close
use trapchat.Prelude.{ℕ, ◌/◌, ◌%◌, ◌==◌, ltb, if◌then◌else◌}

-- 'expired', `${h}h ${m}m` or `${m}:${s}`.
pub data Remaining : Type 0 where
  expired : Remaining
  hours minutes : ℕ → ℕ → Remaining

pub format_time_remaining : ℕ → Remaining
format_time_remaining ms =
    if ms == 0
    then expired
    else let total_sec = ms / 1000 in
      let h = total_sec / 3600 in
      let m = total_sec % 3600 / 60 in if ltb 0 h then hours h m else minutes m (total_sec % 60)
