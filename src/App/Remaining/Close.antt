-- ===== src/App/Remaining/Close.antt =====
-- What is shown of the time that is left (apps/trapchat/src/components/ChatView.jsx).
use trapchat.Prelude.{ℕ, ◌+◌, ◌*◌, ◌≡◌, ◌<◌, ◌≤◌, arith}
use trapchat.App.Remaining.{Remaining, expired, hours, minutes, format_time_remaining}

-- What a text says of a time.
abbrev pub IsClose : Remaining → ℕ → Type 0
IsClose expired ms = ms ≡ 0
IsClose (hours h m) ms = (m < 60) × ((h * 60 + m) * 60000 ≤ ms) × (ms < (h * 60 + m + 1) * 60000)
IsClose (minutes m s) ms =
    (m < 60) × (s < 60) × ((m * 60 + s) * 1000 ≤ ms) × (ms < (m * 60 + s + 1) * 1000)

-- The time that is shown is over when the time is, and else is less than a minute short, or less than a
-- second where it is under an hour; its minutes and seconds are under sixty.
pub format_time_remaining-IsClose : (ms : ℕ) → IsClose (format_time_remaining ms) ms
unfolding format_time_remaining
format_time_remaining-IsClose ms = ground arith
