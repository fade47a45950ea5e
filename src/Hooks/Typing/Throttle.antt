-- ===== src/Hooks/Typing/Throttle.antt =====
-- How often an indicator goes out (apps/trapchat/src/hooks/useTypingIndicator.js).
use trapchat.Prelude.{ℕ, ◌+◌, ◌≤◌, ◌≡◌, Bool, true, List, [], ◌∷◌, arith, if◌then◌else◌}
use trapchat.Hooks.Typing.{Typing, typing_throttle_ms, send_typing_indicator}

-- Calls, the earliest first, each with what it says and its time: those that send something.
pub sent_of : Typing → List (Bool × ℕ) → List (Bool × ℕ)
sent_of t [] = []
sent_of t ((typing, now) ∷ calls) =
    let r = send_typing_indicator t true true typing now in
    let rest = sent_of r.0 calls in if r.1 then (typing, now) ∷ rest else rest

-- What says that someone types comes at least two seconds after whatever went out before it.
abbrev pub IsSpaced : ℕ → List (Bool × ℕ) → Type 0
IsSpaced last [] = Unit
IsSpaced last ((typing, t) ∷ sent) =
    (typing ≡ true → last + typing_throttle_ms ≤ t) × IsSpaced t sent

-- However often `sendTypingIndicator` is called and whatever the clock does, an indicator that someone
-- types goes out two seconds or more after the indicator before it, of either kind.
pub sent_of-IsSpaced :
    (t : Typing) (calls : List (Bool × ℕ)) → IsSpaced t.last_typing_sent (sent_of t calls)
unfolding sent_of send_typing_indicator
sent_of-IsSpaced t [] = tt
sent_of-IsSpaced t ((typing, now) ∷ calls) =
    ground (
      arith,
      sent_of-IsSpaced t calls,
      sent_of-IsSpaced (record t { last_typing_sent = now }) calls,
    )
