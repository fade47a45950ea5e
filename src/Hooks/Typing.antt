-- ===== src/Hooks/Typing.antt =====
-- apps/trapchat/src/hooks/useTypingIndicator.js. A timer is the time at which it is due; the text to
-- send and the payload that came are the values that JSON stands for.
pub mod Throttle
pub mod Shown
use trapchat.Prelude.{
  ℕ, ◌+◌, ◌-◌, Bool, true, false, ◌&&◌, ◌||◌, not, Option, none, some, String, List, [], ◌∷◌, ltb,
  leb, if◌then◌else◌, str_eq,
}
use trapchat.Prelude.JsMap.{has, put, delete}
use Prim.Native.String.{◌++◌ as join}

abbrev pub typing_throttle_ms : ℕ
typing_throttle_ms = 2000

abbrev pub typing_expire_ms : ℕ
typing_expire_ms = 3500

-- What a set holds under its member.
abbrev pub Mark : Type 0
Mark = Unit

-- `typing_peers` is a set, and `timers` has the time at which each timer is due.
pub record Typing : Type 0 where
  pub typing_peers : List (String × Mark)
  pub timers : List (String × ℕ)
  pub last_typing_sent : ℕ

abbrev pub new : Typing
new = record { typing_peers = []; timers = []; last_typing_sent = 0 }

-- Whether an indicator goes out, where there is a client and a room.
unfoldable pub send_typing_indicator : Typing → Bool → Bool → Bool → ℕ → Typing × Bool
send_typing_indicator t has_client has_room typing now =
    if not has_client || not has_room
    then (t, false)
    else if typing && ltb (now - t.last_typing_sent) typing_throttle_ms
    then (t, false)
    else (record t { last_typing_sent = now }, true)

-- The payload of a message, where it can be read, and the id of its sender.
pub record Message : Type 0 where
  pub typing : Bool
  pub nickname : Option String
  pub id : Option String

-- `x || y`
unfoldable pub or_text : Option String → String → String
or_text none d = d
or_text (some s) d = if str_eq s "" then d else s

-- `senderId.slice(0, 8)` is a parameter.
unfoldable pub sender_name : (String → String) → Message → String
unfolding or_text
sender_name short m = or_text m.nickname (short (or_text m.id "unknown"))

pub started : Typing → String → ℕ → Typing
started t name now = record t {
  typing_peers = put name tt t.typing_peers;
  timers = put name (now + typing_expire_ms) t.timers;
}

-- What a sender that stops leaves, and what the callback of its timer leaves.
pub stopped : Typing → String → Typing
stopped t name = record t {
  typing_peers = delete name t.typing_peers;
  timers = delete name t.timers;
}

-- `none` is a payload that cannot be read.
pub handle_typing_message : (String → String) → Typing → Option Message → ℕ → Typing
handle_typing_message short t none now = t
handle_typing_message short t (some m) now =
    if m.typing then started t (sender_name short m) now else stopped t (sender_name short m)

-- The timers that are due by `now` call back.
pub fire_from : List (String × ℕ) → ℕ → Typing → Typing
fire_from [] now t = t
fire_from ((name, due) ∷ timers) now t =
    fire_from timers now (if leb due now then stopped t name else t)

pub fire_due : ℕ → Typing → Typing
fire_due now t = fire_from t.timers now t

pub clear_typing : Typing → Typing
clear_typing t = record t { typing_peers = []; timers = [] }

join_names : List (String × Mark) → String
join_names [] = ""
join_names ((a, _) ∷ []) = a
join_names ((a, _) ∷ b ∷ s) = join a (join ", " (join_names (b ∷ s)))

typing_text : Typing → String
typing_text t = elim t.typing_peers [
  | [] ↦ ""
  | (a, _) ∷ [] ↦ join a " is typing..."
  | a ∷ b ∷ s ↦ join (join_names (a ∷ b ∷ s)) " are typing..."
]
