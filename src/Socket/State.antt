-- ===== src/Socket/State.antt =====
-- The state of apps/trapchat/src/socket/client.js: what class `TrapChatClient` keeps, its messages and
-- its bounds. A message is the record that `JSON.stringify` writes.
use trapchat.Prelude.{ℕ, Bool, true, false, Option, none, some, String, List}

abbrev pub max_reconnect_delay : ℕ
max_reconnect_delay = 30000

abbrev pub base_reconnect_delay : ℕ
base_reconnect_delay = 1000

abbrev pub max_reconnect_attempts : ℕ
max_reconnect_attempts = 20

abbrev pub max_rooms : ℕ
max_rooms = 5

abbrev pub max_pending : ℕ
max_pending = 200

-- `readyState` of a WebSocket.
pub data ReadyState : Type 0 where
  connecting opened closing closed : ReadyState

pub record Message (P : Type 0) : Type 0 where
  pub id : String
  pub msg_id : String
  pub type_ : String
  pub room : String
  pub payload : P
  pub timestamp : ℕ

-- What the client tells its listeners.
pub data Emission : Type 0 where
  open_ : Emission
  error : Emission
  error_max_rooms : Emission
  close : Emission
  queued : String → String → Emission
  reconnecting_ : ℕ → ℕ → Emission
  reconnect_failed : ℕ → Emission
  received : String → Emission

-- `sent` is what was given to `WebSocket.send`, the latest last; `timer` is the delay of the
-- reconnect timer, while there is one; `settled` is the flag of the latest `connect`.
pub record Client (P : Type 0) : Type 0 where
  pub ws : Option ReadyState
  pub settled : Bool
  pub sent : List (Message P)
  pub joined_rooms : List (String × P)
  pub pending_queue : List (String × Message P)
  pub reconnecting : Bool
  pub reconnect_attempts : ℕ
  pub timer : Option ℕ
  pub peer_id : Option String
  pub emitted : List Emission

-- The ids and the time that a `send` draws.
pub record Stamp : Type 0 where
  pub id : String
  pub msg_id : String
  pub now : ℕ

unfoldable pub is_open : Option ReadyState → Bool
is_open (some opened) = true
is_open (some connecting) = false
is_open (some closing) = false
is_open (some closed) = false
is_open none = false
