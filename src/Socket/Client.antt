-- ===== src/Socket/Client.antt =====
-- apps/trapchat/src/socket/client.js: class `TrapChatClient`. The handlers that `connect` sets are
-- functions on the client's state, and they are those of its latest socket. Random ids, the clock
-- and the jitter are arguments.
pub mod Bounds
pub mod Delivery
pub mod Reconnect
pub mod Offline
pub mod GivenUp
pub mod StaleTimer
use trapchat.Prelude.{
  ℕ, zero, suc, ◌+◌, ◌*◌, ◌^◌, min, Bool, true, false, ◌&&◌, ◌||◌, not, Option, none, some, String,
  List, [], ◌∷◌, ◌++◌, ltb, leb, ◌==◌, if◌then◌else◌, length, str_eq,
}
pub use trapchat.Socket.State.{
  max_reconnect_delay, base_reconnect_delay, max_reconnect_attempts, max_rooms, max_pending,
  ReadyState, connecting, opened, closing, closed, Message, Emission, open_, error, error_max_rooms,
  close, queued, reconnecting_, reconnect_failed, received, Client, Stamp,
}
unfoldable pub use trapchat.Socket.State.{is_open}
use trapchat.Prelude.JsMap.{has, put, delete}

-- The base of the delay, and the delay with its jitter.
base_delay : ℕ → ℕ
base_delay attempts = min (base_reconnect_delay * 2 ^ attempts) max_reconnect_delay

pub delay_with : ℕ → ℕ → ℕ
unfolding base_delay
delay_with attempts jitter = min (base_delay attempts + jitter) max_reconnect_delay

-- `if (data.id)`
is_given : Option String → Bool
is_given none = false
is_given (some id) = not (str_eq id "")

module _ {P : Type 0} where
  abbrev pub new : Client P
  new = record {
    ws = none;
    settled = false;
    sent = [];
    joined_rooms = [];
    pending_queue = [];
    reconnecting = false;
    reconnect_attempts = 0;
    timer = none;
    peer_id = none;
    emitted = [];
  }

  abbrev pub emit : Client P → Emission → Client P
  emit c e = record c { emitted = c.emitted ++ e ∷ [] }

  unfoldable pub message : String → String → P → Option String → Stamp → Message P
  message type room payload msg_id s = record {
    id = s.id;
    msg_id = elim msg_id [ none ↦ s.msg_id | some m ↦ if str_eq m "" then s.msg_id else m ];
    type_ = type;
    room = room;
    payload = payload;
    timestamp = s.now;
  }

  -- The rooms after a `send` of this type; `none` where there are too many.
  unfoldable pub update_rooms : Client P → String → String → P → Option (Client P)
  update_rooms c type room payload =
      if str_eq type "join"
      then if not (has room c.joined_rooms) && leb max_rooms (length c.joined_rooms)
        then none
        else some (record c { joined_rooms = put room payload c.joined_rooms })
      else if str_eq type "leave"
      then some (record c { joined_rooms = delete room c.joined_rooms })
      else some c

  -- The part of `send` that gets the message out, or puts it by.
  unfoldable pub transmit : Client P → Message P → Client P × Bool
  transmit c m =
      if is_open c.ws
      then (record c { sent = c.sent ++ m ∷ [] }, true)
      else if str_eq m.type_ "chat" || str_eq m.type_ "media"
      then (
        emit
            (if ltb (length c.pending_queue) max_pending
              then record c { pending_queue = c.pending_queue ++ (m.room, m) ∷ [] }
              else c)
            (queued m.type_ m.room),
        false,
      )
      else (c, false)

  unfoldable pub send : Client P → String → String → P → Option String → Stamp → Client P × Bool
  send c type room payload msg_id s = elim (update_rooms c type room payload) [
    | none ↦ (emit c error_max_rooms, false)
    | some c' ↦ transmit c' (message type room payload msg_id s)
  ]

  -- `if (this.#ws && this.#ws.readyState === WebSocket.OPEN) this.#ws.send(msg)`
  unfoldable pub send_if_open : Client P → Message P → Client P
  send_if_open c m = if is_open c.ws then record c { sent = c.sent ++ m ∷ [] } else c

  -- `while (pendingQueue.length > 0)`, on the queue that is left.
  unfoldable pub flush_from : Client P → List (String × Message P) → Client P
  flush_from c [] = record c { pending_queue = [] }
  flush_from c ((room, m) ∷ q) = flush_from (send_if_open c m) q

  unfoldable pub flush_queue : Client P → Client P
  unfolding flush_from
  flush_queue c = flush_from c c.pending_queue

  -- `new WebSocket(url)`; its handlers are the functions below.
  unfoldable pub connect : Client P → Client P
  connect c = record c { ws = some connecting; settled = false }

  -- `for (const [room, payload] of joinedRooms) this.send('join', room, payload)`, with the numbers
  -- of the stamps from `n` on.
  unfoldable pub rejoin : Client P → List (String × P) → (ℕ → Stamp) → ℕ → Client P
  rejoin c [] stamps n = c
  rejoin c ((room, payload) ∷ rooms) stamps n =
      rejoin (send c "join" room payload none (stamps n)).0 rooms stamps (n + 1)

  unfoldable pub on_open : Client P → (ℕ → Stamp) → Client P
  on_open c stamps =
      let c₁ = emit (record c { ws = some opened; settled = true; reconnect_attempts = 0 }) open_ in
      let c₂ =
        if c.reconnecting && ltb 0 (length c.joined_rooms)
        then record (rejoin c₁ c.joined_rooms stamps 0) { reconnecting = false }
        else c₁ in
      flush_queue c₂

  unfoldable pub on_error : Client P → Client P
  on_error c = record (emit c error) { settled = true }

  unfoldable pub attempt_reconnect : Client P → ℕ → Client P
  attempt_reconnect c jitter =
      if length c.joined_rooms == 0
      then c
      else if leb max_reconnect_attempts c.reconnect_attempts
      then record (emit c (reconnect_failed c.reconnect_attempts)) { reconnecting = false }
      else let delay = delay_with c.reconnect_attempts jitter in
        record (emit c (reconnecting_ (c.reconnect_attempts + 1) delay)) {
          reconnecting = true;
          reconnect_attempts = c.reconnect_attempts + 1;
          timer = some delay;
        }

  -- The browser sets `readyState` to CLOSED before it calls `onclose`.
  unfoldable pub on_close : Client P → ℕ → Client P
  on_close c jitter =
      let c' = emit (record c { ws = elim c.ws [ none ↦ none | some r ↦ some closed ] }) close in
      if c.settled then attempt_reconnect c' jitter else c'

  -- A message with its `type`, and its `id` if it has one. Both the general listeners and those of
  -- the type are told; a text that is no JSON has no type.
  unfoldable pub on_message : Client P → String → Option String → Client P
  unfolding is_given
  on_message c type id =
      let c' = if str_eq type "welcome" && is_given id then record c { peer_id = id } else c in
      if str_eq type ""
      then emit c' (received "message")
      else emit (emit c' (received "message")) (received type)

  -- The callback of the reconnect timer; `#reconnectTimer` keeps its old value.
  unfoldable pub reconnect_due : Client P → Client P
  reconnect_due c = connect c

  unfoldable pub clear_reconnect : Client P → Client P
  clear_reconnect c = record c { reconnecting = false; reconnect_attempts = 0; timer = none }

  unfoldable pub disconnect : Client P → Client P
  unfolding clear_reconnect
  disconnect c = record (clear_reconnect c) { joined_rooms = []; pending_queue = []; ws = none }

  -- What `JSON.parse` makes of the text is an argument: `none` if it throws, or the message.
  unfoldable pub send_raw : Client P → Option (Message P) → Client P × Bool
  send_raw c parsed =
      if is_open c.ws
      then elim parsed [
        | none ↦ (c, false)
        | some m ↦
            if str_eq m.type_ "" || str_eq m.room "" || not (str_eq m.type_ "signal")
            then (c, false)
            else (record c { sent = c.sent ++ m ∷ [] }, true)
      ]
      else (c, false)

-- Everything that can happen to a client.
pub data Event (P : Type 0) : Type 0 where
  connects opens_not disconnects due : Event P
  opens : (ℕ → Stamp) → Event P
  closes : ℕ → Event P
  receives : String → Option String → Event P
  sends : String → String → P → Option String → Stamp → Event P
  sends_raw : Option (Message P) → Event P

unfoldable pub step : {P : Type 0} → Client P → Event P → Client P
step c connects = connect c
step c opens_not = on_error c
step c disconnects = disconnect c
step c due = reconnect_due c
step c (opens stamps) = on_open c stamps
step c (closes jitter) = on_close c jitter
step c (receives type id) = on_message c type id
step c (sends type room payload msg_id s) = (send c type room payload msg_id s).0
step c (sends_raw parsed) = (send_raw c parsed).0
