-- ===== src/Socket/Client/Bounds.antt =====
-- The limits that apps/trapchat/src/socket/client.js keeps, over everything that can happen.
use trapchat.Prelude.{
  ℕ, ◌+◌, ◌≤◌, ◌≡◌, ◌⊎◌, inl, inr, Bool, true, false, not, ◌&&◌, Option, none, some, String, List,
  [], ◌∷◌, arith, ltb, leb, if◌then◌else◌, length, length-append, str_eq, Bool-cases, pow_pos,
}
use trapchat.Prelude.JsMap.{has, put, delete, length-put, length-delete-le}
use trapchat.Socket.Client.{
  Client, Message, Stamp, Event, connects, opens_not, disconnects, due, opens, closes, receives,
  sends, sends_raw, max_rooms, max_pending, max_reconnect_attempts, max_reconnect_delay, emit,
  delay_with, update_rooms, transmit, send, send_if_open, flush_from, flush_queue, connect, rejoin,
  on_open, on_error, attempt_reconnect, on_close, on_message, reconnect_due, disconnect, send_raw,
  step, opened, open_, closed, close,
}

-- A delay between one second and thirty.
abbrev pub DelayFits : Option ℕ → Type 0
DelayFits none = Unit
DelayFits (some d) = (1000 ≤ d) × (d ≤ max_reconnect_delay)

pub record IsValid {P : Type 0} (c : Client P) : Type 0 where
  pub rooms : length c.joined_rooms ≤ max_rooms
  pub pending : length c.pending_queue ≤ max_pending
  pub attempts : c.reconnect_attempts ≤ max_reconnect_attempts
  pub delay : DelayFits c.timer

delay_with_bounds :
    (n jitter : ℕ) → (1000 ≤ delay_with n jitter) × (delay_with n jitter ≤ max_reconnect_delay)
unfolding delay_with
delay_with_bounds n jitter = (omega (arith, pow_pos n), omega arith)

module _ {P : Type 0} where
  update_rooms_cases :
      (c : Client P) (type room : String) (payload : P)
      → length c.joined_rooms ≤ max_rooms
      → (update_rooms c type room payload ≡ none)
        ⊎ ((rooms : List (String × P)) × (update_rooms c type room payload
              ≡ some (record c { joined_rooms = rooms }))
            × (length rooms ≤ max_rooms))
  unfolding update_rooms
  update_rooms_cases c type room payload h = elim (Bool-cases (str_eq type "join")) [
    | inl join ↦
        elim (Bool-cases (not (has room c.joined_rooms) && leb max_rooms (length c.joined_rooms))) [
          | inl full ↦ inl (ground arith)
          | inr room_left ↦ inr (
            put room payload c.joined_rooms,
            ground arith,
            ground (arith, length-put room payload c.joined_rooms),
          )
        ]
    | inr other ↦ elim (Bool-cases (str_eq type "leave")) [
      | inl leave ↦ inr (
        delete room c.joined_rooms,
        ground arith,
        omega (arith, length-delete-le room c.joined_rooms),
      )
      | inr neither ↦ inr (c.joined_rooms, ground arith, h)
    ]
  ]

  transmit-IsValid : (c : Client P) (m : Message P) → IsValid c → IsValid (transmit c m).0
  unfolding transmit
  transmit-IsValid c m v = ground (arith, length-append c.pending_queue ((m.room, m) ∷ []))

  send-IsValid :
      (c : Client P) (type room : String) (payload : P) (msg_id : Option String) (s : Stamp)
      → IsValid c
      → IsValid (send c type room payload msg_id s).0
  unfolding send
  send-IsValid c type room payload msg_id s v =
      elim (update_rooms_cases c type room payload v.rooms) [
        | inl e ↦
            rw (e, send)
              (record {
                rooms = v.rooms;
                pending = v.pending;
                attempts = v.attempts;
                delay = v.delay;
              })
        | inr (rooms, e, h) ↦
            rw (e, send)
              (transmit-IsValid _ _
                (record { rooms = h; pending = v.pending; attempts = v.attempts; delay = v.delay }))
      ]

  send_if_open-IsValid : (c : Client P) (m : Message P) → IsValid c → IsValid (send_if_open c m)
  unfolding send_if_open
  send_if_open-IsValid c m v = ground arith

  flush_from-IsValid :
      (c : Client P) (q : List (String × Message P)) → IsValid c → IsValid (flush_from c q)
  unfolding flush_from
  flush_from-IsValid c [] v = record {
    rooms = v.rooms;
    pending = omega arith;
    attempts = v.attempts;
    delay = v.delay;
  }
  flush_from-IsValid c ((room, m) ∷ q) v =
      flush_from-IsValid (send_if_open c m) q (send_if_open-IsValid c m v)

  flush_queue-IsValid : (c : Client P) → IsValid c → IsValid (flush_queue c)
  unfolding flush_queue
  flush_queue-IsValid c v = flush_from-IsValid c c.pending_queue v

  rejoin-IsValid :
      (c : Client P) (rooms : List (String × P)) (stamps : ℕ → Stamp) (n : ℕ)
      → IsValid c
      → IsValid (rejoin c rooms stamps n)
  unfolding rejoin
  rejoin-IsValid c [] stamps n v = v
  rejoin-IsValid c ((room, payload) ∷ rooms) stamps n v =
      rejoin-IsValid (send c "join" room payload none (stamps n)).0 rooms stamps (n + 1)
        (send-IsValid c "join" room payload none (stamps n) v)

  attempt_reconnect-IsValid :
      (c : Client P) (jitter : ℕ) → IsValid c → IsValid (attempt_reconnect c jitter)
  unfolding attempt_reconnect
  attempt_reconnect-IsValid c jitter v =
      ground (arith, delay_with_bounds c.reconnect_attempts jitter)

  on_open-IsValid : (c : Client P) (stamps : ℕ → Stamp) → IsValid c → IsValid (on_open c stamps)
  unfolding on_open
  on_open-IsValid c stamps v = by_test (c.reconnecting && ltb 0 (length c.joined_rooms))
    where
      c₁ : Client P
      c₁ = emit (record c { ws = some opened; settled = true; reconnect_attempts = 0 }) open_

      v₁ : IsValid c₁
      v₁ = record { rooms = v.rooms; pending = v.pending; attempts = omega arith; delay = v.delay }

      rejoined : IsValid (rejoin c₁ c.joined_rooms stamps 0)
      rejoined = rejoin-IsValid c₁ c.joined_rooms stamps 0 v₁

      by_test :
          (b : Bool)
          → IsValid (
              flush_queue (
                if b
                then record (rejoin c₁ c.joined_rooms stamps 0) { reconnecting = false }
                else c₁))
      by_test true =
          flush_queue-IsValid (record (rejoin c₁ c.joined_rooms stamps 0) { reconnecting = false })
            (record {
              rooms = rejoined.rooms;
              pending = rejoined.pending;
              attempts = rejoined.attempts;
              delay = rejoined.delay;
            })
      by_test false = flush_queue-IsValid c₁ v₁

  on_close-IsValid : (c : Client P) (jitter : ℕ) → IsValid c → IsValid (on_close c jitter)
  unfolding on_close
  on_close-IsValid c jitter v = by_test c.settled
    where
      c' : Client P
      c' = emit (record c { ws = elim c.ws [ none ↦ none | some r ↦ some closed ] }) close

      v' : IsValid c'
      v' = record { rooms = v.rooms; pending = v.pending; attempts = v.attempts; delay = v.delay }

      by_test : (b : Bool) → IsValid (if b then attempt_reconnect c' jitter else c')
      by_test true = attempt_reconnect-IsValid c' jitter v'
      by_test false = v'

  -- Whatever happens to a client, it stays in five rooms at most, holds back 200 messages at most,
  -- has tried at most twenty times to reconnect, and waits for a try between one second and thirty.
  pub client_step-IsValid : (c : Client P) (e : Event P) → IsValid c → IsValid (step c e)
  unfolding step connect on_error on_message reconnect_due disconnect send_raw
  client_step-IsValid c connects v = ground arith
  client_step-IsValid c opens_not v = ground arith
  client_step-IsValid c disconnects v = ground arith
  client_step-IsValid c due v = ground arith
  client_step-IsValid c (opens stamps) v = on_open-IsValid c stamps v
  client_step-IsValid c (closes jitter) v = on_close-IsValid c jitter v
  client_step-IsValid c (receives type id) v = ground arith
  client_step-IsValid c (sends type room payload msg_id s) v =
      send-IsValid c type room payload msg_id s v
  client_step-IsValid c (sends_raw parsed) v = ground arith
