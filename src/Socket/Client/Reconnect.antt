-- ===== src/Socket/Client/Reconnect.antt =====
-- When apps/trapchat/src/socket/client.js reconnects, when it gives up, and what goes around `send`.
use trapchat.Prelude.{
  ℕ, ◌+◌, ◌<◌, ◌≡◌, ◌≢◌, ◌↔◌, refl, sym, ◌∙◌, ap, true, false, Option, none, some, String, List, [],
  ◌∷◌, ◌++◌, append-nil, arith, length, str_eq, eq_iff, eq_refl,
}
use trapchat.Prelude.JsMap.{has, put, has-put}
use trapchat.Socket.Client.{
  Client, Message, Stamp, Emission, reconnect_failed, max_rooms, max_reconnect_attempts, is_open,
  delay_with, update_rooms, transmit, message, send, connect, on_open, on_error, attempt_reconnect,
  on_close, disconnect, send_raw, error, close,
}
use trapchat.Socket.Client.Delivery.{held_back, on_open_sent}

module _ {P : Type 0} where
  early_join :
      (c : Client P) (room : String) (payload : P) (msg_id : Option String) (s : Stamp)
      → is_open c.ws ≡ false
      → length c.joined_rooms < max_rooms
      → (send c "join" room payload msg_id s).0
        ≡ record c { joined_rooms = put room payload c.joined_rooms }
  unfolding send update_rooms transmit message
  early_join c room payload msg_id s o few = ground arith

  -- After `disconnect` the close of the socket, whenever it comes, starts no reconnect.
  pub disconnect_is_final :
      (c : Client P) (jitter : ℕ)
      → let c' = on_close (disconnect c) jitter in
        (c'.ws ≡ none)
        × (c'.timer ≡ none)
        × (c'.reconnecting ≡ false)
        × (c'.pending_queue ≡ [])
        × (c'.joined_rooms ≡ [])
  unfolding on_close disconnect attempt_reconnect
  disconnect_is_final c jitter = ground arith

  -- A try to connect that fails: `onerror`, then `onclose`.
  abbrev pub fail : Client P → ℕ → Client P
  fail c jitter = on_close (on_error (connect c)) jitter

  -- A failed try is followed by another while the client is in a room and has tries left. That goes
  -- for the very first connect too, where no connection has been open before.
  pub fail_retries :
      (c : Client P) (jitter : ℕ)
      → c.joined_rooms ≢ []
      → c.reconnect_attempts < max_reconnect_attempts
      → ((fail c jitter).reconnecting ≡ true)
        × ((fail c jitter).timer ≡ some (delay_with c.reconnect_attempts jitter))
        × ((fail c jitter).reconnect_attempts ≡ c.reconnect_attempts + 1)
        × ((fail c jitter).joined_rooms ≡ c.joined_rooms)
  unfolding on_close on_error connect attempt_reconnect
  fail_retries c jitter rooms more = ground arith

  pub fail_gives_up :
      (c : Client P) (jitter : ℕ)
      → c.joined_rooms ≢ []
      → c.reconnect_attempts ≡ max_reconnect_attempts
      → ((fail c jitter).reconnecting ≡ false)
        × ((fail c jitter).emitted
            ≡ ((c.emitted ++ error ∷ []) ++ close ∷ [])
              ++ reconnect_failed max_reconnect_attempts ∷ [])
        × ((fail c jitter).reconnect_attempts ≡ max_reconnect_attempts)
        × ((fail c jitter).timer ≡ c.timer)
  unfolding on_close on_error connect attempt_reconnect
  fail_gives_up c jitter rooms last = ground arith

  -- One failed try after another.
  unfoldable pub fail_each : Client P → List ℕ → Client P
  fail_each c [] = c
  fail_each c (jitter ∷ js) = fail_each (fail c jitter) js

  -- Failing for good, a client in a room gives up: once the tries that it has left have failed and
  -- one more, it says so to its listeners and waits for no reconnect.
  pub fail_each_gives_up :
      (c : Client P) (js : List ℕ) (jitter : ℕ)
      → c.joined_rooms ≢ []
      → c.reconnect_attempts + length js ≡ max_reconnect_attempts
      → let c' = fail (fail_each c js) jitter in
        (c'.reconnecting ≡ false)
        × ((before : List Emission) × (c'.emitted
              ≡ before ++ reconnect_failed max_reconnect_attempts ∷ []))
  unfolding fail_each
  fail_each_gives_up c [] jitter rooms tries =
      let (r, e, _, _) = fail_gives_up c jitter rooms (omega arith) in (r, (_, e))
  fail_each_gives_up c (j ∷ js) jitter rooms tries =
      let (_, _, a, same) = fail_retries c j rooms (omega arith) in
      fail_each_gives_up (fail c j) js jitter (λ e. rooms (sym same ∙ e)) (omega (arith, a))

  -- A `join` before the first connection is open, of a client that is not reconnecting and in fewer
  -- than five rooms, is never sent, though the room counts as joined: when the connection opens,
  -- only the messages that were held back go out.
  pub early_join_unsent :
      (c : Client P) (room : String) (payload : P) (msg_id : Option String) (s : Stamp)
      → (stamps : ℕ → Stamp) → is_open c.ws ≡ false
      → c.reconnecting ≡ false
      → length c.joined_rooms < max_rooms
      → let c' = (send c "join" room payload msg_id s).0 in
        (has room c'.joined_rooms ≡ true) × ((on_open c' stamps).sent ≡ c.sent ++ held_back c)
  early_join_unsent c room payload msg_id s stamps o r few =
      let joined = record c { joined_rooms = put room payload c.joined_rooms } in
      let unsent = early_join c room payload msg_id s o few in
      rw unsent (
        has-put room room payload c.joined_rooms ∙ rw (eq_refl room) refl,
        (on_open_sent joined stamps).0 ∙ rw r (ap (λ x. x ++ held_back c) (append-nil c.sent)),
      )

  -- `sendRaw` sends exactly what parses to a `signal` for some room, while the connection is open;
  -- and it sends the message that was parsed and nothing else.
  pub send_raw_iff :
      (c : Client P) (parsed : Option (Message P))
      → ((send_raw c parsed).1 ≡ true) ↔ (
          (m : Message P) × (parsed ≡ some m)
          × (is_open c.ws ≡ true)
          × (m.type_ ≡ "signal")
          × (m.room ≢ "")
          × ((send_raw c parsed).0 ≡ record c { sent = c.sent ++ m ∷ [] }))
  unfolding send_raw
  send_raw_iff c none = (λ h. ground arith, λ (m, e, _, _, _, _). cc)
  send_raw_iff c (some m) = (
    λ h. (
      m,
      refl,
      ground arith,
      ground (arith, eq_iff m.type_ "signal"),
      ground (arith, eq_iff m.room ""),
      ground arith,
    ),
    λ (n, e, o, t, r, s).
        let same : m ≡ n = ground arith in
        let type : m.type_ ≡ "signal" = ap (λ k. k.type_) same ∙ t in
        let room : m.room ≢ "" = λ f. r (sym (ap (λ k. k.room) same) ∙ f) in
        let named : str_eq m.type_ "" ≡ false = ap (λ k. str_eq k "") type in
        ground (arith, eq_iff m.type_ "signal", eq_iff m.room ""),
  )
