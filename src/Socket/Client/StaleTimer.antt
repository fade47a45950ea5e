-- ===== src/Socket/Client/StaleTimer.antt =====
-- The timer of a reconnect in apps/trapchat/src/socket/client.js when another `connect` is faster.
use trapchat.Prelude.{
  ℕ, ◌+◌, ◌<◌, ◌≡◌, ◌≢◌, refl, sym, ◌∙◌, true, false, Bool, ◌&&◌, if◌then◌else◌, ltb, length,
  Option, none, some, String, List, [], ◌∷◌, append-nil, arith,
}
use trapchat.Socket.Client.{
  Client, Message, Stamp, opened, open_, max_reconnect_attempts, delay_with, is_open, message, emit,
  error_max_rooms, update_rooms, transmit, send, send_if_open, flush_from, flush_queue, rejoin,
  connect, on_open, attempt_reconnect, on_close, reconnect_due,
}
use trapchat.Socket.Client.Delivery.{on_open_sent}
use trapchat.Socket.Client.GivenUp.{on_open_rooms}

module _ {P : Type 0} where
  -- The fields of the timer and of the reconnect.
  abbrev Waits : Client P → Option ℕ → Bool → Bool → Type 0
  Waits c timer reconnecting connected =
      (c.timer ≡ timer) × (c.reconnecting ≡ reconnecting) × (is_open c.ws ≡ connected)

  abbrev WaitsAs : Client P → Client P → Type 0
  WaitsAs c d = Waits d c.timer c.reconnecting (is_open c.ws)

  then_waits : (c d e : Client P) → WaitsAs c d → WaitsAs d e → WaitsAs c e
  then_waits c d e (a, b, o) (x, y, z) = (x ∙ a, y ∙ b, z ∙ o)

  update_rooms-WaitsAs :
      (c d : Client P) (type room : String) (payload : P)
      → update_rooms c type room payload ≡ some d
      → WaitsAs c d
  unfolding update_rooms
  update_rooms-WaitsAs c d type room payload e = ground (arith, e)

  send-WaitsAs :
      (c : Client P) (type room : String) (payload : P) (msg_id : Option String) (t : Stamp)
      → WaitsAs c (send c type room payload msg_id t).0
  unfolding send transmit
  send-WaitsAs c type room payload msg_id t =
      go (update_rooms c type room payload) (λ d e. update_rooms-WaitsAs c d type room payload e)
    where
      go :
          (o : Option (Client P))
          → ((d : Client P) → o ≡ some d → WaitsAs c d)
          → let r : Client P × Bool = elim o [
            | none ↦ (emit c error_max_rooms, false)
            | some d ↦ transmit d (message type room payload msg_id t)
          ] in
            WaitsAs c r.0
      go none same = (refl, refl, refl)
      go (some d) same = let (x, y, z) = same d refl in ground (arith, x, y, z)

  rejoin-WaitsAs :
      (c : Client P) (rooms : List (String × P)) (stamps : ℕ → Stamp) (n : ℕ)
      → WaitsAs c (rejoin c rooms stamps n)
  unfolding rejoin
  rejoin-WaitsAs c [] stamps n = (refl, refl, refl)
  rejoin-WaitsAs c ((room, payload) ∷ rooms) stamps n =
      let c' = (send c "join" room payload none (stamps n)).0 in
      then_waits c c' (rejoin c' rooms stamps (n + 1))
        (send-WaitsAs c "join" room payload none (stamps n))
        (rejoin-WaitsAs c' rooms stamps (n + 1))

  flush_from-WaitsAs : (c : Client P) (q : List (String × Message P)) → WaitsAs c (flush_from c q)
  unfolding flush_from send_if_open
  flush_from-WaitsAs c [] = (refl, refl, refl)
  flush_from-WaitsAs c ((room, m) ∷ q) =
      let same : WaitsAs c (send_if_open c m) = ground arith in
      then_waits c (send_if_open c m) (flush_from (send_if_open c m) q) same
        (flush_from-WaitsAs (send_if_open c m) q)

  some_room : (rooms : List (String × P)) → rooms ≢ [] → ltb 0 (length rooms) ≡ true
  some_room [] n = ground (arith, n)
  some_room (r ∷ rooms) n = ground arith

  -- The timer is there after an open as before, though the client is no longer reconnecting.
  on_open-Waits :
      (c : Client P) (stamps : ℕ → Stamp)
      → c.joined_rooms ≢ []
      → Waits (on_open c stamps) c.timer false true
  unfolding on_open flush_queue is_open
  on_open-Waits c stamps rooms =
      let (x, y, z) = flush_from-WaitsAs c₂ c₂.pending_queue in
      let (u, v, w) = go c.reconnecting refl in (x ∙ u, y ∙ v, z ∙ w)
    where
      c₁ : Client P
      c₁ = emit (record c { ws = some opened; settled = true; reconnect_attempts = 0 }) open_

      joined : Client P
      joined = record (rejoin c₁ c.joined_rooms stamps 0) { reconnecting = false }

      c₂ : Client P
      c₂ = if c.reconnecting && ltb 0 (length c.joined_rooms) then joined else c₁

      go :
          (b : Bool)
          → c.reconnecting ≡ b
          → Waits (if b && ltb 0 (length c.joined_rooms) then joined else c₁) c.timer false true
      go false r = (refl, r, refl)
      go true r =
          let (x, y, z) = rejoin-WaitsAs c₁ c.joined_rooms stamps 0 in
          let some_rooms : ltb 0 (length c.joined_rooms) ≡ true = some_room c.joined_rooms rooms in
          rw some_rooms (x, refl, z)

  closed_waits :
      (c : Client P) (jitter : ℕ)
      → c.settled ≡ true
      → c.joined_rooms ≢ []
      → c.reconnect_attempts < max_reconnect_attempts
      → let a = connect (on_close c jitter) in
        (a.timer ≡ some (delay_with c.reconnect_attempts jitter))
        × (a.joined_rooms ≡ c.joined_rooms)
  unfolding connect on_close attempt_reconnect
  closed_waits c jitter set rooms few = ground arith

  -- The connection of a client in a room closes, and a timer is set; before it is due, a join of the user
  -- connects anew. The timer stays: when it is due, it replaces the open connection, and the rooms are not
  -- joined over the one that takes its place.
  pub stale_timer_unjoins :
      (c : Client P) (jitter : ℕ) (stamps again : ℕ → Stamp)
      → c.settled ≡ true
      → c.joined_rooms ≢ []
      → c.reconnect_attempts < max_reconnect_attempts
      → let o = on_open (connect (on_close c jitter)) stamps in
        let p = on_open (reconnect_due o) again in
        (is_open o.ws ≡ true)
        × (o.timer ≡ some (delay_with c.reconnect_attempts jitter))
        × (is_open (reconnect_due o).ws ≡ false)
        × (p.joined_rooms ≡ o.joined_rooms)
        × (p.sent ≡ o.sent)
  unfolding connect reconnect_due is_open
  stale_timer_unjoins c jitter stamps again set rooms few =
      let a = connect (on_close c jitter) in
      let (t, j) = closed_waits c jitter set rooms few in
      let o = on_open a stamps in
      let (x, y, z) = on_open-Waits a stamps (λ e. rooms (sym j ∙ e)) in
      let d = reconnect_due o in
      let (sent, _, _) = on_open_sent d again in
      let (_, empty, _) = on_open_sent a stamps in
      (z, x ∙ t, refl, on_open_rooms d again y, sent ∙ rw (y, empty) (append-nil _ ∙ append-nil _))
