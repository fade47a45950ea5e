-- ===== src/Socket/Client/GivenUp.antt =====
-- What is left of the rooms of apps/trapchat/src/socket/client.js once it has given up.
use trapchat.Prelude.{
  ℕ, ◌+◌, ◌≡◌, ◌≢◌, refl, sym, ◌∙◌, ap, true, false, some, List, [], ◌∷◌, ◌++◌, append-nil, arith,
  length,
}
use trapchat.Socket.Client.{
  Client, Stamp, max_reconnect_attempts, opened, open_, emit, is_open, connect, on_open, on_error,
  attempt_reconnect, on_close,
}
use trapchat.Socket.Client.Delivery.{held_back, flush_queue_sent, on_open_sent}
use trapchat.Socket.Client.Reconnect.{fail, fail_each, fail_retries, fail_gives_up}

module _ {P : Type 0} where
  -- A failed try sends nothing and forgets nothing.
  fail_keeps :
      (c : Client P) (jitter : ℕ)
      → ((fail c jitter).sent ≡ c.sent)
        × ((fail c jitter).pending_queue ≡ c.pending_queue)
        × ((fail c jitter).joined_rooms ≡ c.joined_rooms)
  unfolding on_close on_error connect attempt_reconnect
  fail_keeps c jitter = ground arith

  -- An open that is no reconnect leaves the rooms as they are.
  pub on_open_rooms :
      (c : Client P) (stamps : ℕ → Stamp)
      → c.reconnecting ≡ false
      → (on_open c stamps).joined_rooms ≡ c.joined_rooms
  unfolding on_open is_open
  on_open_rooms c stamps r =
      rw r
        (flush_queue_sent
          (emit
            (record c {
              ws = some opened;
              settled = true;
              reconnecting = false;
              reconnect_attempts = 0;
            })
            open_)
          refl).3

  -- A client in a room whose tries have all failed, and one more, has given up. When it is connected
  -- again later, it still counts as being in all its rooms, but no room is joined: what goes
  -- out is only the messages that were held back.
  pub given_up_unjoined :
      (c : Client P) (js : List ℕ) (jitter : ℕ) (stamps : ℕ → Stamp)
      → c.joined_rooms ≢ []
      → c.reconnect_attempts + length js ≡ max_reconnect_attempts
      → let d = on_open (connect (fail (fail_each c js) jitter)) stamps in
        (d.joined_rooms ≡ c.joined_rooms) × (d.sent ≡ c.sent ++ held_back c)
  unfolding fail_each connect
  given_up_unjoined c [] jitter stamps rooms tries =
      let (s, q, j) = fail_keeps c jitter in
      let (r, _, _, _) = fail_gives_up c jitter rooms (omega arith) in
      let again = connect (fail c jitter) in
      (
        on_open_rooms again stamps r ∙ j,
        (on_open_sent again stamps).0
            ∙ rw (r, s, q) (ap (λ x. x ++ held_back c) (append-nil c.sent)),
      )
  given_up_unjoined c (i ∷ js) jitter stamps rooms tries =
      let (s, q, j) = fail_keeps c i in
      let (_, _, a, same) = fail_retries c i rooms (omega arith) in
      let (k, t) =
        given_up_unjoined (fail c i) js jitter stamps (λ e. rooms (sym same ∙ e))
          (omega (arith, a)) in
      (k ∙ j, t ∙ rw (s, q) refl)
