-- ===== src/Socket/Client/Delivery.antt =====
-- What reaches the gateway of the messages that are sent while apps/trapchat/src/socket/client.js
-- is not connected, and in which order.
use trapchat.Prelude.{
  ℕ, ◌+◌, ◌≡◌, refl, sym, ◌∙◌, ap₂, Bool, true, false, ◌&&◌, Option, none, some, String, List, [],
  ◌∷◌, ◌++◌, map, append-nil, append_assoc, arith, ltb, if◌then◌else◌, length, All, All-imp, lt→ltb,
}
use trapchat.Prelude.JsMap.{has, put, has-put_kept, has-All}
use trapchat.Socket.Client.{
  Client, Message, Stamp, emit, is_open, update_rooms, transmit, message, send, send_if_open,
  flush_from, flush_queue, rejoin, on_open, opened, open_,
}

-- The arguments of a `send`.
pub record Call (P : Type 0) : Type 0 where
  pub type_ : String
  pub room : String
  pub payload : P
  pub msg_id : Option String
  pub stamp : Stamp

module _ {P : Type 0} where
  -- The message that a call makes.
  abbrev pub built : Call P → Message P
  built k = message k.type_ k.room k.payload k.msg_id k.stamp

  -- The messages that are put by.
  abbrev pub held_back : Client P → List (Message P)
  held_back c = map (λ r. r.1) c.pending_queue

  -- The `join` messages for the rooms, with the stamps from `n` on.
  abbrev pub joins : List (String × P) → (ℕ → Stamp) → ℕ → List (Message P)
  joins [] stamps n = []
  joins (r ∷ rooms) stamps n = message "join" r.0 r.1 none (stamps n) ∷ joins rooms stamps (n + 1)

  send_if_open_opened :
      (c : Client P) (m : Message P)
      → is_open c.ws ≡ true
      → send_if_open c m ≡ record c { sent = c.sent ++ m ∷ [] }
  unfolding send_if_open
  send_if_open_opened c m o = rw o

  flush_from_sent :
      (c : Client P) (q : List (String × Message P))
      → is_open c.ws ≡ true
      → ((flush_from c q).sent ≡ c.sent ++ map (λ r. r.1) q)
        × ((flush_from c q).pending_queue ≡ [])
        × ((flush_from c q).reconnect_attempts ≡ c.reconnect_attempts)
        × ((flush_from c q).joined_rooms ≡ c.joined_rooms)
  unfolding flush_from
  flush_from_sent c [] o = (sym (append-nil c.sent), refl, refl, refl)
  flush_from_sent c ((room, m) ∷ q) o =
      let (s, p, a, j) = flush_from_sent (record c { sent = c.sent ++ m ∷ [] }) q o in
      rw (send_if_open_opened c m o, flush_from)
        (s ∙ append_assoc c.sent (m ∷ []) (map (λ r. r.1) q), p, a, j)

  pub flush_queue_sent :
      (c : Client P)
      → is_open c.ws ≡ true
      → ((flush_queue c).sent ≡ c.sent ++ held_back c)
        × ((flush_queue c).pending_queue ≡ [])
        × ((flush_queue c).reconnect_attempts ≡ c.reconnect_attempts)
        × ((flush_queue c).joined_rooms ≡ c.joined_rooms)
  unfolding flush_queue
  flush_queue_sent c o = flush_from_sent c c.pending_queue o

  update_rooms_known :
      (c : Client P) (room : String) (payload : P)
      → has room c.joined_rooms ≡ true
      → update_rooms c "join" room payload
        ≡ some (record c { joined_rooms = put room payload c.joined_rooms })
  unfolding update_rooms
  update_rooms_known c room payload h = ground arith

  transmit_opened :
      (c : Client P) (m : Message P)
      → is_open c.ws ≡ true
      → (transmit c m).0 ≡ record c { sent = c.sent ++ m ∷ [] }
  unfolding transmit
  transmit_opened c m o = ground arith

  rejoin_one :
      (c : Client P) (room : String) (payload : P) (s : Stamp)
      → is_open c.ws ≡ true
      → has room c.joined_rooms ≡ true
      → (send c "join" room payload none s).0 ≡ record c {
        joined_rooms = put room payload c.joined_rooms;
        sent = c.sent ++ message "join" room payload none s ∷ [];
      }
  unfolding send
  rejoin_one c room payload s o h =
      rw (update_rooms_known c room payload h, send) (transmit_opened _ _ o)

  rejoin_sent :
      (c : Client P) (rooms : List (String × P)) (stamps : ℕ → Stamp) (n : ℕ)
      → is_open c.ws ≡ true
      → All (λ r. has r.0 c.joined_rooms ≡ true) rooms
      → ((rejoin c rooms stamps n).sent ≡ c.sent ++ joins rooms stamps n)
        × ((rejoin c rooms stamps n).pending_queue ≡ c.pending_queue)
        × (is_open (rejoin c rooms stamps n).ws ≡ true)
        × ((rejoin c rooms stamps n).reconnect_attempts ≡ c.reconnect_attempts)
  unfolding rejoin
  rejoin_sent c [] stamps n o h = (sym (append-nil c.sent), refl, o, refl)
  rejoin_sent c ((room, payload) ∷ rooms) stamps n o h =
      let m = message "join" room payload none (stamps n) in
      let c' = record c {
        joined_rooms = put room payload c.joined_rooms;
        sent = c.sent ++ m ∷ [];
      } in
      let still =
        All-imp (λ r. has r.0 c.joined_rooms ≡ true) (λ r. has r.0 c'.joined_rooms ≡ true)
          (λ r p. has-put_kept room r.0 payload c.joined_rooms p) rooms h.1 in
      let (s, p, w, a) = rejoin_sent c' rooms stamps (n + 1) o still in
      rw (rejoin_one c room payload (stamps n) o h.0, rejoin)
        (s ∙ append_assoc c.sent (m ∷ []) (joins rooms stamps (n + 1)), p, w, a)

  -- When a connection opens, the rooms are joined again after a reconnect, in the order in which they
  -- were joined; then all the messages that were held back go out, in the order in which they were
  -- sent; and then nothing is held back, and the count of tries is 0.
  pub on_open_sent :
      (c : Client P) (stamps : ℕ → Stamp)
      → ((on_open c stamps).sent
          ≡ (c.sent ++ (if c.reconnecting then joins c.joined_rooms stamps 0 else []))
            ++ held_back c)
        × ((on_open c stamps).pending_queue ≡ [])
        × ((on_open c stamps).reconnect_attempts ≡ 0)
  unfolding on_open is_open
  on_open_sent c stamps = go c.reconnecting c.joined_rooms (has-All c.joined_rooms)
    where
      c₁ : Client P
      c₁ = emit (record c { ws = some opened; settled = true; reconnect_attempts = 0 }) open_

      Delivers : Client P → List (Message P) → Type 0
      Delivers c₂ extra =
          ((flush_queue c₂).sent ≡ (c.sent ++ extra) ++ held_back c)
          × ((flush_queue c₂).pending_queue ≡ [])
          × ((flush_queue c₂).reconnect_attempts ≡ 0)

      plain : Delivers c₁ []
      plain = let (s, p, a, _) = flush_queue_sent c₁ refl in (rw (append-nil c.sent) s, p, a)

      go :
          (b : Bool) (rooms : List (String × P))
          → All (λ r. has r.0 c.joined_rooms ≡ true) rooms
          → Delivers
              (if b && ltb 0 (length rooms)
                then record (rejoin c₁ rooms stamps 0) { reconnecting = false }
                else c₁)
              (if b then joins rooms stamps 0 else [])
      go false rooms h = plain
      go true [] h = plain
      go true (r ∷ rooms) h =
          let (s, p, w, a) = rejoin_sent c₁ (r ∷ rooms) stamps 0 refl h in
          let c₂ = record (rejoin c₁ (r ∷ rooms) stamps 0) { reconnecting = false } in
          let (s', p', a', _) = flush_queue_sent c₂ w in
          let some_rooms : ltb 0 (length (r ∷ rooms)) ≡ true = lt→ltb 0 _ (omega arith) in
          rw some_rooms (s' ∙ ap₂ (λ x y. x ++ map (λ q. q.1) y) s p, p', a' ∙ a)
