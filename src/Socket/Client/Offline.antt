-- ===== src/Socket/Client/Offline.antt =====
-- Messages that are sent while apps/trapchat/src/socket/client.js is not connected.
use trapchat.Prelude.{
  ℕ, suc, ◌-◌, ◌≡◌, refl, sym, ◌∙◌, ap, ap₂, ◌⊎◌, inl, inr, true, false, ◌||◌, String, List, [],
  ◌∷◌, ◌++◌, map, append-nil, append_assoc, arith, ltb, if◌then◌else◌, length, length-append,
  map-append, str_eq, Bool-cases, take, take-nil, All, tests,
}
use trapchat.Socket.Client.{
  Client, Stamp, max_pending, emit, is_open, update_rooms, transmit, message, send, on_open, queued,
}
use trapchat.Socket.Client.Delivery.{Call, built, held_back, joins, on_open_sent}

-- The types that are put by while there is no connection.
abbrev pub IsHeldBack : String → Type 0
IsHeldBack type = (type ≡ "chat") ⊎ (type ≡ "media")

not_a_room_type :
    (type : String) → IsHeldBack type → (str_eq type "join" ≡ false) × (str_eq type "leave" ≡ false)
not_a_room_type type (inl e) = rw e (refl, refl)
not_a_room_type type (inr e) = rw e (refl, refl)

held_back_type :
    (type : String) → IsHeldBack type → (str_eq type "chat" || str_eq type "media") ≡ true
held_back_type type (inl e) = rw e refl
held_back_type type (inr e) = rw e refl

module _ {P : Type 0} where
  abbrev pub call : Client P → Call P → Client P
  call c k = (send c k.type_ k.room k.payload k.msg_id k.stamp).0

  pub call_each : Client P → List (Call P) → Client P
  call_each c [] = c
  call_each c (k ∷ ks) = call_each (call c k) ks

  -- A call while there is no connection.
  call_offline :
      (c : Client P) (k : Call P)
      → is_open c.ws ≡ false
      → IsHeldBack k.type_
      → call c k
        ≡ emit
            (if ltb (length c.pending_queue) max_pending
              then record c { pending_queue = c.pending_queue ++ (k.room, built k) ∷ [] }
              else c)
            (queued k.type_ k.room)
  unfolding send update_rooms transmit message
  call_offline c k o h = ground (arith, not_a_room_type k.type_ h, held_back_type k.type_ h)

  call_each_offline :
      (c : Client P) (ks : List (Call P))
      → is_open c.ws ≡ false
      → All (λ k. IsHeldBack k.type_) ks
      → (held_back (call_each c ks)
          ≡ held_back c ++ take (max_pending - length c.pending_queue) (map built ks))
        × ((call_each c ks).sent ≡ c.sent)
        × ((call_each c ks).joined_rooms ≡ c.joined_rooms)
        × ((call_each c ks).reconnecting ≡ c.reconnecting)
  unfolding call_each
  call_each_offline c [] o h =
      let n = max_pending - length c.pending_queue in
      (rw (take-nil n) (sym (append-nil (held_back c))), refl, refl, refl)
  call_each_offline c (k ∷ ks) o h = elim (Bool-cases (ltb (length c.pending_queue) max_pending)) [
    | inl room_left ↦
        let c₁ =
          emit (record c { pending_queue = c.pending_queue ++ (k.room, built k) ∷ [] })
            (queued k.type_ k.room) in
        let one : call c k ≡ c₁ = call_offline c k o h.0 ∙ rw room_left refl in
        let (p, s, j, r) = call_each_offline c₁ ks o h.1 in
        let n : max_pending - length c.pending_queue ≡ suc (max_pending - length c₁.pending_queue) =
          omega (tests, length-append c.pending_queue ((k.room, built k) ∷ [])) in
        rw (one, call_each)
          (
            p
                ∙ ap (λ x. x ++ take (max_pending - length c₁.pending_queue) (map built ks))
                    (map-append (λ q. q.1) c.pending_queue ((k.room, built k) ∷ []))
                ∙ append_assoc (held_back c) (built k ∷ []) _
                ∙ rw n refl,
            s,
            j,
            r,
          )
    | inr full ↦
        let c₁ = emit c (queued k.type_ k.room) in
        let one : call c k ≡ c₁ = call_offline c k o h.0 ∙ rw full refl in
        let (p, s, j, r) = call_each_offline c₁ ks o h.1 in
        let n : max_pending - length c.pending_queue ≡ 0 = omega tests in
        rw (one, call_each) (p ∙ rw n refl, s, j, r)
  ]

  -- Chat and media messages that are sent while there is no connection go out, each once and in
  -- order, when a connection opens, behind those that were held back before and behind the joins of
  -- a reconnect. Only those past the two hundred that are held back are lost.
  pub offline_then_open :
      (c : Client P) (ks : List (Call P)) (stamps : ℕ → Stamp)
      → is_open c.ws ≡ false
      → All (λ k. IsHeldBack k.type_) ks
      → (on_open (call_each c ks) stamps).sent
        ≡ (c.sent ++ (if c.reconnecting then joins c.joined_rooms stamps 0 else []))
          ++ (held_back c ++ take (max_pending - length c.pending_queue) (map built ks))
  offline_then_open c ks stamps o h =
      let (p, s, j, r) = call_each_offline c ks o h in
      (on_open_sent (call_each c ks) stamps).0
      ∙ ap₂ (λ x y. x ++ y)
          (ap₂ (λ x y. x ++ y) s (ap₂ (λ b rooms. if b then joins rooms stamps 0 else []) r j)) p
