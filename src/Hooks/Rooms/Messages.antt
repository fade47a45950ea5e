-- ===== src/Hooks/Rooms/Messages.antt =====
-- Which messages a room keeps (apps/trapchat/src/hooks/useRoomManager.js).
use trapchat.Prelude.{
  ◌+◌, ◌≡◌, ◌≤◌, refl, ◌∙◌, sym, ap, Bool, false, Option, some, String, List, [], ◌∷◌, ◌++◌, length,
  take, drop, ltb, ltb→le, if◌then◌else◌, arith, take-append-drop, length-drop, inl, inr,
  Bool-cases, Option-cases, eq_refl, str_eq,
}
use trapchat.Prelude.JsMap.{get, get-put}
use trapchat.Hooks.Rooms.{
  RoomState, max_messages, excess, blob_urls, append_message, append_message_to_room,
}

module _ {M : Type 0} (blob_url : M → Option String) where
  blob_urls-append :
      (xs ys : List M)
      → blob_urls blob_url (xs ++ ys) ≡ blob_urls blob_url xs ++ blob_urls blob_url ys
  unfolding blob_urls
  blob_urls-append [] ys = refl
  blob_urls-append (x ∷ xs) ys = elim (Option-cases (blob_url x)) [
    | inl n ↦ rw (n, blob_urls) (blob_urls-append xs ys)
    | inr (u, e) ↦ rw (e, blob_urls) (ap (λ r. u ∷ r) (blob_urls-append xs ys))
  ]

  -- What a message does to a room: the newest 500 stay in their order, and each URL is either still
  -- held by one of them or revoked.
  abbrev pub KeepsNewest : List M → RoomState M × List String → Type 0
  KeepsNewest all (s, revoked) =
      (s.messages ≡ drop (excess all) all)
      × (length s.messages ≤ max_messages)
      × (blob_urls blob_url all ≡ revoked ++ blob_urls blob_url s.messages)

  append_message-KeepsNewest :
      (s : RoomState M) (is_active : Bool) (x : M)
      → KeepsNewest (s.messages ++ x ∷ []) (append_message blob_url s is_active x)
  unfolding append_message
  append_message-KeepsNewest s is_active x =
      let all = s.messages ++ x ∷ [] in
      elim (Bool-cases (ltb max_messages (length all))) [
        | inl t ↦
            rw (t, append_message)
              (
                refl,
                omega (arith, length-drop (excess all) all),
                ap (blob_urls blob_url) (sym (take-append-drop (excess all) all))
                    ∙ blob_urls-append (take (excess all) all) (drop (excess all) all),
              )
        | inr f ↦
            let fits : length all ≤ max_messages = ltb→le _ _ f in
            let none_over : excess all ≡ 0 = omega (arith, fits) in
            rw (f, append_message) (sym (ap (λ n. drop n all) none_over), fits, refl)
      ]

  unread-append_message :
      (s : RoomState M) (is_active : Bool) (x : M)
      → (append_message blob_url s is_active x).0.unread_count
        ≡ (if is_active then s.unread_count else s.unread_count + 1)
  unfolding append_message
  unread-append_message s is_active x =
      elim (Bool-cases (ltb max_messages (length (s.messages ++ x ∷ [])))) [
        | inl t ↦ rw (t, append_message) refl
        | inr f ↦ rw (f, append_message) refl
      ]

  -- A message to a room that is there: of the room's messages with the new one, the newest 500 are
  -- kept in order, each object URL is still held by one of them or is revoked, the message counts as
  -- unread unless the room is the active one, and no other room changes.
  pub append_message_to_room_lem :
      (rooms : List (String × RoomState M)) (active room : String) (x : M) (s : RoomState M)
      → get room rooms ≡ some s
      → let r = append_message_to_room blob_url rooms active room x in
        (s' : RoomState M) × (get room r.0 ≡ some s')
        × KeepsNewest (s.messages ++ x ∷ []) (s', r.1)
        × (s'.unread_count ≡ (if str_eq room active then s.unread_count else s.unread_count + 1))
        × ((other : String) → str_eq room other ≡ false → get other r.0 ≡ get other rooms)
  unfolding append_message_to_room
  append_message_to_room_lem rooms active room x s e =
      let r = append_message blob_url s (str_eq room active) x in
      rw (e, append_message_to_room)
        (
          r.0,
          get-put room room r.0 rooms ∙ rw (eq_refl room) refl,
          append_message-KeepsNewest s (str_eq room active) x,
          unread-append_message s (str_eq room active) x,
          λ other n. get-put room other r.0 rooms ∙ rw n refl,
        )
