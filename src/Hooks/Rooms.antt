-- ===== src/Hooks/Rooms.antt =====
-- apps/trapchat/src/hooks/useRoomManager.js: the messages of the rooms and what is unread. A message is
-- of any type, and `blob_url` says which object URL it holds, if any.
pub mod Messages
use trapchat.Prelude.{
  ℕ, ◌+◌, ◌-◌, Bool, true, false, Option, none, some, String, List, [], ◌∷◌, ◌++◌, length, take,
  drop, ltb, str_eq, if◌then◌else◌,
}
use trapchat.Prelude.JsMap.{get, put, delete}

abbrev pub max_messages : ℕ
max_messages = 500

-- The part of a room's state that these operations touch.
pub record RoomState (M : Type 0) : Type 0 where
  pub messages : List M
  pub unread_count : ℕ

module _ {M : Type 0} where
  abbrev pub default_room_state : RoomState M
  default_room_state = record { messages = []; unread_count = 0 }

  -- How many messages there are too many.
  abbrev pub excess : List M → ℕ
  excess messages = length messages - max_messages

  -- The object URLs of messages, which `revokeObjectURL` gets when they are evicted or removed.
  unfoldable pub blob_urls : (M → Option String) → List M → List String
  blob_urls blob_url [] = []
  blob_urls blob_url (x ∷ xs) = elim (blob_url x) [
    | none ↦ blob_urls blob_url xs
    | some u ↦ u ∷ blob_urls blob_url xs
  ]

  -- The room with one more message, and the URLs that are revoked.
  pub append_message : (M → Option String) → RoomState M → Bool → M → RoomState M × List String
  append_message blob_url s is_active x =
      let all = s.messages ++ x ∷ [] in
      let unread = if is_active then s.unread_count else s.unread_count + 1 in
      if ltb max_messages (length all)
      then (
        record { messages = drop (excess all) all; unread_count = unread },
        blob_urls blob_url (take (excess all) all),
      )
      else (record { messages = all; unread_count = unread }, [])

  -- `appendMessageToRoom`; a room that is not there gets no message.
  unfoldable pub append_message_to_room :
      (M → Option String)
      → List (String × RoomState M)
      → String
      → String
      → M
      → List (String × RoomState M) × List String
  append_message_to_room blob_url rooms active room x = elim (get room rooms) [
    | none ↦ (rooms, [])
    | some s ↦ let r = append_message blob_url s (str_eq room active) x in (put room r.0 rooms, r.1)
  ]

  -- What `switchRoom` does to the rooms.
  switch_room : List (String × RoomState M) → String → List (String × RoomState M)
  switch_room rooms room = elim (get room rooms) [
    | none ↦ put room default_room_state rooms
    | some s ↦ put room (record s { unread_count = 0 }) rooms
  ]

  -- `removeRoom`, with the URLs that are revoked.
  remove_room :
      (M → Option String)
      → List (String × RoomState M)
      → String
      → List (String × RoomState M) × List String
  remove_room blob_url rooms room = elim (get room rooms) [
    | none ↦ (rooms, [])
    | some s ↦ (delete room rooms, blob_urls blob_url s.messages)
  ]
