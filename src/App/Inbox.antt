-- ===== src/App/Inbox.antt =====
-- apps/trapchat/src/App.jsx: the branches `presence`, `chat` and `receipt` of the listener that
-- `setupGlobalHandlers` sets. It is cut at the await of `deriveRoomKey`, where a `Wait` is what the run
-- keeps over it, and at that of `decryptAndAppendChat`: `decrypting` has the messages that were handed to it
-- and are not appended yet, each with its room and the key, `none` where `decryptWithRotation` is asked. A
-- chat message is of any type; App/Chat has what it becomes.
pub mod Valid
mod Queued
mod Flushed
pub mod Finished
pub mod Held
pub mod Stuck
pub mod Receipts
use trapchat.Prelude.{
  ℕ, zero, suc, get_elem?, Bool, true, false, ◌&&◌, ◌||◌, not, Option, none, some, String, List, [],
  ◌∷◌, ◌++◌, if◌then◌else◌, str_eq, ◌==◌, length,
}
use trapchat.Prelude.JsMap.{get, has, put, delete}
use trapchat.Hooks.Typing.{Mark}
use trapchat.Crypto.Cipher.{Bytes, Platform, derive_room_key}

pub record Inbox (K D : Type 0) : Type 0 where
  pub keys : List (String × K)
  pub active_key : Option K
  pub salts : List (String × Bytes)
  pub passphrases : List (String × String)
  pub pending_key_rooms : List (String × Mark)
  pub pending_messages : List (String × List D)
  pub decrypting : List (String × D × Option K)
  pub shown : List (String × D × Option K)
  pub receipts : List (String × D)

-- What a run that waits for a key keeps.
pub record Wait : Type 0 where
  pub room : String
  pub passphrase : String
  pub salt : Bytes

-- cachedSalt.every((b, i) => b === serverSalt[i])
pub every_equal : Bytes → Bytes → Bool
every_equal [] ys = true
every_equal (x ∷ xs) [] = false
every_equal (x ∷ xs) (y ∷ ys) = (x == y) && every_equal xs ys

unfoldable pub salts_match : Option Bytes → Bytes → Bool
salts_match none server = false
salts_match (some cached) server = (length cached == length server) && every_equal cached server

-- The passphrase, where there is one that is not empty.
unfoldable pub passphrase_of : String → List (String × String) → Option String
passphrase_of room passphrases = elim (get room passphrases) [
  | none ↦ none
  | some pp ↦ if str_eq pp "" then none else some pp
]

-- The messages that wait in a room.
abbrev pub queue_of : {D : Type 0} → String → List (String × List D) → List D
queue_of room m = elim (get room m) [ none ↦ [] | some ds ↦ ds ]

-- The list without the one at this place.
pub remove_at {ℓ} : {A : Type ℓ} → List A → ℕ → List A
remove_at [] i = []
remove_at (x ∷ xs) zero = xs
remove_at (x ∷ xs) (suc i) = x ∷ remove_at xs i

module _ {K D : Type 0} where
  -- `presence` with a salt, to its await; without one, and where the salts match, nothing waits.
  pub presence : Inbox K D → String → Option Bytes → Inbox K D × Option Wait
  presence s room none = (s, none)
  presence s room (some server) =
      if salts_match (get room s.salts) server
      then (s, none)
      else elim (passphrase_of room s.passphrases) [
        | none ↦ (s, none)
        | some pp ↦ (
          record s {
            pending_key_rooms = put room tt s.pending_key_rooms;
            salts = put room server s.salts;
          },
          some (record { room = room; passphrase = pp; salt = server }),
        )
      ]

  -- `chat`, to the await of the decryption.
  pub chat : Inbox K D → String → D → Inbox K D
  chat s room d =
      if str_eq room ""
      then s
      else if has room s.pending_key_rooms
      then record s {
        pending_messages = put room (queue_of room s.pending_messages ++ d ∷ []) s.pending_messages;
      }
      else record s { decrypting = s.decrypting ++ (room, d, get room s.keys) ∷ [] }

  -- `for (const qData of queued) client.emit('message', qData)`
  pub emit_all : Inbox K D → String → List D → Inbox K D
  emit_all s room [] = s
  emit_all s room (d ∷ ds) = emit_all (chat s room d) room ds

  -- The key is there.
  pub key_ready : Inbox K D → String → String → K → Inbox K D
  key_ready s active room key = record s {
    keys = put room key s.keys;
    active_key = if str_eq room active then some key else s.active_key;
    passphrases = delete room s.passphrases;
    pending_key_rooms = delete room s.pending_key_rooms;
  }

  -- And the messages that waited for it come again.
  pub flush : Inbox K D → String → Inbox K D
  flush s room = elim (get room s.pending_messages) [
    | none ↦ s
    | some [] ↦ s
    | some (d ∷ ds) ↦
        emit_all (record s { pending_messages = delete room s.pending_messages }) room (d ∷ ds)
  ]

  -- `presence` from its await on; where `deriveRoomKey` throws, the run ends.
  pub derived : Platform K → String → Inbox K D → Wait → Inbox K D
  derived p active s w = elim (derive_room_key p w.room w.passphrase w.salt) [
    | none ↦ s
    | some key ↦ flush (key_ready s active w.room key) w.room
  ]

  -- `chat` from there on, for the run numbered `i` of those that wait: the message is appended, and the
  -- receipt for it is sent.
  pub decrypted : Inbox K D → ℕ → Inbox K D
  decrypted s i = elim (get_elem? s.decrypting i) [
    | none ↦ s
    | some (room, d, key) ↦ record s {
      decrypting = remove_at s.decrypting i;
      shown = s.shown ++ (room, d, key) ∷ [];
      receipts = s.receipts ++ (room, d) ∷ [];
    }
  ]

-- The part of a room's state that presence and receipts change.
pub record RoomView : Type 0 where
  pub peer_count : ℕ
  pub peer_nicknames : List (String × String)
  pub expires_at : Option ℕ
  pub salt : Option String
  pub message_receipts : List (String × String)

pub record Presence : Type 0 where
  pub count : Option ℕ
  pub peers : Option (List (String × String))
  pub expires_at : Option ℕ
  pub salt : Option String

-- `x || y`, for what is falsy only when it is not there
abbrev pub or_else {ℓ} : {A : Type ℓ} → Option A → A → A
or_else none d = d
or_else (some x) d = x

-- `presence.expiresAt || current.expiresAt`
pub or_number : Option ℕ → Option ℕ → Option ℕ
or_number none d = d
or_number (some n) d = if n == 0 then d else some n

pub or_salt : Option String → Option String → Option String
or_salt none d = d
or_salt (some t) d = if str_eq t "" then d else some t

pub apply_presence : List (String × RoomView) → String → Presence → List (String × RoomView)
apply_presence rooms room p = elim (get room rooms) [
  | none ↦ rooms
  | some current ↦
      put room
        (record current {
          peer_count = or_else p.count 0;
          peer_nicknames = or_else p.peers current.peer_nicknames;
          expires_at = or_number p.expires_at current.expires_at;
          salt = or_salt p.salt current.salt;
        })
        rooms
]

unfoldable pub is_read : Option String → Bool
is_read none = false
is_read (some status) = str_eq status "read"

pub receipt : List (String × RoomView) → String → String → String → List (String × RoomView)
receipt rooms room message_id status =
    if str_eq message_id "" || str_eq status "" || str_eq room ""
    then rooms
    else elim (get room rooms) [
      | none ↦ rooms
      | some current ↦
          if is_read (get message_id current.message_receipts)
          then rooms
          else put room
              (record current { message_receipts = put message_id status current.message_receipts })
              rooms
    ]
