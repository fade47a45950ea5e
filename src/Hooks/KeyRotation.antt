-- ===== src/Hooks/KeyRotation.antt =====
-- apps/trapchat/src/hooks/useKeyRotation.js: the rotator of a page, with its callback and the messages of
-- peers that rotate. The cipher and the texts of keys are parameters: `seal`, `open_`, `export`, `import_`.
pub mod Follows
use trapchat.Prelude.{Option, none, some, String, List, [], ◌∷◌, ◌++◌, ℕ, true}
use trapchat.Socket.Client.{Client, Stamp, send}
use trapchat.Crypto.Rotator.{
  Rotator, Announcement, start, stop, accept_key, decrypt, try_key, new as no_rotator,
}

-- A message that is appended.
pub data Notice : Type 0 where
  key_rotated rotated_by_peer rotation_failed : Notice

-- With the client of socket/client.js.
pub record Rotating (K C : Type 0) : Type 0 where
  pub rotator : Option (Rotator K)
  pub active_key : Option K
  pub client : Client C
  pub notices : List Notice

-- `new KeyRotator(...)` and `start(key)`, where the key may be `null`.
pub started_with : {K : Type 0} → Option K → Rotator K
started_with none = record no_rotator { ticking = true }
started_with (some k) = start no_rotator k

pub import_with : {K T : Type 0} → (T → Option K) → Option T → Option K
import_with import_ none = none
import_with import_ (some t) = import_ t

module _ {K C : Type 0} where
  pub start_rotation : Rotating K C → Option K → Rotating K C
  start_rotation s key = record s { rotator = some (started_with key) }

  stop_rotation : Rotating K C → Rotating K C
  stop_rotation s = record s { rotator = none }

  pub accept : Rotating K C → K → ℕ → Rotating K C
  accept s key now = record s {
    active_key = some key;
    rotator = elim s.rotator [ none ↦ none | some r ↦ some (accept_key r key now) ];
    notices = s.notices ++ rotated_by_peer ∷ [];
  }

module _ {K C T : Type 0} where
  -- `onRotate`; there is nothing to send where `encrypt` throws, as it does without an old key.
  pub on_rotate :
      (K → T → C) → (K → T) → Rotating K C → String → Announcement K → Stamp → Rotating K C
  on_rotate seal export s room a stamp = record s {
    active_key = a.new_key;
    client = elim a.old_key [
      | none ↦ s.client
      | some old ↦
          (send s.client "key_rotation" room (seal old (export a.exported_key)) none stamp).0
    ];
    notices = s.notices ++ key_rotated ∷ [];
  }

  -- `decryptWithRotation`
  pub decrypt_with_rotation : (K → C → Option T) → Rotating K C → C → Option T
  decrypt_with_rotation open_ s c = elim s.rotator [
    | none ↦ try_key open_ s.active_key c
    | some r ↦ decrypt open_ r c
  ]

  pub handle_key_rotation_message :
      (K → C → Option T) → (T → Option K) → Rotating K C → C → ℕ → Rotating K C
  handle_key_rotation_message open_ import_ s payload now =
      elim (import_with import_ (decrypt_with_rotation open_ s payload)) [
        | none ↦ record s { notices = s.notices ++ rotation_failed ∷ [] }
        | some key ↦ accept s key now
      ]
