-- ===== src/App/Chat.antt =====
-- apps/trapchat/src/App.jsx: `decryptAndAppendChat`, and a rotation of the key of a room that is not the
-- active one. The length of a text in UTF-16 units and its slices are parameters.
pub mod Arrives
use trapchat.Prelude.{
  ℕ, Bool, true, false, Option, none, some, String, List, [], ◌∷◌, ◌++◌, ltb, if◌then◌else◌, str_eq,
  ◌>>=◌,
}
use Prim.Native.String.{◌++◌ as join}
use trapchat.Prelude.JsMap.{get, put}
use trapchat.Crypto.Cipher.{Platform, decrypt, import_key}
use trapchat.Hooks.KeyRotation.{Rotating, decrypt_with_rotation}

abbrev pub max_text_length : ℕ
max_text_length = 50000

-- '[encrypted message — key mismatch]'
abbrev pub key_mismatch_text : String
key_mismatch_text = "[encrypted message — key mismatch]"

-- `text.length`, and `text.slice(0, n)`.
pub record Texts : Type 0 where
  pub length : String → ℕ
  pub slice : String → ℕ → String

abbrev pub truncation_mark : String
truncation_mark = "... [truncated]"

-- `text.slice(0, MAX_TEXT_LENGTH) + '... [truncated]'`
pub truncate : Texts → String → String
truncate x t = join (x.slice t max_text_length) truncation_mark

-- A message that comes.
pub record ChatData : Type 0 where
  pub id : Option String
  pub msg_id : Option String
  pub payload : String

-- A message as it is appended.
pub record ChatMessage : Type 0 where
  pub id : String
  pub text : String
  pub error : Bool
  pub sender_id : Option String
  pub sender_nickname : String
  pub p2p : Bool

-- The text, or what stands for one that could not be decrypted.
pub chat_text : Texts → Option String → String
unfolding truncate
chat_text x none = key_mismatch_text
chat_text x (some t) = if ltb max_text_length (x.length t) then truncate x t else t

-- `x || y`
pub given_or : Option String → String → String
given_or none d = d
given_or (some s) d = if str_eq s "" then d else s

-- `nicknames[data.id] || (data.id ? data.id.slice(0, 8) : '')`
pub nickname_of : Texts → List (String × String) → Option String → String
nickname_of x nicknames none = ""
nickname_of x nicknames (some id) =
    given_or (get id nicknames) (if str_eq id "" then "" else x.slice id 8)

module _ {K : Type 0} (p : Platform K) where
  -- With the room's key, or with the rotator where the room has none.
  pub decrypt_chat : Option K → Rotating K String → String → Option String
  decrypt_chat none rotating payload = decrypt_with_rotation (decrypt p) rotating payload
  decrypt_chat (some key) rotating payload = decrypt p key payload

  -- The message that is appended; `random` is `crypto.randomUUID()`.
  pub decrypt_and_append_chat :
      Texts
      → Option K
      → Rotating K String
      → List (String × String)
      → String
      → Bool
      → ChatData
      → ChatMessage
  decrypt_and_append_chat x key rotating nicknames random p2p d =
      let text = chat_text x (decrypt_chat key rotating d.payload) in
      record {
        id = given_or d.msg_id random;
        text = text;
        error = str_eq text key_mismatch_text;
        sender_id = d.id;
        sender_nickname = nickname_of x nicknames d.id;
        p2p = p2p;
      }

  -- `key_rotation` for a room that is not active: the keys after it, and whether it succeeded, if there
  -- was a key to try.
  pub rotate_inactive : List (String × K) → String → String → List (String × K) × Option Bool
  rotate_inactive keys room payload = elim (get room keys) [
    | none ↦ (keys, none)
    | some key ↦ elim (decrypt p key payload >>= import_key p) [
      | none ↦ (keys, some false)
      | some k ↦ (put room k keys, some true)
    ]
  ]
