-- ===== src/Crypto/Cipher.antt =====
-- apps/trapchat/src/lib/crypto.js: the encryption of texts, bytes and media envelopes, and the
-- derivation of a room's key. WebCrypto, base64, UTF-8 and JSON are the fields of `Platform`; a random
-- initialization vector is an argument.
pub mod RoundTrips
pub mod RoomKey
use trapchat.Prelude.{
  ℕ, Bool, true, false, ◌||◌, not, Option, none, some, String, List, [], ◌∷◌, ◌++◌, take, drop,
  ◌==◌, if◌then◌else◌, length, str_eq, ◌>>=◌, replicate, ◌+◌,
}
use trapchat.Worker.Json.{Json, Fields, end, field, text, object, property}
use Prim.Native.String.{◌++◌ as join}

abbrev pub iv_length : ℕ
iv_length = 12

abbrev pub Bytes : Type 0
Bytes = List ℕ

-- What the browser gives. `none` is where it throws.
pub record Platform (K : Type 0) : Type 0 where
  pub aes_encrypt : K → Bytes → Bytes → Bytes
  pub aes_decrypt : K → Bytes → Bytes → Option Bytes
  pub export_raw : K → Bytes
  pub import_raw : Bytes → Option K
  pub btoa : Bytes → String
  pub atob : String → Option Bytes
  pub utf8 : String → Bytes
  pub from_utf8 : Bytes → String
  pub stringify : Fields → String
  pub parse : String → Option Json
  pub sha256 : Bytes → Bytes
  pub pbkdf2 : Bytes → Bytes → ℕ → K

-- What `data` is in an envelope; any other than a text is refused.
pub data_text : Option Json → Option String
data_text (some (text d)) = some d
data_text _ = none

-- `{ ...metadata, data }`
pub set_field : String → Json → Fields → Fields
set_field k v end = field k v end
set_field k v (field j w fs) = if str_eq j k then field j v fs else field j w (set_field k v fs)

-- `const { data, ...metadata } = parsed`
pub remove_field : String → Fields → Fields
remove_field k end = end
remove_field k (field j w fs) = if str_eq j k then fs else field j w (remove_field k fs)

-- An envelope that is no object has no `data` (and `null` throws).
pub fields_of : Json → Fields
fields_of (object fs) = fs
fields_of _ = end

-- bytes.set(source, offset)
pub set_bytes : Bytes → Bytes → ℕ → Bytes
set_bytes bytes source offset = take offset bytes ++ source ++ drop (offset + length source) bytes

abbrev pub pbkdf2_iterations : ℕ
pbkdf2_iterations = 600000

module _ {K : Type 0} (p : Platform K) where
  -- The bytes are the units of the text that goes to `btoa`.
  unfoldable pub uint8_to_base64 : Bytes → String
  uint8_to_base64 bytes = p.btoa bytes

  pub base64_to_uint8 : String → Option Bytes
  base64_to_uint8 base64 = p.atob base64

  pub encrypt_bytes : K → Bytes → Bytes → String
  unfolding uint8_to_base64
  encrypt_bytes key iv bytes = uint8_to_base64 (iv ++ p.aes_encrypt key iv bytes)

  unfoldable pub encrypt : K → Bytes → String → String
  unfolding uint8_to_base64
  encrypt key iv plaintext = uint8_to_base64 (iv ++ p.aes_encrypt key iv (p.utf8 plaintext))

  pub decrypt_bytes : K → String → Option Bytes
  unfolding base64_to_uint8
  decrypt_bytes key encoded = do
    data_ ← base64_to_uint8 encoded
    p.aes_decrypt key (take iv_length data_) (drop iv_length data_)

  unfoldable pub decrypt : K → String → Option String
  unfolding base64_to_uint8
  decrypt key encoded = do
    data_ ← base64_to_uint8 encoded
    plaintext ← p.aes_decrypt key (take iv_length data_) (drop iv_length data_)
    some (p.from_utf8 plaintext)

  pub encrypt_media_envelope : K → Bytes → Bytes → Fields → String
  encrypt_media_envelope key iv chunk_data metadata =
      encrypt key iv (p.stringify (set_field "data" (text (uint8_to_base64 chunk_data)) metadata))

  pub decrypt_media_envelope : K → String → Option (Bytes × Fields)
  decrypt_media_envelope key ciphertext = do
    json ← decrypt key ciphertext
    parsed ← p.parse json
    data_ ← data_text (property "data" (fields_of parsed))
    chunk_data ← base64_to_uint8 data_
    some (chunk_data, remove_field "data" (fields_of parsed))

  pub export_key : K → String
  export_key key = uint8_to_base64 (p.export_raw key)

  pub import_key : String → Option K
  import_key base64 = do raw ← base64_to_uint8 base64; p.import_raw raw

  -- Combined salt: the salt and the hash of the room's name.
  pub combined_salt : String → Bytes → Bytes
  combined_salt room salt =
      set_bytes (set_bytes (replicate 64 0) salt 0)
        (p.sha256 (p.utf8 (join "trapchat:pbkdf2:v1:" room))) 32

  unfoldable pub derive_room_key : String → String → Bytes → Option K
  derive_room_key room passphrase salt =
      if str_eq passphrase "" || not (length salt == 32)
      then none
      else some (
          p.pbkdf2 (p.utf8 (join (join room ":") passphrase)) (combined_salt room salt)
            pbkdf2_iterations)
