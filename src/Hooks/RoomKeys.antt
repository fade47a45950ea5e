-- ===== src/Hooks/RoomKeys.antt =====
-- apps/trapchat/src/hooks/useRoomManager.js: `setupRoomKey`, and the keys, salts and passphrases that it
-- and `removeRoom` keep. The generated key, the random salt and `trim` are arguments, and so is the text
-- of a link up to its room's name.
pub mod Ready
use trapchat.Prelude.{
  Bool, true, false, not, Option, none, some, String, List, if◌then◌else◌, str_eq,
}
use trapchat.Prelude.JsMap.{get, put, delete}
use trapchat.Crypto.Cipher.{Bytes, Platform, import_key, export_key, derive_room_key}
use Prim.Native.String.{◌++◌ as join}

-- What `keyRefs` holds: the text of a link's fragment, until it is imported, or a key.
pub data KeyRef (K : Type 0) : Type 0 where
  fragment : String → KeyRef K
  key : K → KeyRef K

pub record KeyStore (K : Type 0) : Type 0 where
  pub keys : List (String × KeyRef K)
  pub salts : List (String × Bytes)
  pub passphrases : List (String × String)

-- What a call draws and is given; `link` is the text before the last piece of the link, and `can_export`
-- says for which keys `exportKey` does not throw.
pub record Setup (K : Type 0) : Type 0 where
  pub room : String
  pub passphrase : String
  pub salt : Option Bytes
  pub random_salt : Bytes
  pub generated : K
  pub link : String
  pub can_export : K → Bool

-- What a call finds under the room's name.
pub data Found (K : Type 0) : Type 0 where
  text : String → Found K
  ready : K → Found K
  nothing : Found K

unfoldable pub found_key : {K : Type 0} → Option (KeyRef K) → Found K
found_key none = nothing
found_key (some (fragment s)) = if str_eq s "" then nothing else text s
found_key (some (key k)) = ready k

abbrev pub salt_or : Option Bytes → Bytes → Bytes
salt_or none random = random
salt_or (some s) random = s

abbrev pub put_key : {K : Type 0} → KeyStore K → String → K → KeyStore K
put_key s room k = record s { keys = put room (key k) s.keys }

module _ {K : Type 0} (p : Platform K) where
  -- `exportKey`, which gives a text or throws.
  pub exported : Setup K → K → Option String
  exported c k = if c.can_export k then some (export_key p k) else none

  -- A link with a key, or without one where it cannot be exported.
  pub key_link : Setup K → K → String
  unfolding exported
  key_link c k = elim (exported c k) [ none ↦ c.link | some t ↦ join c.link t ]

  -- The text of a fragment is imported; `none` is where the call throws.
  pub from_fragment : KeyStore K → Setup K → String → KeyStore K × Option (K × String)
  from_fragment s c t = elim (import_key p t) [
    | none ↦ (s, none)
    | some k ↦ (put_key s c.room k, some (k, key_link c k))
  ]

  -- A passphrase gives a key and a link without one.
  pub from_passphrase : KeyStore K → Setup K → KeyStore K × Option (K × String)
  from_passphrase s c =
      let salt = salt_or c.salt c.random_salt in
      let s' : KeyStore K = record s {
        salts = put c.room salt s.salts;
        passphrases = put c.room c.passphrase s.passphrases;
      } in
      elim (derive_room_key p c.room c.passphrase salt) [
        | none ↦ (s', none)
        | some k ↦ (put_key s' c.room k, some (k, c.link))
      ]

  -- A generated key is kept before it is exported, which may throw.
  pub from_nothing : KeyStore K → Setup K → KeyStore K × Option (K × String)
  from_nothing s c = elim (exported c c.generated) [
    | none ↦ (put_key s c.room c.generated, none)
    | some t ↦ (put_key s c.room c.generated, some (c.generated, join c.link t))
  ]

  -- Without a passphrase, the room's key or a generated one.
  pub without_passphrase : KeyStore K → Setup K → Found K → KeyStore K × Option (K × String)
  without_passphrase s c (ready k) = (s, some (k, key_link c k))
  without_passphrase s c _ = from_nothing s c

  pub setup_room_key : (String → String) → KeyStore K → Setup K → KeyStore K × Option (K × String)
  setup_room_key trim s c =
      let found = found_key (get c.room s.keys) in
      let other =
        if not (str_eq (trim c.passphrase) "")
        then from_passphrase s c
        else without_passphrase s c found in
      elim found [ text t ↦ from_fragment s c t | _ ↦ other ]

remove_room_keys : {K : Type 0} → KeyStore K → String → KeyStore K
remove_room_keys s room = record {
  keys = delete room s.keys;
  salts = delete room s.salts;
  passphrases = delete room s.passphrases;
}
