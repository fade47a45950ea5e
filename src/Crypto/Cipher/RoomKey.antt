-- ===== src/Crypto/Cipher/RoomKey.antt =====
-- The key of a room (apps/trapchat/src/lib/crypto.js, `deriveRoomKey`).
use trapchat.Prelude.{
  ℕ, ◌+◌, ◌≡◌, ◌≢◌, ap, ◌∙◌, sym, ◌↔◌, some, String, ◌++◌, length, take, drop, eq_iff, replicate,
  arith, append-nil, take-append_length, drop_all, length-append, length-drop, ◌≤◌,
}
use Prim.Native.String.{◌++◌ as join}
use trapchat.Crypto.Cipher.{
  Bytes, Platform, set_bytes, combined_salt, derive_room_key, pbkdf2_iterations,
}

abbrev pub room_material : String → String → String
room_material room passphrase = join (join room ":") passphrase

-- What is set behind `a` takes the place of what stood there.
set_bytes_behind :
    (a b rest : Bytes) (n : ℕ)
    → length a ≡ n
    → length (a ++ rest) ≤ n + length b
    → set_bytes (a ++ rest) b n ≡ a ++ b
unfolding set_bytes
set_bytes_behind a b rest n e l =
    let front : take n (a ++ rest) ≡ a =
      ap (λ m. take m (a ++ rest)) (sym e) ∙ take-append_length a rest in
    rw (front, drop_all (n + length b) (a ++ rest) l) (append-nil (a ++ b))

module _ {K : Type 0} (p : Platform K) where
  room_hash : String → Bytes
  room_hash room = p.sha256 (p.utf8 (join "trapchat:pbkdf2:v1:" room))

  -- The combined salt is the salt with the hash of the room behind it.
  combined_salt_lem :
      (room : String) (salt : Bytes)
      → length salt ≡ 32
      → length (room_hash room) ≡ 32
      → combined_salt p room salt ≡ salt ++ room_hash room
  unfolding combined_salt set_bytes room_hash
  combined_salt_lem room salt s h =
      let blank : Bytes = replicate 64 0 in
      let zeros : Bytes = drop (length salt) blank in
      let size : length (salt ++ zeros) ≤ 32 + length (room_hash room) =
        omega (arith, length-append salt zeros, length-drop (length salt) blank, s, h) in
      let none_before : 0 + length salt ≡ length salt = omega arith in
      ap (λ n. set_bytes (salt ++ drop n blank) (room_hash room) 32) none_before
      ∙ set_bytes_behind salt (room_hash room) zeros 32 s size

  -- A key is derived from a passphrase that is not empty and a salt of 32 bytes, and from nothing
  -- else; it is the one of the name and the passphrase, under the salt with the hash of the name
  -- behind it. A hash has 32 bytes.
  pub derive_room_key_iff :
      (room passphrase : String) (salt : Bytes) (key : K)
      → ((bytes : Bytes) → length (p.sha256 bytes) ≡ 32)
      → (derive_room_key p room passphrase salt ≡ some key) ↔ (
          (passphrase ≢ "")
          × (length salt ≡ 32)
          × (p.pbkdf2
                (p.utf8 (room_material room passphrase))
                (salt ++ p.sha256 (p.utf8 (join "trapchat:pbkdf2:v1:" room)))
                pbkdf2_iterations
              ≡ key))
  unfolding derive_room_key room_hash
  derive_room_key_iff room passphrase salt key h = ground (
    arith,
    eq_iff passphrase "",
    λ (s : length salt ≡ 32).
        combined_salt_lem room salt s (h (p.utf8 (join "trapchat:pbkdf2:v1:" room))),
  )
