-- ===== src/Examples/Crypto.antt =====
-- The theorems on apps/trapchat/src/lib/crypto.js at concrete keys.
use trapchat.Prelude.{
  replicate, String, ◌++◌, ℕ, refl, inl, inr, true, Option, none, some, [], ◌∷◌, arith, ◌==◌,
  if◌then◌else◌, Bool-cases, ==_iff,
}
use trapchat.Crypto.Cipher as Cipher
use trapchat.Crypto.Cipher.{Platform, derive_room_key}
use trapchat.Crypto.Rotator.{Rotator, new}
use trapchat.Crypto.Rotator.Grace.{IsCipher}

-- A cipher for numbers: the key stands beside the text.
abbrev seal : ℕ → ℕ → ℕ × ℕ
seal k t = (k, t)

abbrev open_ : ℕ → ℕ × ℕ → Option ℕ
open_ l c = if l == c.0 then some c.1 else none

cipher : IsCipher seal open_
cipher = (
  λ k t. ground (arith, ==_iff k k),
  λ k l t. elim (Bool-cases (l == k)) [ inl e ↦ inr (rw e refl) | inr e ↦ inl (rw e refl) ],
)

-- A rotator with the key 7.
abbrev rotator : Rotator ℕ
rotator = record new { current_key = some 7; ticking = true }

-- A browser whose derived key is the text and the salt that it is given.
abbrev pub platform : Platform (Cipher.Bytes × Cipher.Bytes)
platform = record {
  aes_encrypt = λ k iv bytes. bytes;
  aes_decrypt = λ k iv bytes. some bytes;
  export_raw = λ k. k.0;
  import_raw = λ bytes. some (bytes, []);
  btoa = λ bytes. "";
  atob = λ text. some [];
  utf8 = λ text. 1 ∷ [];
  from_utf8 = λ bytes. "";
  stringify = λ fields. "";
  parse = λ text. none;
  sha256 = λ bytes. replicate 32 0;
  pbkdf2 = λ material salt n. (material, salt);
}

abbrev secret : String
secret = "secret"

abbrev salt : Cipher.Bytes
salt = replicate 32 9

abbrev derived : Cipher.Bytes × Cipher.Bytes
derived = (1 ∷ [], salt ++ replicate 32 0)
