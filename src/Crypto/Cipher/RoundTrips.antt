-- ===== src/Crypto/Cipher/RoundTrips.antt =====
-- What is encrypted can be decrypted (apps/trapchat/src/lib/crypto.js).
use trapchat.Prelude.{
  ◌≡◌, refl, ap, ◌∙◌, sym, none, some, String, ◌++◌, length, take, drop, take-append_length,
  drop-append_length, str_eq, eq_refl, if◌then◌else◌, inl, inr, arith, Bool-cases,
}
use trapchat.Worker.Json.{Json, Fields, end, field, text, object, property}
use trapchat.Crypto.Cipher.{
  Bytes, Platform, iv_length, uint8_to_base64, base64_to_uint8, encrypt, decrypt, encrypt_bytes,
  decrypt_bytes, set_field, remove_field, data_text, fields_of, encrypt_media_envelope,
  decrypt_media_envelope, export_key, import_key,
}

-- What the browser documents of its functions: a key decrypts what it encrypted under the same vector,
-- and what is coded can be decoded.
pub record Laws {K : Type 0} (p : Platform K) : Type 0 where
  pub aes : (k : K) (iv bytes : Bytes) → p.aes_decrypt k iv (p.aes_encrypt k iv bytes) ≡ some bytes
  pub raw : (k : K) → p.import_raw (p.export_raw k) ≡ some k
  pub base64 : (bytes : Bytes) → p.atob (p.btoa bytes) ≡ some bytes
  pub text_coding : (s : String) → p.from_utf8 (p.utf8 s) ≡ s
  pub json : (fs : Fields) → p.parse (p.stringify fs) ≡ some (object fs)

take_iv : (iv bytes : Bytes) → length iv ≡ iv_length → take iv_length (iv ++ bytes) ≡ iv
take_iv iv bytes h = ap (λ n. take n (iv ++ bytes)) (sym h) ∙ take-append_length iv bytes

drop_iv : (iv bytes : Bytes) → length iv ≡ iv_length → drop iv_length (iv ++ bytes) ≡ bytes
drop_iv iv bytes h = ap (λ n. drop n (iv ++ bytes)) (sym h) ∙ drop-append_length iv bytes

property-set_field : (k : String) (v : Json) (fs : Fields) → property k (set_field k v fs) ≡ some v
unfolding property set_field
property-set_field k v end = rw (eq_refl k) refl
property-set_field k v (field j w fs) = elim (Bool-cases (str_eq j k)) [
  | inl e ↦ rw (e, property, e) refl
  | inr e ↦ rw (e, property, e) (property-set_field k v fs)
]

remove-set_field :
    (k : String) (v : Json) (fs : Fields)
    → property k fs ≡ none
    → remove_field k (set_field k v fs) ≡ fs
unfolding property set_field remove_field
remove-set_field k v end h = rw (eq_refl k) refl
remove-set_field k v (field j w fs) h = elim (Bool-cases (str_eq j k)) [
  | inl e ↦
      let q : some w ≡ none = sym (ap (λ b. if b then some w else property k fs) e) ∙ h in
      ground (arith, q)
  | inr e ↦
      rw (e, remove_field, e)
        (ap (field j w)
          (remove-set_field k v fs (sym (ap (λ b. if b then some w else property k fs) e) ∙ h)))
]

-- The same of one text: the browser reads what it makes of it.
pub record Reads {K : Type 0} (p : Platform K) (k : K) (iv : Bytes) (t : String) : Type 0 where
  pub coded :
      p.atob (p.btoa (iv ++ p.aes_encrypt k iv (p.utf8 t)))
      ≡ some (iv ++ p.aes_encrypt k iv (p.utf8 t))
  pub opened : p.aes_decrypt k iv (p.aes_encrypt k iv (p.utf8 t)) ≡ some (p.utf8 t)
  pub text_coded : p.from_utf8 (p.utf8 t) ≡ t

pub decrypt-encrypt_at :
    {K : Type 0} (p : Platform K) (k : K) (iv : Bytes) (t : String)
    → length iv ≡ iv_length
    → Reads p k iv t
    → decrypt p k (encrypt p k iv t) ≡ some t
unfolding decrypt encrypt uint8_to_base64 base64_to_uint8
decrypt-encrypt_at p k iv t h r =
    let c = p.aes_encrypt k iv (p.utf8 t) in
    rw (r.coded, take_iv iv c h, drop_iv iv c h, r.opened, r.text_coded) refl

module _ {K : Type 0} (p : Platform K) (laws : Laws p) (k : K) (iv : Bytes)
    (h : length iv ≡ iv_length) where
  -- With the browser's laws and a vector of twelve bytes, bytes that are encrypted come back.
  pub decrypt_bytes-encrypt_bytes :
      (bytes : Bytes) → decrypt_bytes p k (encrypt_bytes p k iv bytes) ≡ some bytes
  unfolding decrypt_bytes encrypt_bytes uint8_to_base64 base64_to_uint8
  decrypt_bytes-encrypt_bytes bytes =
      let c = p.aes_encrypt k iv bytes in
      rw (laws.base64 (iv ++ c), take_iv iv c h, drop_iv iv c h) (laws.aes k iv bytes)

  -- And so does a text.
  pub decrypt-encrypt : (t : String) → decrypt p k (encrypt p k iv t) ≡ some t
  decrypt-encrypt t = decrypt-encrypt_at p k iv t h record {
    coded = laws.base64 (iv ++ p.aes_encrypt k iv (p.utf8 t));
    opened = laws.aes k iv (p.utf8 t);
    text_coded = laws.text_coding t;
  }

  -- And so do the bytes and the metadata of a chunk, where the metadata has no `data` of its own.
  pub decrypt_media_envelope-encrypt_media_envelope :
      (chunk : Bytes) (metadata : Fields)
      → property "data" metadata ≡ none
      → decrypt_media_envelope p k (encrypt_media_envelope p k iv chunk metadata)
        ≡ some (chunk, metadata)
  unfolding decrypt_media_envelope encrypt_media_envelope uint8_to_base64 base64_to_uint8 data_text
      fields_of
  decrypt_media_envelope-encrypt_media_envelope chunk metadata n =
      let fs = set_field "data" (text (p.btoa chunk)) metadata in
      rw
        (
          decrypt-encrypt (p.stringify fs),
          laws.json fs,
          property-set_field "data" (text (p.btoa chunk)) metadata,
          laws.base64 chunk,
          remove-set_field "data" (text (p.btoa chunk)) metadata n,
        )
        refl

  -- And so does a key that is exported.
  pub import_key-export_key : import_key p (export_key p k) ≡ some k
  unfolding import_key export_key uint8_to_base64 base64_to_uint8
  import_key-export_key = rw (laws.base64 (p.export_raw k)) (laws.raw k)
