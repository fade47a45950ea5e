-- ===== src/Crypto/Rotator/Grace.antt =====
-- Messages in flight while a key is replaced (apps/trapchat/src/lib/crypto.js, `KeyRotator`).
use trapchat.Prelude.{
  ℕ, ◌+◌, ◌≡◌, ◌<◌, refl, ◌⊎◌, inl, inr, true, Option-cases, Option, none, some, [], ◌∷◌, ◌++◌,
  length, get_elem?-append_length, get_elem?-set_self,
}
use trapchat.Crypto.Rotator.{
  Rotator, generating, exporting, grace_period, accept_key, tick, generated, exported, grace_due,
  try_key, decrypt,
}
use trapchat.Crypto.Rotator.Runs.{
  grace_due_early, rotating, tick_on, with_key, generated_lem, with_export, exported_lem,
}

-- A cipher that authenticates: a key opens what it sealed, and no other key makes anything else of it.
abbrev pub IsCipher : {K C T : Type 0} → (K → T → C) → (K → C → Option T) → Type 0
IsCipher {K = K} {T = T} seal open_ =
    ((k : K) (t : T) → open_ k (seal k t) ≡ some t)
    × ((k l : K) (t : T) → (open_ l (seal k t) ≡ none) ⊎ (open_ l (seal k t) ≡ some t))

module _ {K C T : Type 0} (seal : K → T → C) (open_ : K → C → Option T)
    (cipher : IsCipher seal open_) where
  -- What was sealed with the previous key or with the current one can be read.
  pub decrypt_previous :
      (r : Rotator K) (k : K) (t : T)
      → r.previous_key ≡ some k
      → decrypt open_ r (seal k t) ≡ some t
  unfolding decrypt try_key
  decrypt_previous r k t p = elim (Option-cases r.current_key) [
    | inl n ↦ rw (n, p, decrypt) (cipher.0 k t)
    | inr (l, e) ↦ elim (cipher.1 k l t) [
      | inl f ↦ rw (e, f, p, decrypt) (cipher.0 k t)
      | inr f ↦ rw (e, f, decrypt) refl
    ]
  ]

  pub decrypt_current :
      (r : Rotator K) (k : K) (t : T) → r.current_key ≡ some k → decrypt open_ r (seal k t) ≡ some t
  unfolding decrypt try_key
  decrypt_current r k t p = rw (p, cipher.0 k t, decrypt) refl

  -- With a cipher that authenticates, after a peer's key is accepted, what was sealed with the key
  -- before it can be read for thirty seconds, whenever the grace timer is asked for in that time;
  -- and so can what is sealed with the new key.
  pub accept_key_in_flight :
      (r : Rotator K) (k key : K) (now later : ℕ) (t : T)
      → r.current_key ≡ some k
      → later < now + grace_period
      → let r' = grace_due (accept_key r key now) later in
        (decrypt open_ r' (seal k t) ≡ some t) × (decrypt open_ r' (seal key t) ≡ some t)
  unfolding accept_key
  accept_key_in_flight r k key now later t c l =
      rw (grace_due_early (accept_key r key now) (now + grace_period) later refl l) (
        decrypt_previous (accept_key r key now) k t c,
        decrypt_current (accept_key r key now) key t refl,
      )

  -- With a cipher that authenticates, in a rotation of a rotator that runs and has a key, and with
  -- nothing in between: what was sealed with the old key can be read after each of its runs, what
  -- is sealed with the new key can be read as soon as there is one, and what is announced is the
  -- new key, exported, with the old one.
  pub rotation_in_flight :
      (r : Rotator K) (k key : K) (now : ℕ) (t : T)
      → r.ticking ≡ true
      → r.current_key ≡ some k
      → let i = length r.rotations in
        let a = tick r in
        let b = generated a i key in
        let c = exported b i now in
        (decrypt open_ a (seal k t) ≡ some t)
        × (decrypt open_ b (seal k t) ≡ some t)
        × (decrypt open_ b (seal key t) ≡ some t)
        × (decrypt open_ c (seal k t) ≡ some t)
        × (decrypt open_ c (seal key t) ≡ some t)
        × (c.announced
            ≡ r.announced
              ++ record { new_key = some key; exported_key = key; old_key = some k } ∷ [])
  rotation_in_flight r k key now t on c =
      let i = length r.rotations in
      let a = rotating r in
      let b = with_key a i r.current_key key in
      let d = with_export b i r.current_key key now in
      let begun = get_elem?-append_length r.rotations [] (generating r.current_key) in
      let made = get_elem?-set_self a.rotations i (exporting r.current_key key) begun in
      rw
        (
          tick_on r on,
          generated_lem a i r.current_key key begun,
          exported_lem b i r.current_key key now made,
        )
        (
          decrypt_previous a k t c,
          decrypt_previous b k t c,
          decrypt_current b key t refl,
          decrypt_previous d k t c,
          decrypt_current d key t refl,
          rw c refl,
        )
