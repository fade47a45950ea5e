-- ===== src/Crypto/Rotator/Races.antt =====
-- Where the events of apps/trapchat/src/lib/crypto.js, class `KeyRotator`, get in each other's way.
use trapchat.Prelude.{
  ◌∙◌, ap, List, ℕ, ◌≡◌, ◌≤◌, refl, true, Option-cases, leb, if◌then◌else◌, inl, inr, Option, none,
  some, [], ◌∷◌, ◌++◌, length, get_elem?-append_length, get_elem?-set_self,
}
use trapchat.Crypto.Rotator.{
  Rotator, generating, exporting, stop, accept_key, tick, generated, exported, grace_due, try_key,
  decrypt,
}
use trapchat.Crypto.Rotator.Grace.{IsCipher, decrypt_previous}
use trapchat.Crypto.Rotator.Runs.{
  rotating, tick_on, with_key, generated_lem, with_export, exported_lem, grace_due_late,
}

decrypt_alone :
    {K C T : Type 0} (open_ : K → C → Option T) (r : Rotator K) (key : K) (c : C)
    → r.current_key ≡ some key
    → r.previous_key ≡ none
    → decrypt open_ r c ≡ open_ key c
unfolding decrypt try_key
decrypt_alone open_ r key c p q = elim (Option-cases (open_ key c)) [
  | inl n ↦ rw (p, n, q, decrypt) refl
  | inr (t, e) ↦ rw (p, e, decrypt) refl
]

-- A grace timer that is pending when a rotation begins, and fires while the rotation waits for its
-- key, clears the key that is being replaced: from then on nothing but the new key is tried.
pub stale_grace_timer :
    {K C T : Type 0} (open_ : K → C → Option T) (r : Rotator K) (key : K) (at now later : ℕ) (c : C)
    → r.ticking ≡ true
    → r.grace_timer ≡ some at
    → at ≤ now
    → let i = length r.rotations in
      let r' = exported (generated (grace_due (tick r) now) i key) i later in
      (r'.previous_key ≡ none) × (decrypt open_ r' c ≡ open_ key c)
stale_grace_timer {K = K} open_ r key at now later c on g l =
    let i = length r.rotations in
    let a : Rotator K = record (rotating r) { previous_key = none; grace_timer = none } in
    let b = with_key a i r.current_key key in
    let begun = get_elem?-append_length r.rotations [] (generating r.current_key) in
    let made = get_elem?-set_self a.rotations i (exporting r.current_key key) begun in
    rw
      (
        tick_on r on,
        grace_due_late (rotating r) at now g l,
        generated_lem a i r.current_key key begun,
        exported_lem b i r.current_key key later made,
      )
      (refl, decrypt_alone open_ (with_export b i r.current_key key later) key c refl refl)

-- A peer's key that is accepted while a rotation exports its own: the rotation goes on to announce
-- the peer's key as the new one, but the exported key that goes with it is the one that it made,
-- which is not the current key.
pub accepted_while_exporting :
    {K : Type 0} (r : Rotator K) (made theirs : K) (now later : ℕ)
    → r.ticking ≡ true
    → let i = length r.rotations in
      let r' = exported (accept_key (generated (tick r) i made) theirs now) i later in
      (r'.current_key ≡ some theirs)
      × (r'.announced
          ≡ r.announced
            ++ record { new_key = some theirs; exported_key = made; old_key = r.current_key } ∷ [])
unfolding accept_key
accepted_while_exporting r made theirs now later on =
    let i = length r.rotations in
    let a = rotating r in
    let b = with_key a i r.current_key made in
    let begun = get_elem?-append_length r.rotations [] (generating r.current_key) in
    let exports = get_elem?-set_self a.rotations i (exporting r.current_key made) begun in
    rw
      (
        tick_on r on,
        generated_lem a i r.current_key made begun,
        exported_lem (accept_key b theirs now) i r.current_key made later exports,
      )
      (refl, refl)

-- The grace timer is asked for at one time after another.
pub wait_each : {K : Type 0} → Rotator K → List ℕ → Rotator K
wait_each r [] = r
wait_each r (now ∷ nows) = wait_each (grace_due r now) nows

-- Without a timer nothing happens.
wait_each-idle :
    {K : Type 0} (r : Rotator K) (nows : List ℕ) → r.grace_timer ≡ none → wait_each r nows ≡ r
unfolding wait_each grace_due
wait_each-idle r [] g = refl
wait_each-idle r (now ∷ nows) g =
    let idle : grace_due r now ≡ r =
      ap
        (λ (o : Option ℕ). elim o [
          | none ↦ r
          | some x ↦ if leb x now then record r { previous_key = none; grace_timer = none } else r
        ])
        g in
    ap (λ x. wait_each x nows) idle ∙ wait_each-idle r nows g

-- A `stop` in the grace period takes the timer that would clear the previous key: with a cipher
-- that authenticates, what was sealed with that key can still be read, at whatever times the grace
-- timer is asked for.
pub stop_keeps_previous :
    {K C T : Type 0} (seal : K → T → C) (open_ : K → C → Option T) (r : Rotator K) (k key : K)
    (now : ℕ) (nows : List ℕ) (t : T)
    → IsCipher seal open_
    → r.current_key ≡ some k
    → decrypt open_ (wait_each (stop (accept_key r key now)) nows) (seal k t) ≡ some t
unfolding stop accept_key
stop_keeps_previous seal open_ r k key now nows t cipher c =
    rw (wait_each-idle (stop (accept_key r key now)) nows refl)
      (decrypt_previous seal open_ cipher (stop (accept_key r key now)) k t c)
