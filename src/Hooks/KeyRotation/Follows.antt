-- ===== src/Hooks/KeyRotation/Follows.antt =====
-- What a rotation does to the peers (apps/trapchat/src/hooks/useKeyRotation.js).
use trapchat.Prelude.{
  ◌≡◌, ◌<◌, ◌+◌, ℕ, refl, arith, ◌∙◌, ap, Option, none, some, String, [], ◌∷◌, ◌++◌, if◌then◌else◌,
  append-nil,
}
use trapchat.Crypto.Rotator.{Rotator, grace_period, accept_key, grace_due, decrypt}
use trapchat.Crypto.Rotator.Grace.{IsCipher, accept_key_in_flight, decrypt_current}
use trapchat.Socket.Client.{Client, Stamp, is_open, update_rooms, transmit, message, send}
use trapchat.Hooks.KeyRotation.{
  Rotating, on_rotate, decrypt_with_rotation, accept, import_with, handle_key_rotation_message,
}

module _ {K C T : Type 0} (seal : K → T → C) (open_ : K → C → Option T)
    (cipher : IsCipher seal open_) (export : K → T) (import_ : T → Option K)
    (comes_back : (k : K) → import_ (export k) ≡ some k) where
  send_rotation :
      (c : Client C) (room : String) (payload : C) (stamp : Stamp)
      → let c' = (send c "key_rotation" room payload none stamp).0 in
        (c'.sent
          ≡ c.sent
            ++ (if is_open c.ws then message "key_rotation" room payload none stamp ∷ [] else []))
        × (c'.pending_queue ≡ c.pending_queue)
  unfolding send update_rooms transmit message
  send_rotation c room payload stamp = (ground (arith, append-nil c.sent), ground arith)

  accepted :
      (t : Rotating K C) (old key : K) (r : Rotator K) (now : ℕ)
      → t.rotator ≡ some r
      → r.current_key ≡ some old
      → handle_key_rotation_message open_ import_ t (seal old (export key)) now ≡ accept t key now
  unfolding handle_key_rotation_message decrypt_with_rotation import_with
  accepted t old key r now e c =
      let d = decrypt_current seal open_ cipher r old (export key) c in
      let read : decrypt_with_rotation open_ t (seal old (export key)) ≡ some (export key) =
        ground (arith, e, d) in
      ground (arith, read, comes_back key)

  -- With a cipher that authenticates and keys that can be exported and imported: what a rotation broadcasts
  -- takes a peer, whose rotator has the old key, to the new one. It is then the key of the peer's page
  -- and of its rotator, and for thirty seconds the peer reads what is sealed with either key. The new
  -- key is broadcast only if the socket is open, and otherwise neither sent nor kept, though the page that
  -- rotates has the new key in both cases.
  pub peer_follows :
      (s t : Rotating K C) (room : String) (old key : K) (r : Rotator K) (now later : ℕ)
      (stamp : Stamp)
      → t.rotator ≡ some r
      → r.current_key ≡ some old
      → let sent : C = seal old (export key) in
        let s' =
          on_rotate seal export s room
            record { new_key = some key; exported_key = key; old_key = some old }
            stamp in
        let t' = handle_key_rotation_message open_ import_ t sent now in
        (s'.client.sent
          ≡ s.client.sent
            ++ (if is_open s.client.ws
                then message "key_rotation" room sent none stamp ∷ []
                else []))
        × (s'.client.pending_queue ≡ s.client.pending_queue)
        × (s'.active_key ≡ some key)
        × (t'.active_key ≡ some key)
        × (t'.rotator ≡ some (accept_key r key now))
        × (later < now + grace_period
            → (m : T)
            → (decrypt open_ (grace_due (accept_key r key now) later) (seal old m) ≡ some m)
              × (decrypt open_ (grace_due (accept_key r key now) later) (seal key m) ≡ some m))
  unfolding on_rotate accept
  peer_follows s t room old key r now later stamp e c =
      let a = accepted t old key r now e c in
      let (sent, kept) = send_rotation s.client room (seal old (export key)) stamp in
      (
        sent,
        kept,
        refl,
        ap (λ q. q.active_key) a,
        ap (λ q. q.rotator) a ∙ rw e refl,
        λ l m. accept_key_in_flight seal open_ cipher r old key now later m c l,
      )
