-- ===== src/App/Inbox/Stuck.antt =====
-- What follows a key that cannot be derived (apps/trapchat/src/App.jsx).
use trapchat.Prelude.{
  ◌≡◌, refl, sym, ◌∙◌, subst, true, false, Option, none, some, String, List, [], ◌∷◌, eq_refl,
  arith, length, ◌==◌, ==_iff,
}
use trapchat.Prelude.JsMap.{get, has, put, get-put, has-put}
use trapchat.Crypto.Cipher.{Bytes, Platform, derive_room_key}
use trapchat.App.Inbox.{
  Inbox, Wait, presence, chat, derived, salts_match, every_equal, passphrase_of,
}

every_equal_refl : (xs : Bytes) → every_equal xs xs ≡ true
unfolding every_equal
every_equal_refl [] = refl
every_equal_refl (x ∷ xs) = ground (arith, every_equal_refl xs)

-- A room that waits for a key of this salt.
record IsWaiting {K D : Type 0} (s : Inbox K D) (room : String) (server : Bytes) : Type 0 where
  waits : has room s.pending_key_rooms ≡ true
  salted : get room s.salts ≡ some server

module _ {K D : Type 0} (room : String) (server : Bytes) where
  -- Chat messages of the room, and where there is none, one more presence with the salt.
  pub run_later : Inbox K D → List (Option D) → Inbox K D
  run_later s [] = s
  run_later s (none ∷ es) = run_later (presence s room (some server)).0 es
  run_later s (some d ∷ es) = run_later (chat s room d) es

  presence-again :
      (s : Inbox K D) → IsWaiting s room server → presence s room (some server) ≡ (s, none)
  unfolding presence salts_match
  presence-again s w =
      ground (arith, w.salted, every_equal_refl server, ==_iff (length server) (length server))

  chat-IsWaiting :
      (s : Inbox K D) (d : D) → IsWaiting s room server → IsWaiting (chat s room d) room server
  unfolding chat
  chat-IsWaiting s d w = ground (arith, w.waits, w.salted)

  -- An inbox that shows and decrypts what the other does.
  abbrev IsSame : Inbox K D → Inbox K D → Type 0
  IsSame s s' = (s'.decrypting ≡ s.decrypting) × (s'.shown ≡ s.shown)

  chat-IsSame : (s : Inbox K D) (d : D) → IsWaiting s room server → IsSame s (chat s room d)
  unfolding chat
  chat-IsSame s d w = (ground (arith, w.waits), ground (arith, w.waits))

  run_later-IsSame :
      (s : Inbox K D) (es : List (Option D)) → IsWaiting s room server → IsSame s (run_later s es)
  unfolding run_later
  run_later-IsSame s [] w = (refl, refl)
  run_later-IsSame s (none ∷ es) w =
      subst (λ x. IsSame s (run_later x.0 es)) (sym (presence-again s w)) (run_later-IsSame s es w)
  run_later-IsSame s (some d ∷ es) w =
      let (a, b) = run_later-IsSame (chat s room d) es (chat-IsWaiting s d w) in
      let (x, y) = chat-IsSame s d w in (a ∙ x, b ∙ y)

  -- An inbox that marked the room.
  abbrev marked : Inbox K D → Inbox K D
  marked s = record s {
    pending_key_rooms = put room tt s.pending_key_rooms;
    salts = put room server s.salts;
  }

  marked-IsWaiting : (s : Inbox K D) → IsWaiting (marked s) room server
  marked-IsWaiting s = record {
    waits = has-put room room tt s.pending_key_rooms ∙ rw (eq_refl room) refl;
    salted = get-put room room server s.salts ∙ rw (eq_refl room) refl;
  }

  presence-waits :
      (s : Inbox K D) (pp : String)
      → salts_match (get room s.salts) server ≡ false
      → passphrase_of room s.passphrases ≡ some pp
      → presence s room (some server)
        ≡ (marked s, some (record { room = room; passphrase = pp; salt = server }))
  unfolding presence
  presence-waits s pp new held = ground (arith, new, held)

  derived-fails :
      (p : Platform K) (active : String) (s : Inbox K D) (w : Wait)
      → (length w.salt == 32) ≡ false
      → derived p active s w ≡ s
  unfolding derived derive_room_key
  derived-fails p active s w wrong = ground (arith, wrong)

  -- Where the salt of a presence is new, there is a passphrase and the salt has not 32 bytes, the key
  -- cannot be derived: from then on no chat message of the room that comes is shown or goes to be
  -- decrypted, however many come, and no further presence with the salt changes that.
  pub bad_salt_stalls :
      (p : Platform K) (active pp : String) (s : Inbox K D)
      → salts_match (get room s.salts) server ≡ false
      → passphrase_of room s.passphrases ≡ some pp
      → (length server == 32) ≡ false
      → let r = presence s room (some server) in
        let w : Wait = record { room = room; passphrase = pp; salt = server } in
        (r.1 ≡ some w)
        × ((es : List (Option D))
            → let s' = run_later (derived p active r.0 w) es in
              (s'.decrypting ≡ s.decrypting) × (s'.shown ≡ s.shown))
  bad_salt_stalls p active pp s new held wrong =
      let w : Wait = record { room = room; passphrase = pp; salt = server } in
      rw (presence-waits s pp new held) (
        refl,
        λ es.
            rw (derived-fails p active (marked s) w wrong)
              (run_later-IsSame (marked s) es (marked-IsWaiting s)),
      )
