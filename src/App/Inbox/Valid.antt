-- ===== src/App/Inbox/Valid.antt =====
-- What an inbox holds of each room (apps/trapchat/src/App.jsx).
use trapchat.Prelude.{
  ℕ, ◌≡◌, refl, ◌∙◌, sym, ap, false, Option, String, List, [], ◌∷◌, ◌++◌, map, if◌then◌else◌,
  str_eq, eq_iff, arith, append-nil, append_assoc,
}
use trapchat.Prelude.JsMap.{get, has, put, get-put}
use trapchat.Prelude.JsMap.Unique.{IsUnique}
use trapchat.Crypto.Cipher.{Bytes}
use trapchat.App.Inbox.{Inbox, Wait, chat, emit_all, queue_of}

-- The messages of a room in a list of them.
unfoldable pub in_room : {K D : Type 0} → String → List (String × D × Option K) → List D
in_room r [] = []
in_room r ((room, d, k) ∷ decrypting) =
    if str_eq room r then d ∷ in_room r decrypting else in_room r decrypting

-- What is being decrypted of a room, and what waits in it behind that.
abbrev pub held : {K D : Type 0} → String → Inbox K D → List D
held r s = in_room r s.decrypting ++ queue_of r s.pending_messages

pub record IsValid {K D : Type 0} (s : Inbox K D) : Type 0 where
  pub rooms_once : IsUnique s.pending_key_rooms
  pub queues_once : IsUnique s.pending_messages
  pub waiting :
      (r : String) → has r s.pending_key_rooms ≡ false → queue_of r s.pending_messages ≡ []
  pub unnamed : queue_of "" s.pending_messages ≡ []

module _ {K D : Type 0} where
  pub in_room-append :
      (r : String) (xs ys : List (String × D × Option K))
      → in_room r (xs ++ ys) ≡ in_room r xs ++ in_room r ys
  unfolding in_room
  in_room-append r [] ys = refl
  in_room-append r ((room, d, k) ∷ xs) ys = ground (arith, in_room-append r xs ys)

  pub in_room-map :
      (r room : String) (k : Option K) (ds : List D)
      → in_room r (map (λ d. (room, d, k)) ds) ≡ (if str_eq room r then ds else [])
  unfolding in_room
  in_room-map r room k [] = ground arith
  in_room-map r room k (d ∷ ds) = ground (arith, in_room-map r room k ds)

  -- A queue that comes again in a room that waits no longer goes to be decrypted, in its order.
  pub emit_all_lem :
      (s : Inbox K D) (room : String) (ds : List D)
      → has room s.pending_key_rooms ≡ false
      → str_eq room "" ≡ false
      → emit_all s room ds
        ≡ record s { decrypting = s.decrypting ++ map (λ d. (room, d, get room s.keys)) ds }
  unfolding emit_all chat
  emit_all_lem s room [] f n = ap (λ l. record s { decrypting = l }) (sym (append-nil s.decrypting))
  emit_all_lem s room (d ∷ ds) f n =
      let s' : Inbox K D = record s {
        decrypting = s.decrypting ++ (room, d, get room s.keys) ∷ [];
      } in
      let one : chat s room d ≡ s' = ground (arith, f, n) in
      ap (λ x. emit_all x room ds) one
      ∙ emit_all_lem s' room ds f n
      ∙ ap (λ l. record s { decrypting = l })
          (append_assoc s.decrypting ((room, d, get room s.keys) ∷ [])
            (map (λ d. (room, d, get room s.keys)) ds))

-- What happens to an inbox.
pub data Event (D : Type 0) : Type 0 where
  presences : String → Option Bytes → Event D
  chats : String → D → Event D
  derives : Wait → Event D
  decrypts : ℕ → Event D

-- The messages that an event brings to a room.
abbrev pub came : {D : Type 0} → String → Event D → List D
came r (presences room salt) = []
came r (chats room d) = if str_eq room "" then [] else if str_eq room r then d ∷ [] else []
came r (derives w) = []
came r (decrypts i) = []

-- An inbox that shows what it showed, and holds of each room what it held, and behind that what came.
pub record Passes {K D : Type 0} (s s' : Inbox K D) (e : Event D) : Type 0 where
  pub valid : IsValid s'
  pub same_shown : s'.shown ≡ s.shown
  pub all_held : (r : String) → held r s' ≡ held r s ++ came r e

module _ {D : Type 0} where
  pub queue_of-push :
      (r room : String) (d : D) (m : List (String × List D))
      → queue_of r (put room (queue_of room m ++ d ∷ []) m)
        ≡ queue_of r m ++ (if str_eq room r then d ∷ [] else [])
  queue_of-push r room d m = ground (
    arith,
    get-put room r (queue_of room m ++ d ∷ []) m,
    eq_iff room r,
    append-nil (queue_of r m),
  )

  pub came_named :
      (r room : String) (d : D)
      → str_eq room "" ≡ false
      → came r (chats room d) ≡ (if str_eq room r then d ∷ [] else [])
  came_named r room d n = ground arith

module _ {ℓ} {A : Type ℓ} where
  pub nil_last : (xs ys zs : List A) → zs ≡ [] → (xs ++ ys) ++ zs ≡ (xs ++ zs) ++ ys
  nil_last xs ys zs e = rw (e, append-nil (xs ++ ys), append-nil xs) refl

  pub nil_middle : (xs ys zs : List A) → ys ≡ [] → (xs ++ ys) ++ zs ≡ (xs ++ zs) ++ ys
  nil_middle xs ys zs e = rw (e, append-nil xs, append-nil (xs ++ zs)) refl
