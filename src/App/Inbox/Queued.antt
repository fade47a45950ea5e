-- ===== src/App/Inbox/Queued.antt =====
-- A presence, and a chat message, which goes to be decrypted or waits (apps/trapchat/src/App.jsx).
use trapchat.Prelude.{
  ◌≡◌, refl, ◌∙◌, sym, ap, subst, Bool, true, false, Option, none, some, String, List, [], ◌∷◌,
  ◌++◌, if◌then◌else◌, str_eq, eq_iff, arith, ◌⊎◌, Bool-cases, inl, inr, append-nil, append_assoc,
}
use trapchat.Prelude.JsMap.{get, has, put, get-put, has-put}
use trapchat.Prelude.JsMap.Unique.{put-IsUnique}
use trapchat.Crypto.Cipher.{Bytes}
use trapchat.App.Inbox.{Inbox, Wait, presence, chat, queue_of, salts_match, passphrase_of}
use trapchat.App.Inbox.Valid.{
  in_room, held, IsValid, presences, chats, Passes, in_room-append, queue_of-push, came_named,
  nil_last, nil_middle,
}

module _ {K D : Type 0} where
  unchanged :
      (s : Inbox K D) (room : String) (salt : Option Bytes)
      → IsValid s
      → Passes s s (presences room salt)
  unchanged s room salt v = record {
    valid = v;
    same_shown = refl;
    all_held = λ r. sym (append-nil (held r s));
  }

  waits-Passes :
      (s : Inbox K D) (room : String) (server : Bytes)
      → IsValid s
      → Passes s
          (record s {
            pending_key_rooms = put room tt s.pending_key_rooms;
            salts = put room server s.salts;
          })
          (presences room (some server))
  waits-Passes s room server v = record {
    valid = record {
      rooms_once = put-IsUnique room tt s.pending_key_rooms v.rooms_once;
      queues_once = v.queues_once;
      waiting = λ r f. v.waiting r (ground (arith, has-put room r tt s.pending_key_rooms, f));
      unnamed = v.unnamed;
    };
    same_shown = refl;
    all_held = λ r. sym (append-nil (held r s));
  }

  pub presence-Passes :
      (s : Inbox K D) (room : String) (salt : Option Bytes)
      → IsValid s
      → Passes s (presence s room salt).0 (presences room salt)
  unfolding presence
  presence-Passes s room none v = unchanged s room none v
  presence-Passes s room (some server) v =
      go (salts_match (get room s.salts) server) (passphrase_of room s.passphrases)
    where
      go :
          (b : Bool) (o : Option String)
          → Passes s
              (if◌then◌else◌ {A = Inbox K D × Option Wait} b
                (s, none)
                (elim o [
                  | none ↦ (s, none)
                  | some pp ↦ (
                    record s {
                      pending_key_rooms = put room tt s.pending_key_rooms;
                      salts = put room server s.salts;
                    },
                    some (record { room = room; passphrase = pp; salt = server }),
                  )
                ])).0
              (presences room (some server))
      go true o = unchanged s room (some server) v
      go false none = unchanged s room (some server) v
      go false (some pp) = waits-Passes s room server v

  queued-Passes :
      (s : Inbox K D) (room : String) (d : D)
      → IsValid s
      → str_eq room "" ≡ false
      → has room s.pending_key_rooms ≡ true
      → Passes s
          (record s {
            pending_messages =
                put room (queue_of room s.pending_messages ++ d ∷ []) s.pending_messages;
          })
          (chats room d)
  queued-Passes s room d v n h =
      let q = queue_of room s.pending_messages ++ d ∷ [] in
      record {
        valid = record {
          rooms_once = v.rooms_once;
          queues_once = put-IsUnique room q s.pending_messages v.queues_once;
          waiting = λ r f.
              ground (arith, get-put room r q s.pending_messages, f, h, eq_iff room r, v.waiting r);
          unnamed = ground (arith, get-put room "" q s.pending_messages, n, v.unnamed);
        };
        same_shown = refl;
        all_held = λ r.
            ap (λ x. in_room r s.decrypting ++ x) (queue_of-push r room d s.pending_messages)
            ∙ sym (
                append_assoc (in_room r s.decrypting) (queue_of r s.pending_messages)
                  (if str_eq room r then d ∷ [] else []))
            ∙ ap (λ x. held r s ++ x) (sym (came_named r room d n));
      }

  in_room_last :
      (r room : String) (d : D) (k : Option K) (xs : List (String × D × Option K))
      → in_room r (xs ++ (room, d, k) ∷ []) ≡ in_room r xs ++ (if str_eq room r then d ∷ [] else [])
  unfolding in_room
  in_room_last r room d k xs = ground (arith, in_room-append r xs ((room, d, k) ∷ []))

  handed-Passes :
      (s : Inbox K D) (room : String) (d : D) (k : Option K)
      → IsValid s
      → str_eq room "" ≡ false
      → has room s.pending_key_rooms ≡ false
      → Passes s (record s { decrypting = s.decrypting ++ (room, d, k) ∷ [] }) (chats room d)
  handed-Passes s room d k v n h = record {
    valid = record {
      rooms_once = v.rooms_once;
      queues_once = v.queues_once;
      waiting = v.waiting;
      unnamed = v.unnamed;
    };
    same_shown = refl;
    all_held = λ r.
        let new = if str_eq room r then d ∷ [] else [] in
        ap (λ x. x ++ queue_of r s.pending_messages) (in_room_last r room d k s.decrypting)
        ∙ swap r (Bool-cases (str_eq room r))
        ∙ ap (λ x. held r s ++ x) (sym (came_named r room d n));
  }
    where
      swap :
          (r : String)
          → (str_eq room r ≡ true) ⊎ (str_eq room r ≡ false)
          → (in_room r s.decrypting ++ (if str_eq room r then d ∷ [] else []))
              ++ queue_of r s.pending_messages
            ≡ held r s ++ (if str_eq room r then d ∷ [] else [])
      swap r (inl t) =
          nil_last (in_room r s.decrypting) (if str_eq room r then d ∷ [] else [])
            (queue_of r s.pending_messages)
            (v.waiting r (subst (λ x. has x s.pending_key_rooms ≡ false) ((eq_iff room r).0 t) h))
      swap r (inr t) =
          nil_middle (in_room r s.decrypting) (if str_eq room r then d ∷ [] else [])
            (queue_of r s.pending_messages) (ground (arith, t))

  pub chat-Passes :
      (s : Inbox K D) (room : String) (d : D) → IsValid s → Passes s (chat s room d) (chats room d)
  unfolding chat
  chat-Passes s room d v = elim (Bool-cases (str_eq room "")) [
    | inl t ↦
        let u : Passes s s (chats room d) = record {
          valid = v;
          same_shown = refl;
          all_held = λ r. sym (rw t (append-nil (held r s)));
        } in
        ground (arith, t, u)
    | inr n ↦ elim (Bool-cases (has room s.pending_key_rooms)) [
      | inl h ↦ let r = queued-Passes s room d v n h in ground (arith, n, h, r)
      | inr h ↦ let r = handed-Passes s room d (get room s.keys) v n h in ground (arith, n, h, r)
    ]
  ]
