-- ===== src/App/Inbox/Flushed.antt =====
-- The messages that waited, once there is a key (apps/trapchat/src/App.jsx).
use trapchat.Prelude.{
  ◌≡◌, refl, ◌∙◌, sym, ap, subst, false, Option, none, some, String, List, [], ◌∷◌, ◌++◌, map,
  str_eq, eq_iff, eq_refl, arith, Bool-cases, inl, inr, append-nil,
}
use trapchat.Prelude.JsMap.{get, put, delete}
use trapchat.Prelude.JsMap.Unique.{has-delete, get-delete, delete-IsUnique}
use trapchat.App.Inbox.{Inbox, Wait, emit_all, key_ready, flush, queue_of}
use trapchat.App.Inbox.Valid.{
  in_room, held, IsValid, derives, Passes, in_room-append, in_room-map, emit_all_lem,
}

module _ {K D : Type 0} (s : Inbox K D) (active : String) (w : Wait) (key : K) (v : IsValid s) where
  none_waits-Passes :
      queue_of w.room s.pending_messages ≡ [] → Passes s (key_ready s active w.room key) (derives w)
  unfolding key_ready
  none_waits-Passes e = record {
    valid = record {
      rooms_once = delete-IsUnique w.room s.pending_key_rooms v.rooms_once;
      queues_once = v.queues_once;
      waiting = λ r f. ground (
        arith,
        has-delete w.room r s.pending_key_rooms v.rooms_once,
        eq_iff w.room r,
        v.waiting r,
        e,
      );
      unnamed = v.unnamed;
    };
    same_shown = refl;
    all_held = λ r. sym (append-nil (held r s));
  }

  -- The inbox once a queue is being decrypted with the new key.
  abbrev flushed : List D → Inbox K D
  flushed q = record (key_ready s active w.room key) {
    pending_messages = delete w.room s.pending_messages;
    decrypting = s.decrypting ++ map (λ d. (w.room, d, get w.room (put w.room key s.keys))) q;
  }

  flushed-Passes :
      (q : List D) → get w.room s.pending_messages ≡ some q → Passes s (flushed q) (derives w)
  unfolding key_ready
  flushed-Passes q e = record {
    valid = record {
      rooms_once = delete-IsUnique w.room s.pending_key_rooms v.rooms_once;
      queues_once = delete-IsUnique w.room s.pending_messages v.queues_once;
      waiting = λ r f. ground (
        arith,
        has-delete w.room r s.pending_key_rooms v.rooms_once,
        get-delete w.room r s.pending_messages v.queues_once,
        v.waiting r,
      );
      unnamed = ground (arith, get-delete w.room "" s.pending_messages v.queues_once, v.unnamed);
    };
    same_shown = refl;
    all_held = λ r. ground (
      arith,
      in_room-append r s.decrypting (map (λ d. (w.room, d, get w.room (put w.room key s.keys))) q),
      in_room-map r w.room (get w.room (put w.room key s.keys)) q,
      get-delete w.room r s.pending_messages v.queues_once,
      e,
      eq_iff w.room r,
      append-nil (in_room r s.decrypting ++ q),
      append-nil (in_room r s.decrypting),
      append-nil (held r s),
    );
  }

  flush_lem :
      (d : D) (ds : List D)
      → str_eq w.room "" ≡ false
      → get w.room s.pending_messages ≡ some (d ∷ ds)
      → flush (key_ready s active w.room key) w.room ≡ flushed (d ∷ ds)
  unfolding flush key_ready
  flush_lem d ds n e =
      let s' : Inbox K D = record (key_ready s active w.room key) {
        pending_messages = delete w.room s.pending_messages;
      } in
      ap
        (λ o. elim o [
          | none ↦ key_ready s active w.room key
          | some [] ↦ key_ready s active w.room key
          | some (x ∷ xs) ↦ emit_all s' w.room (x ∷ xs)
        ])
        e
      ∙ emit_all_lem s' w.room (d ∷ ds)
          (ground
            (arith, has-delete w.room w.room s.pending_key_rooms v.rooms_once, eq_refl w.room))
          n

  flush-none :
      get w.room s.pending_messages ≡ none
      → flush (key_ready s active w.room key) w.room ≡ key_ready s active w.room key
  unfolding flush key_ready
  flush-none e = ground (arith, e)

  flush_empty :
      get w.room s.pending_messages ≡ some []
      → flush (key_ready s active w.room key) w.room ≡ key_ready s active w.room key
  unfolding flush key_ready
  flush_empty e = ground (arith, e)

  pub flush-Passes : Passes s (flush (key_ready s active w.room key) w.room) (derives w)
  flush-Passes = go (get w.room s.pending_messages) refl
    where
      go :
          (o : Option (List D))
          → get w.room s.pending_messages ≡ o
          → Passes s (flush (key_ready s active w.room key) w.room) (derives w)
      go none e =
          subst (λ x. Passes s x (derives w)) (sym (flush-none e))
            (none_waits-Passes (ground (arith, e)))
      go (some []) e =
          subst (λ x. Passes s x (derives w)) (sym (flush_empty e))
            (none_waits-Passes (ground (arith, e)))
      go (some (d ∷ ds)) e = elim (Bool-cases (str_eq w.room "")) [
        | inl t ↦ ground (arith, t, eq_iff w.room "", e, v.unnamed)
        | inr n ↦
            subst (λ x. Passes s x (derives w)) (sym (flush_lem d ds n e))
              (flushed-Passes (d ∷ ds) e)
      ]
