-- ===== src/App/Inbox/Held.antt =====
-- No message is lost while a room's key is derived or a message decrypted (apps/trapchat/src/App.jsx).
use trapchat.Prelude.{
  ℕ, ◌+◌, ◌≡◌, ◌∙◌, sym, ap, refl, Bool, true, Option, none, some, String, List, [], ◌∷◌, ◌++◌,
  append-nil, append_assoc, arith, get_elem?, sum_by, sum_by-append,
}
use trapchat.Crypto.Cipher.{Platform, derive_room_key}
use trapchat.App.Inbox.{
  Inbox, Wait, presence, chat, key_ready, flush, derived, decrypted, remove_at, queue_of,
}
use trapchat.App.Inbox.Valid.{
  in_room, held, IsValid, Event, presences, chats, derives, decrypts, came, Passes,
}
use trapchat.App.Inbox.Queued.{presence-Passes, chat-Passes}
use trapchat.App.Inbox.Flushed.{flush-Passes}
use trapchat.App.Inbox.Finished.{next_in_room, given, remove_at-sum, remove_at-order, shown_last}

module _ {K D : Type 0} (p : Platform K) (active : String) where
  unfoldable pub step : Inbox K D → Event D → Inbox K D
  step s (presences room salt) = (presence s room salt).0
  step s (chats room d) = chat s room d
  step s (derives w) = derived p active s w
  step s (decrypts i) = decrypted s i

-- Whether an event overtakes nothing: a message is decrypted before those that came later in its room.
abbrev pub is_in_turn : {K D : Type 0} → Inbox K D → Event D → Bool
is_in_turn s (decrypts i) = next_in_room s.decrypting i
is_in_turn s _ = true

-- What was shown of a room, behind that what is being decrypted, and behind that what waits for a key.
abbrev pub all_of : {K D : Type 0} → String → Inbox K D → List D
all_of r s = in_room r s.shown ++ held r s

-- An inbox that has each message of each room as often as before, and what came; in order, where nothing
-- is overtaken.
pub record Holds {K D : Type 0} (s s' : Inbox K D) (e : Event D) : Type 0 where
  pub valid : IsValid s'
  pub none_lost :
      (w : D → ℕ) (r : String)
      → sum_by w (all_of r s') ≡ sum_by w (all_of r s) + sum_by w (came r e)
  pub in_order : is_in_turn s e ≡ true → (r : String) → all_of r s' ≡ all_of r s ++ came r e

regroup : {D : Type 0} (a g l q : List D) → (a ++ g) ++ (l ++ q) ≡ (a ++ ((g ++ l) ++ q)) ++ []
regroup a g l q =
    append_assoc a g (l ++ q)
    ∙ ap (λ x. a ++ x) (sym (append_assoc g l q))
    ∙ sym (append-nil (a ++ ((g ++ l) ++ q)))

module _ {K D : Type 0} where
  Passes-Holds : (s s' : Inbox K D) (e : Event D) → Passes s s' e → Holds s s' e
  Passes-Holds s s' e h =
      let order : (r : String) → all_of r s' ≡ all_of r s ++ came r e = λ r.
        ap (λ l. in_room r l ++ held r s') h.same_shown
        ∙ ap (λ l. in_room r s.shown ++ l) (h.all_held r)
        ∙ sym (append_assoc (in_room r s.shown) (held r s) (came r e)) in
      record {
        valid = h.valid;
        none_lost = λ w r. ap (sum_by w) (order r) ∙ sum_by-append w (all_of r s) (came r e);
        in_order = λ t. order;
      }

module _ {K D : Type 0} (p : Platform K) (active : String) where
  derived-Passes :
      (s : Inbox K D) (w : Wait) → IsValid s → Passes s (derived p active s w) (derives w)
  unfolding derived
  derived-Passes s w v = go (derive_room_key p w.room w.passphrase w.salt)
    where
      go :
          (o : Option K)
          → Passes s
              (elim o [ none ↦ s | some key ↦ flush (key_ready s active w.room key) w.room ])
              (derives w)
      go none = record { valid = v; same_shown = refl; all_held = λ r. sym (append-nil (held r s)) }
      go (some key) = flush-Passes s active w key v

  decrypted-Holds : (s : Inbox K D) (i : ℕ) → IsValid s → Holds s (decrypted s i) (decrypts i)
  unfolding decrypted
  decrypted-Holds s i v = go (get_elem? s.decrypting i) refl
    where
      go :
          (o : Option (String × D × Option K))
          → get_elem? s.decrypting i ≡ o
          → let s' : Inbox K D = elim o [
            | none ↦ s
            | some (room, d, key) ↦ record s {
              decrypting = remove_at s.decrypting i;
              shown = s.shown ++ (room, d, key) ∷ [];
              receipts = s.receipts ++ (room, d) ∷ [];
            }
          ] in
            Holds s s' (decrypts i)
      go none e = record {
        valid = v;
        none_lost = λ w r. omega arith;
        in_order = λ t r. sym (append-nil (all_of r s));
      }
      go (some (room, d, k)) e = record {
        valid = record {
          rooms_once = v.rooms_once;
          queues_once = v.queues_once;
          waiting = v.waiting;
          unnamed = v.unnamed;
        };
        none_lost = λ w r.
            let left = in_room r (remove_at s.decrypting i) in
            let q = queue_of r s.pending_messages in
            let shown = in_room r s.shown in
            rw (shown_last r room d k s.shown) (
              omega (
                arith,
                remove_at-sum w r room d k s.decrypting i e,
                sum_by-append w (shown ++ given r room d) (left ++ q),
                sum_by-append w shown (given r room d),
                sum_by-append w left q,
                sum_by-append w shown (in_room r s.decrypting ++ q),
                sum_by-append w (in_room r s.decrypting) q,
              ));
        in_order = λ t r.
            let left = in_room r (remove_at s.decrypting i) in
            let q = queue_of r s.pending_messages in
            ap (λ l. l ++ (left ++ q)) (shown_last r room d k s.shown)
            ∙ regroup (in_room r s.shown) (given r room d) left q
            ∙ ap (λ l. (in_room r s.shown ++ (l ++ q)) ++ [])
                (sym (remove_at-order r room d k s.decrypting i e t));
      }

  -- Whatever comes, and in whatever order keys are derived and messages decrypted, each chat message of a
  -- room is there as often as it came: it was shown, or it is being decrypted, or it waits for the room's
  -- key, which only happens in a room that waits for one. As long as no message is decrypted before one that
  -- came earlier in its room, the messages of each room are shown in the order in which they came,
  -- before those that are still being decrypted or wait, which are in that order too.
  pub inbox_step-Holds : (s : Inbox K D) (e : Event D) → IsValid s → Holds s (step p active s e) e
  unfolding step
  inbox_step-Holds s (presences room salt) v =
      Passes-Holds s (presence s room salt).0 (presences room salt) (presence-Passes s room salt v)
  inbox_step-Holds s (chats room d) v =
      Passes-Holds s (chat s room d) (chats room d) (chat-Passes s room d v)
  inbox_step-Holds s (derives w) v =
      Passes-Holds s (derived p active s w) (derives w) (derived-Passes s w v)
  inbox_step-Holds s (decrypts i) v = decrypted-Holds s i v
