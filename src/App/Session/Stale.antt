-- ===== src/App/Session/Stale.antt =====
-- Which room the listeners of the page mean (apps/trapchat/src/App.jsx).
use trapchat.Prelude.{
  ℕ, suc, ◌≡◌, ◌⊎◌, refl, ◌∙◌, Bool, true, false, ◌&&◌, ◌||◌, not, none, some, String, List, [],
  ◌∷◌, ltb, leb, ◌==◌, if◌then◌else◌, length, str_eq, eq_refl, arith, Bool-cases, inl, inr,
}
use trapchat.Prelude.JsMap.{has, put, delete, has-put}
use trapchat.Prelude.JsMap.Unique.{IsUnique, has-delete, put-IsUnique, delete-IsUnique}
use trapchat.Socket.Client.{Client, Stamp, send}
use trapchat.App.Session.{
  Session, connecting, max_rooms, max_room_name_len, begin_join, end_join, fail_join,
  remaining_rooms, leave_active, leave_room,
}
use trapchat.App.Session.Same.{remaining_none}
use trapchat.App.Session.Agrees.{Act, joins, fails, leaves, act}
use trapchat.App.Session.Keys.{update_room_state-put, remaining_head, not_empty}

-- The listeners were made while no room was active; the active room is one of the rooms, if there are any.
pub record IsStale {R P : Type 0} (s : Session R P) : Type 0 where
  pub made_early : (s.listeners ≡ none) ⊎ (s.listeners ≡ some "")
  pub active_shown : (s.rooms ≡ []) ⊎ (has s.active_room s.rooms ≡ true)
  pub active_none : s.rooms ≡ [] → s.active_room ≡ ""
  pub named : has "" s.rooms ≡ false
  pub once : IsUnique s.rooms

module _ {R P : Type 0} (default_ : R) where
  end_join-IsStale :
      (s : Session R P) (no_rooms : Bool) (room : String) (f : R → R) (payload : P) (stamp : Stamp)
      → IsStale s
      → (no_rooms ≡ true → s.rooms ≡ [])
      → str_eq room "" ≡ false
      → IsStale (end_join default_ s no_rooms room f payload stamp)
  unfolding end_join
  end_join-IsStale s no_rooms room f payload stamp v e n =
      let (r, q) = update_room_state-put default_ s.rooms room f in
      let there : has room (put room r s.rooms) ≡ true =
        has-put room room r s.rooms ∙ rw (eq_refl room) refl in
      rw q record {
        made_early = ground (arith, v.made_early, v.active_none, e);
        active_shown = inr there;
        active_none = λ z. absurd (not_empty (put room r s.rooms) room there z);
        named = ground (arith, has-put room "" r s.rooms, n, v.named);
        once = put-IsUnique room r s.rooms v.once;
      }

  -- A join that begins changes neither the rooms nor the listeners, and goes on only with a name.
  record IsBegun (s : Session R P) (room : String) (r : Session R P × Bool) : Type 0 where
    stale : IsStale r.0
    with_name : r.1 ≡ true → str_eq room "" ≡ false
    same_rooms : r.0.rooms ≡ s.rooms

  begin_join-IsBegun :
      (s : Session R P) (room : String) (len : ℕ)
      → IsStale s
      → IsBegun s room (begin_join s room len)
  unfolding begin_join
  begin_join-IsBegun s room len v =
      elim (Bool-cases (str_eq room "" || ltb max_room_name_len len)) [
        | inl bad ↦
            let r : IsBegun s room (s, false) = record {
              stale = v;
              with_name = λ e. cc;
              same_rooms = refl;
            } in
            ground (arith, bad, r)
        | inr good ↦ elim (Bool-cases (leb max_rooms (length s.rooms) && not (has room s.rooms))) [
          | inl full ↦
              let r : IsBegun s room (record s { alerts = suc s.alerts }, false) = record {
                stale = again (record s { alerts = suc s.alerts }) refl refl refl;
                with_name = λ e. cc;
                same_rooms = refl;
              } in
              ground (arith, good, full, r)
          | inr some_left ↦
              let s' : Session R P = record s {
                intentional_disconnect = false;
                status = connecting;
              } in
              let r : IsBegun s room (s', true) = record {
                stale = again s' refl refl refl;
                with_name = λ e. ground (arith, good);
                same_rooms = refl;
              } in
              ground (arith, good, some_left, r)
        ]
      ]
    where
      again :
          (s' : Session R P)
          → s'.rooms ≡ s.rooms
          → s'.active_room ≡ s.active_room
          → s'.listeners ≡ s.listeners
          → IsStale s'
      again s' a b c = record {
        made_early = rw c v.made_early;
        active_shown = rw (a, b) v.active_shown;
        active_none = rw (a, b) v.active_none;
        named = rw a v.named;
        once = rw a v.once;
      }

  left-IsStale :
      (s : Session R P) (c : Client P) (room : String) (names : List String)
      → IsStale s
      → remaining_rooms room s.rooms ≡ names
      → IsStale (leave_active (record s { client = c; rooms = delete room s.rooms }) names)
  unfolding leave_active has
  left-IsStale s c room [] v e = rw (remaining_none room s.rooms v.once e) record {
    made_early = inl refl;
    active_shown = inl refl;
    active_none = λ z. refl;
    named = refl;
    once = tt;
  }
  left-IsStale s c room (r ∷ names) v e =
      let (other, there) = remaining_head room r names s.rooms e in
      let kept : has r (delete room s.rooms) ≡ true =
        ground (arith, has-delete room r s.rooms v.once, other, there) in
      record {
        made_early = v.made_early;
        active_shown = inr kept;
        active_none = λ z. absurd (not_empty (delete room s.rooms) r kept z);
        named = ground (arith, has-delete room "" s.rooms v.once, v.named);
        once = delete-IsUnique room s.rooms v.once;
      }

  leave_room-IsStale :
      (s : Session R P) (room : String) (nothing : P) (stamp : Stamp)
      → IsStale s
      → IsStale (leave_room s room nothing stamp)
  unfolding leave_room has delete
  leave_room-IsStale s room nothing stamp v = go (Bool-cases (str_eq room s.active_room))
    where
      c : Client P
      c = (send s.client "leave" room nothing none stamp).0

      other :
          str_eq room s.active_room ≡ false
          → IsStale (record s { client = c; rooms = delete room s.rooms })
      other f = record {
        made_early = v.made_early;
        active_shown =
            ground (arith, v.active_shown, has-delete room s.active_room s.rooms v.once, f);
        active_none = λ z. elim v.active_shown [
          | inl e ↦ v.active_none e
          | inr h ↦ absurd (
              not_empty (delete room s.rooms) s.active_room
                (ground (arith, has-delete room s.active_room s.rooms v.once, f, h)) z)
        ];
        named = ground (arith, has-delete room "" s.rooms v.once, v.named);
        once = delete-IsUnique room s.rooms v.once;
      }

      go :
          (str_eq room s.active_room ≡ true) ⊎ (str_eq room s.active_room ≡ false)
          → IsStale (leave_room s room nothing stamp)
      go (inl t) =
          let r = left-IsStale s c room (remaining_rooms room s.rooms) v refl in
          ground (arith, t, r)
      go (inr f) = let r = other f in ground (arith, f, r)

  -- Whatever rooms are joined and left, one after the other, each time the listeners of the page were made
  -- while no room was active, and there is no room without a name.
  pub act-IsStale : (s : Session R P) (a : Act R P) → IsStale s → IsStale (act default_ s a)
  unfolding act fail_join
  act-IsStale s (joins room len f payload stamp) v = go (begin_join s room len).1 b.with_name
    where
      r : Session R P
      r = (begin_join s room len).0

      b : IsBegun s room (begin_join s room len)
      b = begin_join-IsBegun s room len v

      no_rooms : (length s.rooms == 0) ≡ true → r.rooms ≡ []
      no_rooms e = b.same_rooms ∙ empty s.rooms e
        where
          empty : (rooms : List (String × R)) → (length rooms == 0) ≡ true → rooms ≡ []
          empty [] e = refl
          empty (x ∷ xs) e = ground (arith, e)

      go :
          (go_on : Bool)
          → (go_on ≡ true → str_eq room "" ≡ false)
          → IsStale
              (if go_on then end_join default_ r (length s.rooms == 0) room f payload stamp else r)
      go true n =
          end_join-IsStale r (length s.rooms == 0) room f payload stamp b.stale no_rooms (n refl)
      go false n = b.stale
  act-IsStale s (fails room len) v = go (begin_join s room len).1
    where
      b : IsBegun s room (begin_join s room len)
      b = begin_join-IsBegun s room len v

      go :
          (go_on : Bool)
          → IsStale
              (if go_on then fail_join (begin_join s room len).0 else (begin_join s room len).0)
      go true = record {
        made_early = b.stale.made_early;
        active_shown = b.stale.active_shown;
        active_none = b.stale.active_none;
        named = b.stale.named;
        once = b.stale.once;
      }
      go false = b.stale
  act-IsStale s (leaves room nothing stamp) v = leave_room-IsStale s room nothing stamp v
