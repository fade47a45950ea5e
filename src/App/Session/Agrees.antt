-- ===== src/App/Session/Agrees.antt =====
-- The rooms that the page shows are the rooms that the socket has joined (apps/trapchat/src/App.jsx).
use trapchat.Prelude.{
  ℕ, suc, ◌+◌, ◌≡◌, ◌≤◌, refl, Bool, true, false, ◌&&◌, ◌||◌, not, Option, none, some, String, List,
  [], ◌∷◌, ltb, leb, ◌==◌, if◌then◌else◌, length, str_eq, arith, ◌⊎◌, Bool-cases, inl, inr,
}
use trapchat.Prelude.JsMap.{get, has, put, delete}
use trapchat.Socket.Client.{Stamp, send, disconnect}
use trapchat.App.Session.{
  Session, connecting, max_rooms, max_room_name_len, begin_join, update_room_state, end_join,
  fail_join, remaining_rooms, leave_active, leave_room,
}
use trapchat.App.Session.Same.{
  IsSame, Agrees, put-IsSame, delete-IsSame, joined-join, joined-leave, remaining_none,
}

-- A whole join, with nothing in between, a join that fails, or a leave.
pub data Act (R P : Type 0) : Type 0 where
  joins : String → ℕ → (R → R) → P → Stamp → Act R P
  fails : String → ℕ → Act R P
  leaves : String → P → Stamp → Act R P

module _ {R P : Type 0} (default_ : R) where
  unfoldable pub act : Session R P → Act R P → Session R P
  act s (joins room len f payload stamp) =
      let r = begin_join s room len in
      if r.1 then end_join default_ r.0 (length s.rooms == 0) room f payload stamp else r.0
  act s (fails room len) = let r = begin_join s room len in if r.1 then fail_join r.0 else r.0
  act s (leaves room nothing stamp) = leave_room s room nothing stamp

  update_room_state-IsSame :
      (rooms : List (String × R)) (joined joined' : List (String × P)) (room : String) (f : R → R)
      (p : P)
      → joined' ≡ put room p joined
      → IsSame rooms joined
      → (has room rooms ≡ true) ⊎ (length rooms + 1 ≤ max_rooms)
      → IsSame (update_room_state default_ rooms room f) joined'
  unfolding update_room_state
  update_room_state-IsSame rooms joined joined' room f p e v fits = rw e (go (get room rooms))
    where
      go :
          (o : Option R)
          → IsSame
              (elim o [ none ↦ put room (f default_) rooms | some r ↦ put room (f r) rooms ])
              (put room p joined)
      go none = put-IsSame rooms joined room (f default_) p v fits
      go (some r) = put-IsSame rooms joined room (f r) p v fits

  end_join-Agrees :
      (s : Session R P) (no_rooms : Bool) (room : String) (f : R → R) (payload : P) (stamp : Stamp)
      → Agrees s
      → (has room s.rooms ≡ true) ⊎ (length s.rooms + 1 ≤ max_rooms)
      → Agrees (end_join default_ s no_rooms room f payload stamp)
  unfolding end_join
  end_join-Agrees s no_rooms room f payload stamp v fits =
      update_room_state-IsSame s.rooms s.client.joined_rooms _ room f payload
        (joined-join s.client room payload stamp (ground (arith, v.agree room, v.as_many, fits))) v
        fits

  left-Agrees :
      (s : Session R P) (names : List String)
      → Agrees s
      → (names ≡ [] → s.rooms ≡ [])
      → Agrees (leave_active s names)
  unfolding leave_active disconnect has
  left-Agrees s (r ∷ names) v e = v
  left-Agrees s [] v e = rw (e refl) record {
    shown_once = tt;
    joined_once = tt;
    agree = λ room. refl;
    as_many = refl;
    few = omega arith;
  }

  leave_room-Agrees :
      (s : Session R P) (room : String) (nothing : P) (stamp : Stamp)
      → Agrees s
      → Agrees (leave_room s room nothing stamp)
  unfolding leave_room
  leave_room-Agrees s room nothing stamp v = elim (Bool-cases (str_eq room s.active_room)) [
    | inl t ↦
        let r =
          left-Agrees s' (remaining_rooms room s.rooms) same
            (remaining_none room s.rooms v.shown_once) in
        ground (arith, t, r)
    | inr t ↦ ground (arith, t, same)
  ]
    where
      s' : Session R P
      s' = record s {
        client = (send s.client "leave" room nothing none stamp).0;
        rooms = delete room s.rooms;
      }

      same : Agrees s'
      same =
          rw (joined-leave s.client room nothing stamp)
            (delete-IsSame s.rooms s.client.joined_rooms room v)

  -- A join that begins, and has room if it goes on.
  record Begins (s : Session R P) (room : String) (r : Session R P × Bool) : Type 0 where
    agrees : Agrees r.0
    fits : r.1 ≡ true → (has room r.0.rooms ≡ true) ⊎ (length r.0.rooms + 1 ≤ max_rooms)

  begin_join-Begins :
      (s : Session R P) (room : String) (len : ℕ) → Agrees s → Begins s room (begin_join s room len)
  unfolding begin_join
  begin_join-Begins s room len v = elim (Bool-cases (str_eq room "" || ltb max_room_name_len len)) [
    | inl bad ↦
        let r : Begins s room (s, false) = record { agrees = v; fits = λ e. cc } in
        ground (arith, bad, r)
    | inr good ↦ elim (Bool-cases (leb max_rooms (length s.rooms) && not (has room s.rooms))) [
      | inl full ↦
          let r : Begins s room (record s { alerts = suc s.alerts }, false) = record {
            agrees = v;
            fits = λ e. cc;
          } in
          ground (arith, good, full, r)
      | inr some_left ↦
          let r : Begins s room
              (record s { intentional_disconnect = false; status = connecting }, true) =
            record { agrees = v; fits = λ e. ground (arith, some_left) } in
          ground (arith, good, some_left, r)
    ]
  ]

  -- Joins of whatever rooms, that go through or fail, one after the other, and leaves: the page then shows
  -- the rooms that the socket has joined and no other, each once and at most five.
  pub act-Agrees : (s : Session R P) (a : Act R P) → Agrees s → Agrees (act s a)
  unfolding act fail_join
  act-Agrees s (joins room len f payload stamp) v =
      let b = begin_join-Begins s room len v in go (begin_join s room len).1 b.fits
    where
      r : Session R P
      r = (begin_join s room len).0

      go :
          (go_on : Bool)
          → (go_on ≡ true → (has room r.rooms ≡ true) ⊎ (length r.rooms + 1 ≤ max_rooms))
          → Agrees
              (if go_on then end_join default_ r (length s.rooms == 0) room f payload stamp else r)
      go true fits =
          end_join-Agrees r (length s.rooms == 0) room f payload stamp
            (begin_join-Begins s room len v).agrees (fits refl)
      go false fits = (begin_join-Begins s room len v).agrees
  act-Agrees s (fails room len) v = go (begin_join s room len).1
    where
      r : Session R P
      r = (begin_join s room len).0

      go : (go_on : Bool) → Agrees (if go_on then fail_join r else r)
      go true = (begin_join-Begins s room len v).agrees
      go false = (begin_join-Begins s room len v).agrees
  act-Agrees s (leaves room nothing stamp) v = leave_room-Agrees s room nothing stamp v
