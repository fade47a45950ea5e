-- ===== src/App/Session/Race.antt =====
-- Two joins at once (apps/trapchat/src/App.jsx).
use trapchat.Prelude.{
  ◌≡◌, refl, ◌∙◌, Bool, true, false, Option, none, some, String, List, length, eq_refl, arith,
}
use trapchat.Prelude.JsMap.{get, has, put, has-put}
use trapchat.Socket.Client.{Stamp, send, update_rooms}
use trapchat.App.Session.{Session, max_rooms, update_room_state, end_join}
use trapchat.App.Session.Same.{Agrees}

module _ {R : Type 0} (default_ : R) where
  has-update_room_state :
      (rooms : List (String × R)) (room : String) (f : R → R)
      → has room (update_room_state default_ rooms room f) ≡ true
  unfolding update_room_state
  has-update_room_state rooms room f = go (get room rooms)
    where
      there : (r : R) → has room (put room r rooms) ≡ true
      there r = has-put room room r rooms ∙ rw (eq_refl room) refl

      go :
          (o : Option R)
          → has room (elim o [ none ↦ put room (f default_) rooms | some r ↦ put room (f r) rooms ])
            ≡ true
      go none = there (f default_)
      go (some r) = there (f r)

module _ {R P : Type 0} (default_ : R) where
  -- Five rooms are open when a join of a sixth comes to its end, as after two joins that began while there
  -- were four: the page shows it as joined and active, and the socket has not joined it.
  pub late_join_unjoined :
      (s : Session R P) (no_rooms : Bool) (room : String) (f : R → R) (payload : P) (stamp : Stamp)
      → Agrees s
      → length s.rooms ≡ max_rooms
      → has room s.rooms ≡ false
      → let s' = end_join default_ s no_rooms room f payload stamp in
        (has room s'.rooms ≡ true)
        × (s'.active_room ≡ room)
        × (has room s'.client.joined_rooms ≡ false)
  unfolding end_join update_room_state send update_rooms
  late_join_unjoined s no_rooms room f payload stamp v full new = (
    has-update_room_state default_ s.rooms room f,
    refl,
    ground (arith, v.agree room, v.as_many, full, new),
  )
