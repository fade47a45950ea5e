-- ===== src/App/Session/Same.antt =====
-- The rooms of the page beside those of the socket (apps/trapchat/src/App.jsx).
use trapchat.Prelude.{
  ◌+◌, ◌≡◌, ◌≤◌, refl, true, none, String, List, [], ◌∷◌, length, eq_iff, arith, ◌⊎◌,
}
use trapchat.Prelude.JsMap.{has, put, delete, has-put, length-put, length-delete}
use trapchat.Prelude.JsMap.Unique.{IsUnique, has-delete, put-IsUnique, delete-IsUnique}
use trapchat.Socket.Client.{Client, Stamp, send, update_rooms, transmit, message}
use trapchat.App.Session.{Session, max_rooms, remaining_rooms}

-- The same names on both sides, each once, and at most five of them.
pub record IsSame {R P : Type 0} (rooms : List (String × R)) (joined : List (String × P))
    : Type 0 where
  pub shown_once : IsUnique rooms
  pub joined_once : IsUnique joined
  pub agree : (room : String) → has room rooms ≡ has room joined
  pub as_many : length rooms ≡ length joined
  pub few : length rooms ≤ max_rooms

abbrev pub Agrees : {R P : Type 0} → Session R P → Type 0
Agrees s = IsSame s.rooms s.client.joined_rooms

module _ {R P : Type 0} where
  pub put-IsSame :
      (rooms : List (String × R)) (joined : List (String × P)) (room : String) (r : R) (p : P)
      → IsSame rooms joined
      → (has room rooms ≡ true) ⊎ (length rooms + 1 ≤ max_rooms)
      → IsSame (put room r rooms) (put room p joined)
  put-IsSame rooms joined room r p v fits = record {
    shown_once = put-IsUnique room r rooms v.shown_once;
    joined_once = put-IsUnique room p joined v.joined_once;
    agree = λ j. ground (arith, has-put room j r rooms, has-put room j p joined, v.agree j);
    as_many =
        ground (arith, length-put room r rooms, length-put room p joined, v.agree room, v.as_many);
    few = ground (arith, length-put room r rooms, v.few, fits);
  }

  pub delete-IsSame :
      (rooms : List (String × R)) (joined : List (String × P)) (room : String)
      → IsSame rooms joined
      → IsSame (delete room rooms) (delete room joined)
  delete-IsSame rooms joined room v = record {
    shown_once = delete-IsUnique room rooms v.shown_once;
    joined_once = delete-IsUnique room joined v.joined_once;
    agree = λ j. ground (
      arith,
      has-delete room j rooms v.shown_once,
      has-delete room j joined v.joined_once,
      v.agree j,
    );
    as_many =
        ground
          (arith, length-delete room rooms, length-delete room joined, v.agree room, v.as_many);
    few = ground (arith, length-delete room rooms, v.few);
  }

-- What a call leaves of the joined rooms.
pub joined-join :
    {P : Type 0} (c : Client P) (room : String) (p : P) (stamp : Stamp)
    → (has room c.joined_rooms ≡ true) ⊎ (length c.joined_rooms + 1 ≤ max_rooms)
    → (send c "join" room p none stamp).0.joined_rooms ≡ put room p c.joined_rooms
unfolding send update_rooms transmit message
joined-join c room p stamp fits = ground (arith, fits)

pub joined-leave :
    {P : Type 0} (c : Client P) (room : String) (p : P) (stamp : Stamp)
    → (send c "leave" room p none stamp).0.joined_rooms ≡ delete room c.joined_rooms
unfolding send update_rooms transmit message
joined-leave c room p stamp = ground arith

pub remaining_none :
    {R : Type 0} (room : String) (rooms : List (String × R))
    → IsUnique rooms
    → remaining_rooms room rooms ≡ []
    → delete room rooms ≡ []
unfolding remaining_rooms delete has
remaining_none room [] u e = refl
remaining_none room ((r, x) ∷ []) u e = ground (arith, e)
remaining_none room ((r, x) ∷ (q, y) ∷ rooms) u e =
    ground (arith, e, eq_iff r room, eq_iff q room, u.0)
