-- ===== src/App/Session/Keys.antt =====
-- Lemmas on the names of rooms (apps/trapchat/src/App.jsx).
use trapchat.Prelude.{
  ◌≡◌, ◌≢◌, refl, true, false, Option, none, some, String, List, [], ◌∷◌, str_eq, eq_iff, eq_refl,
  arith,
}
use trapchat.Prelude.JsMap.{get, has, put}
use trapchat.App.Session.{update_room_state, remaining_rooms}

pub update_room_state-put :
    {R : Type 0} (default_ : R) (rooms : List (String × R)) (room : String) (f : R → R)
    → (r : R) × (update_room_state default_ rooms room f ≡ put room r rooms)
unfolding update_room_state
update_room_state-put {R} default_ rooms room f = go (get room rooms)
  where
    go :
        (o : Option R)
        → (r : R) × ((elim o [ none ↦ put room (f default_) rooms | some r ↦ put room (f r) rooms ])
            ≡ put room r rooms)
    go none = (f default_, refl)
    go (some r) = (f r, refl)

-- The first of the other rooms is a room, and another one.
pub remaining_head :
    {R : Type 0} (room r : String) (names : List String) (rooms : List (String × R))
    → remaining_rooms room rooms ≡ r ∷ names
    → (str_eq room r ≡ false) × (has r rooms ≡ true)
unfolding remaining_rooms has
remaining_head room r names [] e = cc
remaining_head room r names ((q, x) ∷ rooms) e = ground (
  arith,
  e,
  eq_iff q room,
  eq_iff room r,
  eq_iff q r,
  eq_refl r,
  remaining_head room r names rooms,
)

pub not_empty :
    {R : Type 0} (rooms : List (String × R)) (room : String) → has room rooms ≡ true → rooms ≢ []
unfolding has
not_empty rooms room h e = let f : has room rooms ≡ false = rw e refl in ground (arith, h, f)
