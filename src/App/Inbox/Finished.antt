-- ===== src/App/Inbox/Finished.antt =====
-- A message whose decryption is over (apps/trapchat/src/App.jsx).
use trapchat.Prelude.{
  ℕ, zero, suc, ◌+◌, ◌≡◌, Bool, true, false, ◌&&◌, not, Option, none, some, String, List, [], ◌∷◌,
  ◌++◌, if◌then◌else◌, str_eq, eq_iff, arith, get_elem?, sum_by,
}
use trapchat.App.Inbox.{remove_at}
use trapchat.App.Inbox.Valid.{in_room, in_room-append}

-- Whether no one before this place is of the same room.
unfoldable pub next_in_room : {D K : Type 0} → List (String × D × Option K) → ℕ → Bool
next_in_room [] i = true
next_in_room (x ∷ xs) zero = true
next_in_room (x ∷ xs) (suc i) =
    let rest = next_in_room xs i in
    (elim (get_elem? xs i) [ none ↦ true | some y ↦ not (str_eq x.0 y.0) ]) && rest

-- What one message is to a room.
abbrev pub given : {D : Type 0} → String → String → D → List D
given r room d = if str_eq room r then d ∷ [] else []

module _ {K D : Type 0} where
  pub remove_at-sum :
      (w : D → ℕ) (r room : String) (d : D) (k : Option K) (xs : List (String × D × Option K))
      (i : ℕ)
      → get_elem? xs i ≡ some (room, d, k)
      → sum_by w (in_room r xs) ≡ sum_by w (given r room d) + sum_by w (in_room r (remove_at xs i))
  unfolding in_room remove_at
  remove_at-sum w r room d k [] i e = cc
  remove_at-sum w r room d k ((room', d', k') ∷ xs) zero e = ground (arith, e)
  remove_at-sum w r room d k ((room', d', k') ∷ xs) (suc i) e =
      ground (arith, remove_at-sum w r room d k xs i e)

  later :
      (room' : String) (d' : D) (k' : Option K) (xs : List (String × D × Option K)) (i : ℕ)
      → (room : String) (d : D) (k : Option K) → get_elem? xs i ≡ some (room, d, k)
      → next_in_room ((room', d', k') ∷ xs) (suc i) ≡ true
      → (str_eq room' room ≡ false) × (next_in_room xs i ≡ true)
  unfolding next_in_room
  later room' d' k' xs i room d k e n = (ground (arith, e, n), ground (arith, e, n))

  pub remove_at-order :
      (r room : String) (d : D) (k : Option K) (xs : List (String × D × Option K)) (i : ℕ)
      → get_elem? xs i ≡ some (room, d, k)
      → next_in_room xs i ≡ true
      → in_room r xs ≡ given r room d ++ in_room r (remove_at xs i)
  unfolding in_room remove_at next_in_room
  remove_at-order r room d k [] i e n = cc
  remove_at-order r room d k ((room', d', k') ∷ xs) zero e n = ground (arith, e)
  remove_at-order r room d k ((room', d', k') ∷ xs) (suc i) e n =
      let (other, rest) = later room' d' k' xs i room d k e n in
      ground (
        arith,
        remove_at-order r room d k xs i e rest,
        other,
        eq_iff room' r,
        eq_iff room r,
        eq_iff room' room,
      )

  -- A run that is over: its message is shown behind those that were shown.
  pub shown_last :
      (r room : String) (d : D) (k : Option K) (xs : List (String × D × Option K))
      → in_room r (xs ++ (room, d, k) ∷ []) ≡ in_room r xs ++ given r room d
  unfolding in_room
  shown_last r room d k xs = ground (arith, in_room-append r xs ((room, d, k) ∷ []))
