-- ===== src/App/Inbox/Receipts.antt =====
-- Which status a message has after receipts (apps/trapchat/src/App.jsx).
use trapchat.Prelude.{
  ◌≡◌, refl, ◌∙◌, sym, ap, Bool, true, false, ◌&&◌, ◌||◌, not, Option, none, some, String, List, [],
  ◌∷◌, if◌then◌else◌, str_eq, eq_iff, arith, is_some, Option-cases, inl, inr,
}
use trapchat.Prelude.JsMap.{get, put, get-put}
use trapchat.App.Inbox.{
  RoomView, Presence, apply_presence, receipt, is_read, or_else, or_number, or_salt,
}

-- What comes for the rooms that are shown: a presence, or a receipt with a message and a status.
pub data Notice : Type 0 where
  present : String → Presence → Notice
  receipted : String → String → String → Notice

pub notice : List (String × RoomView) → Notice → List (String × RoomView)
notice rooms (present room p) = apply_presence rooms room p
notice rooms (receipted room id status) = receipt rooms room id status

pub notices : List (String × RoomView) → List Notice → List (String × RoomView)
notices rooms [] = rooms
notices rooms (n ∷ ns) = notices (notice rooms n) ns

module _ (room id : String) where
  unfoldable pub status_of : List (String × RoomView) → Option String
  status_of rooms = elim (get room rooms) [ none ↦ none | some v ↦ get id v.message_receipts ]

  -- The statuses that receipts give the message, the earliest first.
  unfoldable pub statuses : List Notice → List String
  statuses [] = []
  statuses (present r p ∷ ns) = statuses ns
  statuses (receipted r i st ∷ ns) =
      if str_eq r room && str_eq i id && not (str_eq st "") then st ∷ statuses ns else statuses ns

unfoldable pub any_read : List String → Bool
any_read [] = false
any_read (s ∷ ss) = str_eq s "read" || any_read ss

unfoldable pub last_of : Option String → List String → Option String
last_of o [] = o
last_of o (s ∷ ss) = last_of (some s) ss

-- The specification: read, if anything says so; else the latest status.
unfoldable pub settled : Option String → List String → Option String
settled o ss = if is_read o || any_read ss then some "read" else last_of o ss

settled_cons :
    (o : Option String) (s : String) (ss : List String)
    → settled o (s ∷ ss) ≡ settled (if is_read o then o else some s) ss
unfolding settled is_read any_read last_of
settled_cons none s ss = ground arith
settled_cons (some r) s ss = ground arith

settled_nil : (o : Option String) → settled o [] ≡ o
unfolding settled is_read any_read last_of
settled_nil none = refl
settled_nil (some r) = ground (arith, eq_iff r "read")

module _ (room id : String) where
  status-receipt :
      (rooms : List (String × RoomView)) (r i st : String)
      → is_some (get room rooms) ≡ true
      → str_eq room "" ≡ false
      → str_eq id "" ≡ false
      → status_of room id (receipt rooms r i st) ≡ (
          if str_eq r room && str_eq i id && not (str_eq st "")
          then (if is_read (status_of room id rooms) then status_of room id rooms else some st)
          else status_of room id rooms)
  unfolding status_of receipt
  status-receipt rooms r i st h n m = elim (Option-cases (get r rooms)) [
    | inl e ↦ ground (arith, e, eq_iff r room)
    | inr (v, e) ↦ ground (
      arith,
      e,
      eq_iff r room,
      eq_iff r "",
      eq_iff i "",
      eq_iff i id,
      get-put r room (record v { message_receipts = put i st v.message_receipts }) rooms,
      get-put i id st v.message_receipts,
    )
  ]

  here-receipt :
      (rooms : List (String × RoomView)) (r i st : String)
      → is_some (get room rooms) ≡ true
      → is_some (get room (receipt rooms r i st)) ≡ true
  unfolding receipt
  here-receipt rooms r i st h = elim (Option-cases (get r rooms)) [
    | inl e ↦ ground (arith, e, h)
    | inr (v, e) ↦ ground (
      arith,
      e,
      h,
      get-put r room (record v { message_receipts = put i st v.message_receipts }) rooms,
    )
  ]

  status-presence :
      (rooms : List (String × RoomView)) (r : String) (p : Presence)
      → is_some (get room rooms) ≡ true
      → (status_of room id (apply_presence rooms r p) ≡ status_of room id rooms)
        × (is_some (get room (apply_presence rooms r p)) ≡ true)
  unfolding status_of apply_presence
  status-presence rooms r p h = elim (Option-cases (get r rooms)) [
    | inl e ↦ ground (arith, e, h)
    | inr (v, e) ↦ ground (
      arith,
      e,
      h,
      eq_iff r room,
      get-put r room
          (record v {
            peer_count = or_else p.count 0;
            peer_nicknames = or_else p.peers v.peer_nicknames;
            expires_at = or_number p.expires_at v.expires_at;
            salt = or_salt p.salt v.salt;
          })
          rooms,
    )
  ]

  -- After whatever receipts and presences, a message of a room that is there has the status that they
  -- say, the one that it had before among them: it is read if one of them says so, else what the latest says.
  pub notices_settle :
      (rooms : List (String × RoomView)) (ns : List Notice)
      → is_some (get room rooms) ≡ true
      → str_eq room "" ≡ false
      → str_eq id "" ≡ false
      → status_of room id (notices rooms ns)
        ≡ settled (status_of room id rooms) (statuses room id ns)
  unfolding notices notice statuses
  notices_settle rooms [] h n m = sym (settled_nil (status_of room id rooms))
  notices_settle rooms (present r p ∷ ns) h n m =
      let (e, h') = status-presence rooms r p h in
      notices_settle (apply_presence rooms r p) ns h' n m
      ∙ ap (λ o. settled o (statuses room id ns)) e
  notices_settle rooms (receipted r i st ∷ ns) h n m =
      let h' = here-receipt rooms r i st h in
      let o = status_of room id rooms in
      notices_settle (receipt rooms r i st) ns h' n m
      ∙ ap (λ o. settled o (statuses room id ns)) (status-receipt rooms r i st h n m)
      ∙ ground (arith, settled_cons o st (statuses room id ns))
