-- ===== src/App/Session.antt =====
-- apps/trapchat/src/App.jsx: `handleJoinRoom` and `leaveRoom`, with the socket of socket/client.js.
-- `handleJoinRoom` is cut at its awaits: what it does before them, and what it does once there is a key
-- and a connection. A room's state is of any type; the name comes trimmed, with its length.
pub mod Same
pub mod Agrees
pub mod Race
mod Keys
pub mod Stale
pub mod Unshown
use trapchat.Prelude.{
  ℕ, suc, Bool, true, false, ◌&&◌, ◌||◌, not, Option, none, some, String, List, [], ◌∷◌, ltb, leb,
  ◌==◌, if◌then◌else◌, is_some, length, str_eq,
}
use trapchat.Prelude.JsMap.{get, has, put, delete}
use trapchat.Socket.Client.{Client, Stamp, send, disconnect}

abbrev pub max_room_name_len : ℕ
max_room_name_len = 64

abbrev pub max_rooms : ℕ
max_rooms = 5

pub data View : Type 0 where
  join_view chat_view : View

pub data Status : Type 0 where
  disconnected connecting connected failed : Status

-- `listeners` are those that `setupGlobalHandlers` sets, as the active room of the view that made them: the
-- hooks that they call have that room. `alerts` counts the alerts.
pub record Session (R P : Type 0) : Type 0 where
  pub rooms : List (String × R)
  pub active_room : String
  pub view : View
  pub status : Status
  pub intentional_disconnect : Bool
  pub listeners : Option String
  pub alerts : ℕ
  pub client : Client P

-- `updateRoomState`, where `default_` is the state of a room that is not there.
unfoldable pub update_room_state :
    {R : Type 0} → R → List (String × R) → String → (R → R) → List (String × R)
update_room_state default_ rooms room f = elim (get room rooms) [
  | none ↦ put room (f default_) rooms
  | some r ↦ put room (f r) rooms
]

-- [...rooms.keys()].filter(r => r !== room)
pub remaining_rooms : {R : Type 0} → String → List (String × R) → List String
remaining_rooms room [] = []
remaining_rooms room ((r, _) ∷ rooms) =
    if str_eq r room then remaining_rooms room rooms else r ∷ remaining_rooms room rooms

module _ {R P : Type 0} where
  -- To the first await; whether the call goes on.
  unfoldable pub begin_join : Session R P → String → ℕ → Session R P × Bool
  begin_join s trimmed len =
      if str_eq trimmed "" || ltb max_room_name_len len
      then (s, false)
      else if leb max_rooms (length s.rooms) && not (has trimmed s.rooms)
      then (record s { alerts = suc s.alerts }, false)
      else (record s { intentional_disconnect = false; status = connecting }, true)

  -- From the await of `connect` on; whether there were no rooms is what the call saw at its start.
  unfoldable pub end_join : R → Session R P → Bool → String → (R → R) → P → Stamp → Session R P
  end_join default_ s no_rooms trimmed with_link payload stamp = record s {
    status = connected;
    rooms = update_room_state default_ s.rooms trimmed with_link;
    listeners = if no_rooms && not (is_some s.listeners) then some s.active_room else s.listeners;
    client = (send s.client "join" trimmed payload none stamp).0;
    active_room = trimmed;
    view = chat_view;
  }

  -- `setupRoomKey` or `connect` throws.
  pub fail_join : Session R P → Session R P
  fail_join s = record s { status = failed }

  -- What is left of `leaveRoom` for the active room, which was the last or not.
  pub leave_active : Session R P → List String → Session R P
  leave_active s (r ∷ _) = record s { active_room = r }
  leave_active s [] = record s {
    intentional_disconnect = true;
    client = disconnect s.client;
    listeners = none;
    view = join_view;
    active_room = "";
    status = disconnected;
  }

  pub leave_room : Session R P → String → P → Stamp → Session R P
  leave_room s room nothing stamp =
      let s' : Session R P = record s {
        client = (send s.client "leave" room nothing none stamp).0;
        rooms = delete room s.rooms;
      } in
      if str_eq room s.active_room then leave_active s' (remaining_rooms room s.rooms) else s'
