-- ===== src/Examples/Session.antt =====
-- The theorems on the rooms of apps/trapchat/src/App.jsx at concrete sessions.
use trapchat.Prelude.{ℕ, ◌≡◌, refl, arith, true, false, some, none, String, List, [], ◌∷◌}
use trapchat.Prelude.JsMap.{get, has}
use trapchat.App.Session.{Session, join_view, disconnected, begin_join, end_join, update_room_state}
use trapchat.App.Session.Same.{Agrees}
use trapchat.App.Session.Agrees.{Act, joins, act, act-Agrees}
use trapchat.App.Session.Unshown.{acts, append_media, media_unshown}
use trapchat.Hooks.Rooms.{RoomState, default_room_state}
use trapchat.Hooks.MediaTransfer.{MediaState, MediaMessage, handle_media_chunk}
use trapchat.Media.Assembler.{Message, new as no_transfers}
use trapchat.Socket.Client.{
  Client, Stamp, new as offline, opened as socket_open, open_, is_open, closes, step,
}
use trapchat.App.Status.{disconnected as not_connected, shown_status, status_after, is_connected}
use trapchat.App.Status.Follows.{Keeps, IsShown, shows, step-IsShown}

abbrev stamp : Stamp
stamp = record { id = "i"; msg_id = "m"; now = 9 }

abbrev no_rooms : Session ℕ String
no_rooms = record {
  rooms = [];
  active_room = "";
  view = join_view;
  status = disconnected;
  intentional_disconnect = false;
  listeners = none;
  alerts = 0;
  client = offline;
}

no_rooms-Agrees : Agrees no_rooms
unfolding has
no_rooms-Agrees = record {
  shown_once = tt;
  joined_once = tt;
  agree = λ room. refl;
  as_many = refl;
  few = omega arith;
}

act-Agrees_example : Agrees (act 0 no_rooms (joins "lobby" 5 (λ r. r) "null" stamp))
act-Agrees_example = act-Agrees 0 no_rooms (joins "lobby" 5 (λ r. r) "null" stamp) no_rooms-Agrees

-- A page that was just opened.
abbrev opened : Session (RoomState MediaMessage) String
opened = record {
  rooms = [];
  active_room = "";
  view = join_view;
  status = disconnected;
  intentional_disconnect = false;
  listeners = none;
  alerts = 0;
  client = offline;
}

abbrev joined : List (Act (RoomState MediaMessage) String)
joined = joins "lobby" 5 (λ r. r) "null" stamp ∷ []

abbrev no_media : MediaState
no_media = record {
  assembler = some no_transfers;
  upload_progress = none;
  download_progress = none;
}

-- A chunk that the key does not open.
abbrev bad_chunk : Message ℕ
bad_chunk = record { transfer_id = "t"; seq = some 0; total = 1; chunk = some 0 }

media_unshown_example :
    append_media
      (λ x. none)
      (λ x. x)
      (acts default_room_state opened joined)
      ""
      (handle_media_chunk {C = ℕ} (λ c. none) (λ c. none) no_media (some bad_chunk) 9).1
    ≡ (acts default_room_state opened joined).rooms
unfolding acts act begin_join end_join update_room_state get has
media_unshown_example =
    media_unshown default_room_state (λ x. none) (λ x. x) (λ c. none) (λ c. none) opened joined refl
      refl refl "" refl no_media (some bad_chunk) 9

-- The connection is open and the page was told.
abbrev online : Client String
online = record offline {
  ws = some socket_open;
  settled = true;
  joined_rooms = ("lobby", "") ∷ [];
  emitted = open_ ∷ [];
}

step-IsShown_example : IsShown false not_connected (step online (closes 100))
unfolding Keeps IsShown shows shown_status status_after is_connected is_open
step-IsShown_example = step-IsShown false not_connected online (closes 100) tt refl
