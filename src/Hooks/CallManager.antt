-- ===== src/Hooks/CallManager.antt =====
-- apps/trapchat/src/hooks/useCallManager.js. What the browser answers to `getUserMedia` is an argument, a
-- stream is its id with the `enabled` of its first tracks, and what is given to the meshes is left out.
pub mod Valid
pub mod Released
use trapchat.Prelude.{
  ℕ, Bool, true, false, ◌||◌, not, Option, none, some, String, List, [], ◌∷◌, ◌++◌, map,
  if◌then◌else◌, str_eq, is_some,
}

pub data CallType : Type 0 where
  audio video : CallType

pub record Stream : Type 0 where
  pub id : ℕ
  pub audio_enabled : Option Bool
  pub video_enabled : Option Bool

-- Why there is no stream, as the user is told; `other` is any further error.
pub data Refusal : Type 0 where
  no_devices busy other : Refusal
  denied missing : CallType → Refusal

-- What `getUserMedia` gives: a stream, or an error with its name.
pub data Given : Type 0 where
  stream : ℕ → Given
  threw : String → Given

-- `new` tracks are enabled; there is a video track only where it was asked for.
pub new_stream : ℕ → CallType → Stream
new_stream id audio = record { id = id; audio_enabled = some true; video_enabled = none }
new_stream id video = record { id = id; audio_enabled = some true; video_enabled = some true }

pub refusal_of : String → CallType → Refusal
refusal_of name type =
    if str_eq name "NotAllowedError" || str_eq name "PermissionDeniedError"
    then denied type
    else if str_eq name "NotFoundError" || str_eq name "DevicesNotFoundError"
    then missing type
    else if str_eq name "NotReadableError" || str_eq name "TrackStartError"
    then busy
    else other

pub data Permission : Type 0 where
  granted : Stream → Permission
  refused : Refusal → Permission

pub request_media_permissions : Bool → CallType → Given → Permission
request_media_permissions has_devices type given =
    if not has_devices then refused no_devices else elim given [
      | stream id ↦ granted (new_stream id type)
      | threw name ↦ refused (refusal_of name type)
    ]

-- What is sent about calls.
pub data CallMessage : Type 0 where
  call_offer call_answer : CallType → CallMessage
  call_end : CallMessage

-- `acquired` are the ids of the local streams that the browser gave, `released` those whose tracks were
-- stopped, and `remote_stopped` those of remote ones; the latest is last.
pub record Calls : Type 0 where
  pub call_active : Bool
  pub call_type : Option CallType
  pub local_stream : Option Stream
  pub remote_streams : List (String × ℕ)
  pub call_muted : Bool
  pub call_video_off : Bool
  pub acquired : List ℕ
  pub released : List ℕ
  pub remote_stopped : List ℕ
  pub sent : List (String × CallMessage)
  pub alerts : List Refusal

-- From the await of `requestMediaPermissions` on, in `startCall` and in `handleIncomingCall`.
pub answered : Calls → Bool → String → CallMessage → CallType → Permission → Calls
answered s connected room message type (refused r) = record s { alerts = s.alerts ++ r ∷ [] }
answered s connected room message type (granted x) = record s {
  local_stream = some x;
  acquired = s.acquired ++ x.id ∷ [];
  call_active = true;
  call_type = some type;
  sent = if connected then s.sent ++ (room, message) ∷ [] else s.sent;
}

-- `startCall`, with what the browser answers.
pub start_call : Calls → Bool → String → CallType → Permission → Calls
start_call s connected active_room type p =
    if s.call_active || str_eq active_room ""
    then s
    else answered s connected active_room (call_offer type) type p

-- The type that an offer names; whatever is no type of a call is taken as `audio`.
abbrev pub type_or_audio : Option CallType → CallType
type_or_audio none = audio
type_or_audio (some c) = c

-- The page calls `handleIncomingCall` only where no call is active.
pub handle_incoming_call : Calls → Bool → String → Option CallType → Permission → Calls
handle_incoming_call s connected room type p =
    if s.call_active || str_eq room ""
    then s
    else let t = type_or_audio type in answered s connected room (call_answer t) t p

pub stop_local : Calls → Calls
stop_local s = elim s.local_stream [
  | none ↦ s
  | some x ↦ record s { released = s.released ++ x.id ∷ []; local_stream = none }
]

pub end_call : Calls → Bool → String → Calls
end_call s connected active_room =
    let s' = stop_local s in
    record s' {
      sent =
          if connected
          then if str_eq active_room "" then s'.sent else s'.sent ++ (active_room, call_end) ∷ []
          else s'.sent;
      remote_stopped = s'.remote_stopped ++ map (λ r. r.1) s'.remote_streams;
      call_active = false;
      call_type = none;
      remote_streams = [];
      call_muted = false;
      call_video_off = false;
    }

pub toggle_mute : Calls → Calls
toggle_mute s = elim s.local_stream [
  | none ↦ s
  | some x ↦ elim x.audio_enabled [
    | none ↦ s
    | some e ↦ record s {
      local_stream = some (record x { audio_enabled = some (not e) });
      call_muted = e;
    }
  ]
]

pub toggle_video : Calls → Calls
toggle_video s = elim s.local_stream [
  | none ↦ s
  | some x ↦ elim x.video_enabled [
    | none ↦ s
    | some e ↦ record s {
      local_stream = some (record x { video_enabled = some (not e) });
      call_video_off = e;
    }
  ]
]
