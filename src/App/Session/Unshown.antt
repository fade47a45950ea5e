-- ===== src/App/Session/Unshown.antt =====
-- What becomes of media that comes (apps/trapchat/src/App.jsx).
use trapchat.Prelude.{ℕ, ◌≡◌, refl, ◌∙◌, ap, Option, none, some, String, List, [], ◌∷◌, arith, inl}
use trapchat.Prelude.JsMap.{get, has}
use trapchat.Prelude.JsMap.Unique.{get-has}
use trapchat.Hooks.Rooms.{RoomState, append_message_to_room}
use trapchat.Hooks.MediaTransfer.{MediaState, MediaMessage, handle_media_chunk}
use trapchat.Media.Transfer.{Bytes, Metadata}
use trapchat.Media.Assembler.{Message}
use trapchat.App.Session.{Session}
use trapchat.App.Session.Agrees.{Act, act}
use trapchat.App.Session.Stale.{IsStale, act-IsStale}

module _ {R P : Type 0} (default_ : R) where
  unfoldable pub acts : Session R P → List (Act R P) → Session R P
  acts s [] = s
  acts s (a ∷ done) = acts (act default_ s a) done

  acts-IsStale : (s : Session R P) (done : List (Act R P)) → IsStale s → IsStale (acts s done)
  unfolding acts
  acts-IsStale s [] v = v
  acts-IsStale s (a ∷ done) v = acts-IsStale (act default_ s a) done (act-IsStale default_ s a v)

module _ {M P : Type 0} (blob_url : M → Option String) (own : MediaMessage → M) where
  -- `appendMessage` as a view has it whose active room is `room`.
  pub append_media :
      Session (RoomState M) P → String → Option MediaMessage → List (String × RoomState M)
  append_media s room none = s.rooms
  append_media s room (some x) =
      (append_message_to_room blob_url s.rooms s.active_room room (own x)).0

  append_media-unnamed :
      (s : Session (RoomState M) P) (room : String) (x : Option MediaMessage)
      → IsStale s
      → s.listeners ≡ some room
      → append_media s room x ≡ s.rooms
  unfolding append_media append_message_to_room
  append_media-unnamed s room none v l = refl
  append_media-unnamed s room (some x) v l =
      let unnamed : room ≡ "" = ground (arith, v.made_early, l) in
      let absent : get room s.rooms ≡ none =
        ap (λ r. get r s.rooms) unnamed ∙ get-has "" s.rooms v.named in
      ground (arith, absent)

module _ {M P C : Type 0} (default_ : RoomState M) (blob_url : M → Option String)
    (own : MediaMessage → M) where
  -- From a page with no rooms, after whatever rooms were joined and left, each join without another in
  -- between: a chunk of media that comes, whatever the assembler makes of it, adds no message to any room,
  -- since the listeners append to the room that was active when they were made, and none was.
  pub media_unshown :
      (inner : C → Option Metadata) (open_ : C → Option (Bytes × Metadata))
      (s : Session (RoomState M) P) (done : List (Act (RoomState M) P))
      → s.rooms ≡ []
      → s.active_room ≡ ""
      → s.listeners ≡ none
      → (room : String) → (acts default_ s done).listeners ≡ some room
      → (m : MediaState) (chunk : Option (Message C)) (now : ℕ)
      → append_media blob_url own
          (acts default_ s done)
          room
          (handle_media_chunk inner open_ m chunk now).1
        ≡ (acts default_ s done).rooms
  unfolding has
  media_unshown inner open_ s done empty idle early room made m chunk now =
      append_media-unnamed blob_url own (acts default_ s done) room
        (handle_media_chunk inner open_ m chunk now).1 (acts-IsStale default_ s done fresh) made
    where
      fresh : IsStale s
      fresh = record {
        made_early = inl early;
        active_shown = inl empty;
        active_none = λ e. idle;
        named = rw empty refl;
        once = rw empty tt;
      }
