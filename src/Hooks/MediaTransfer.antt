-- ===== src/Hooks/MediaTransfer.antt =====
-- apps/trapchat/src/hooks/useMediaTransfer.js: the assembler of a page, and the messages that media
-- makes. A message that goes to `appendMessage` is given back; ids, times and object URLs are left out.
use trapchat.Prelude.{ℕ, Option, none, some, String, length}
use trapchat.Socket.Client.{Client, Stamp}
use trapchat.Media.FileName.{Name}
use trapchat.Media.Transfer.{Bytes, Metadata}
use trapchat.Media.Assembler.{
  Assembler, Message, Answer, ignored, threw, key_mismatch, too_large, progress, complete,
  handle_chunk, new,
}
use trapchat.Media.Send.{File, Payload, send_media, send_canvas}

-- A message for the room: a notice of an error, or media with its type, name, size and bytes.
pub data MediaMessage : Type 0 where
  failed : String → MediaMessage
  upload_failed : MediaMessage
  media : String → Option Name → Option ℕ → Bytes → MediaMessage
  own_media : String → Name → Option ℕ → Bytes → MediaMessage

pub record MediaState : Type 0 where
  pub assembler : Option Assembler
  pub upload_progress : Option (ℕ × ℕ)
  pub download_progress : Option (String × ℕ × ℕ)

-- The one that was there is destroyed: its transfers and its timers are gone.
init_assembler : MediaState → MediaState
init_assembler s = record s { assembler = some new }

destroy_assembler : MediaState → MediaState
destroy_assembler s = record s { assembler = none }

-- What `handleMediaChunk` makes of a result.
pub message_of : Answer → Option MediaMessage
message_of ignored = none
message_of threw = none
message_of (key_mismatch id) = some (failed "[encrypted media — key mismatch]")
message_of (too_large id) = some (failed "[media rejected — exceeds 25MB limit]")
message_of (progress id received total) = none
message_of (complete id mime name size bytes) = some (media mime name size bytes)

module _ {C : Type 0} (inner : C → Option Metadata) (open_ : C → Option (Bytes × Metadata)) where
  pub handle_media_chunk : MediaState → Option (Message C) → ℕ → MediaState × Option MediaMessage
  handle_media_chunk s m now = elim s.assembler [
    | none ↦ (s, none)
    | some a ↦
        let r = handle_chunk inner open_ a m now in
        (record s { assembler = some r.0 }, message_of r.1)
  ]

-- The callback `onProgress`, and its timer where the last chunk is there.
on_progress : MediaState → String → ℕ → ℕ → MediaState
on_progress s id received total = record s { download_progress = some (id, received, total) }

download_done : MediaState → MediaState
download_done s = record s { download_progress = none }

module _ {C : Type 0} (seal : ℕ → Bytes → Metadata → C) where
  -- The client after an upload, and the message that is shown. No file is selected, `sendMedia` throws, or
  -- it is sent.
  handle_file_select :
      MediaState
      → Client (Payload C)
      → String
      → Option File
      → String
      → (ℕ → Stamp)
      → MediaState × Client (Payload C) × Option MediaMessage
  handle_file_select s c room none id stamps = (s, c, none)
  handle_file_select s c room (some f) id stamps =
      let s' : MediaState = record s { upload_progress = none } in
      elim (send_media seal c room f id stamps) [
        | none ↦ (s', c, some upload_failed)
        | some sent ↦ (
          s',
          sent.client,
          some (own_media sent.mime_type f.name (some (length f.bytes)) f.bytes),
        )
      ]

-- `handleCanvasShare`, where there is a canvas with its bytes as an image. `sendCanvas` gives no size, so
-- the message has none.
handle_canvas_share :
    {C : Type 0} (seal : ℕ → Bytes → Metadata → C)
    → MediaState
    → Client (Payload C)
    → String
    → Option (Option Bytes)
    → Name
    → Bytes
    → String
    → (ℕ → Stamp)
    → MediaState × Client (Payload C) × Option MediaMessage
handle_canvas_share seal s c room none name image id stamps = (s, c, none)
handle_canvas_share seal s c room (some blob) name image id stamps =
    let s' : MediaState = record s { upload_progress = none } in
    elim (send_canvas seal c room blob name id stamps) [
      | none ↦ (s', c, some upload_failed)
      | some sent ↦ (s', sent.client, some (own_media sent.mime_type name none image))
    ]

reset_progress : MediaState → MediaState
reset_progress s = record s { upload_progress = none; download_progress = none }
