-- ===== src/Media/Send.antt =====
-- apps/trapchat/src/lib/media.js: `sendMedia`. The cipher is a parameter: `seal n` is its n-th call,
-- with the random numbers of that call. The pauses between the chunks are left out.
pub mod Parts
use trapchat.Prelude.{
  ℕ, zero, suc, ◌+◌, ◌-◌, ◌*◌, ◌/◌, min, Option, none, some, String, List, [], ◌∷◌, length, take,
  drop, ltb, ◌==◌, if◌then◌else◌,
}
use trapchat.Socket.Client.{Client, Stamp, send}
use trapchat.Media.FileName.{Name}
use trapchat.Media.Mime.{detect_mime_type}
use trapchat.Media.Transfer.{Bytes, Metadata}
use trapchat.Media.Assembler.{max_file_size}

abbrev pub chunk_size : ℕ
chunk_size = 524288

-- A file of the browser; its `size` is the number of its bytes.
pub record File : Type 0 where
  pub name : Name
  pub type_ : String
  pub bytes : Bytes

pub record Payload (C : Type 0) : Type 0 where
  pub transfer_id : String
  pub seq : ℕ
  pub total : ℕ
  pub chunk : C

-- Math.ceil(bytes.length / CHUNK_SIZE)
pub total_of : ℕ → ℕ
total_of n = (n + (chunk_size - 1)) / chunk_size

-- bytes.slice(start, end)
pub slice : Bytes → ℕ → ℕ → Bytes
slice bytes start end_ = take (end_ - start) (drop start bytes)

-- The bytes of the chunk `seq`.
pub chunk_data : Bytes → ℕ → Bytes
unfolding slice
chunk_data bytes seq =
    let start = seq * chunk_size in slice bytes start (min (start + chunk_size) (length bytes))

-- Only the first chunk says what the file is.
pub chunk_metadata : File → String → ℕ → Metadata
chunk_metadata f mime seq =
    if seq == 0
    then record {
      mime_type = some mime;
      file_name = some f.name;
      file_size = some (length f.bytes);
    }
    else record { mime_type = none; file_name = none; file_size = none }

module _ {C : Type 0} (seal : ℕ → Bytes → Metadata → C) where
  pub payload : File → String → String → ℕ → ℕ → Payload C
  unfolding chunk_data chunk_metadata
  payload f mime id total seq = record {
    transfer_id = id;
    seq = seq;
    total = total;
    chunk = seal seq (chunk_data f.bytes seq) (chunk_metadata f mime seq);
  }

  -- `for (let seq = 0; seq < total; seq++)`, from `seq` on with `left` rounds to go.
  pub send_from :
      Client (Payload C)
      → String
      → File
      → String
      → String
      → ℕ
      → (ℕ → Stamp)
      → ℕ
      → ℕ
      → Client (Payload C)
  send_from c room f mime id total stamps zero seq = c
  send_from c room f mime id total stamps (suc left) seq =
      send_from (send c "media" room (payload f mime id total seq) none (stamps seq)).0 room f mime
        id total stamps left (suc seq)

  -- What `sendMedia` resolves to; `none` is the error that the file is too large.
  pub record Sent : Type 0 where
    pub client : Client (Payload C)
    pub transfer_id : String
    pub total : ℕ
    pub mime_type : String

  pub send_media : Client (Payload C) → String → File → String → (ℕ → Stamp) → Option Sent
  send_media c room f id stamps =
      if ltb max_file_size (length f.bytes)
      then none
      else let mime = detect_mime_type f.type_ f.bytes in
        let total = total_of (length f.bytes) in
        some (record {
          client = send_from c room f mime id total stamps total 0;
          transfer_id = id;
          total = total;
          mime_type = mime;
        })

  -- `sendCanvas`, with what `toBlob` gives and the name of the file; `none` is an error, too.
  pub send_canvas :
      Client (Payload C) → String → Option Bytes → Name → String → (ℕ → Stamp) → Option Sent
  unfolding send_media
  send_canvas c room none name id stamps = none
  send_canvas c room (some blob) name id stamps =
      send_media c room (record { name = name; type_ = "image/png"; bytes = blob }) id stamps
