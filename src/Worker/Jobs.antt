-- ===== src/Worker/Jobs.antt =====
-- services/worker/src/worker.js: `processJob`, the test of a gateway's URL and the case 'media:chunk';
-- Worker/Rooms has the case 'room:cleanup'. `new URL` and the base64 coding of `Buffer` are parameters.
pub mod Chunks
pub mod MediaChunk
mod Examples
use trapchat.Prelude.{
  ℕ, zero, suc, ◌+◌, ◌-◌, ◌*◌, Bool, true, false, ◌&&◌, ◌||◌, not, Option, none, some, String, List,
  [], ◌∷◌, map, ltb, leb, ◌==◌, if◌then◌else◌, str_eq, length, take, drop,
}
use trapchat.Worker.Results.{Url, includes, port_of, web_protocols}

pub data JobError : Type 0 where
  gateway_url_required invalid_url disallowed_gateway_url : JobError
  chunk_arguments failed_to_fetch_rooms unknown_job_type : JobError

pub data Result (A : Type 0) : Type 0 where
  ok : A → Result A
  err : JobError → Result A

abbrev pub allowed_ports : List String
allowed_ports = "80" ∷ "443" ∷ "8080" ∷ []

-- `none` is a URL that is missing; the empty text is falsy too.
pub validate_gateway_url : List String → (String → Option Url) → Option String → Result Url
validate_gateway_url hosts new_url none = err gateway_url_required
validate_gateway_url hosts new_url (some url) =
    if str_eq url "" then err gateway_url_required else elim (new_url url) [
      | none ↦ err invalid_url
      | some u ↦
          if not (includes web_protocols u.protocol)
            || not (includes hosts u.hostname)
            || not (includes allowed_ports (port_of u))
          then err disallowed_gateway_url
          else ok u
    ]

pub record Chunk : Type 0 where
  pub seq : ℕ
  pub bytes : List ℕ

-- `for (let i = …; i < rawBytes.length; i += chunkSize)` from `i` on, with `seq` chunks before.
pub split_from : ℕ → ℕ → List ℕ → ℕ → ℕ → List Chunk
split_from zero chunk_size raw i seq = []
split_from (suc fuel) chunk_size raw i seq =
    let rest = split_from fuel chunk_size raw (i + chunk_size) (seq + 1) in
    let chunk : Chunk = record { seq = seq; bytes = take chunk_size (drop i raw) } in
    if ltb i (length raw) then chunk ∷ rest else []

-- With a positive size there are no more rounds than bytes.
pub split : ℕ → List ℕ → List Chunk
split chunk_size raw = split_from (length raw) chunk_size raw 0 0

-- What is passed on as it is.
pub record Metadata : Type 0 where
  pub mime_type : Option String
  pub file_name : Option String
  pub file_size : Option ℕ

pub record MediaChunkData : Type 0 where
  pub payload : String
  pub chunk_size : Option ℕ
  pub room_id : String
  pub gateway_url : String
  pub transfer_id : Option String
  pub metadata : Metadata

pub record ChunkResult : Type 0 where
  pub seq : ℕ
  pub data_ : String
  pub total : ℕ
  pub transfer_id : Option String
  pub room_id : String
  pub metadata : Metadata

-- The payload of a broadcast.
pub record Broadcast : Type 0 where
  pub transfer_id : String
  pub seq : ℕ
  pub total : ℕ
  pub metadata : Metadata
  pub chunk : String

-- The result, and the broadcasts that are tried, each of which may fail without consequence.
pub record Chunked : Type 0 where
  pub result : List ChunkResult
  pub broadcasts : List Broadcast

chunk_results : (List ℕ → String) → MediaChunkData → List Chunk → List ChunkResult
chunk_results to_base64 d chunks =
    map
      (λ c. record {
        seq = c.seq;
        data_ = to_base64 c.bytes;
        total = length chunks;
        transfer_id = d.transfer_id;
        room_id = d.room_id;
        metadata = d.metadata;
      })
      chunks

-- `transferId || job.id`
pub transfer_id_or : Option String → String → String
transfer_id_or none job_id = job_id
transfer_id_or (some t) job_id = if str_eq t "" then job_id else t

-- The bodies that are posted for the results.
pub broadcasts_of : String → MediaChunkData → List ChunkResult → List Broadcast
broadcasts_of job_id d rs =
    map
      (λ r. record {
        transfer_id = transfer_id_or d.transfer_id job_id;
        seq = r.seq;
        total = r.total;
        metadata = d.metadata;
        chunk = r.data_;
      })
      rs

-- if (gatewayURL && roomId) { validateGatewayURL(gatewayURL); … }
forward :
    List String
    → (String → Option Url)
    → String
    → MediaChunkData
    → List ChunkResult
    → Result Chunked
forward hosts new_url job_id d rs =
    if str_eq d.gateway_url "" || str_eq d.room_id ""
    then ok (record { result = rs; broadcasts = [] })
    else elim (validate_gateway_url hosts new_url (some d.gateway_url)) [
      | err e ↦ err e
      | ok u ↦ ok (record { result = rs; broadcasts = broadcasts_of job_id d rs })
    ]

-- The case 'media:chunk'. A missing text is the empty one.
pub media_chunk :
    (String → List ℕ)
    → (List ℕ → String)
    → List String
    → (String → Option Url)
    → String
    → MediaChunkData
    → Result Chunked
unfolding chunk_results forward
media_chunk from_base64 to_base64 hosts new_url job_id d = elim d.chunk_size [
  | none ↦ err chunk_arguments
  | some size ↦
      if str_eq d.payload "" || size == 0
      then err chunk_arguments
      else forward hosts new_url job_id d
          (chunk_results to_base64 d (split size (from_base64 d.payload)))
]
