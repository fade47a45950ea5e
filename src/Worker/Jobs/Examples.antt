-- ===== src/Worker/Jobs/Examples.antt =====
-- The theorem on the case 'media:chunk' of services/worker/src/worker.js at a concrete payload.
use Prim.Native.Char.{code}
use trapchat.Prelude.{
  ℕ, zero, suc, ◌+◌, ◌≡◌, refl, ◌∙◌, ap, ap₂, true, false, none, some, String, List, [], ◌∷◌, arith,
  ◌==◌,
}
use trapchat.Worker.Results.{Url, includes, port_of}
use trapchat.Worker.Jobs.{
  MediaChunkData, ChunkResult, Chunked, Broadcast, Metadata, transfer_id_or, broadcasts_of, ok,
  media_chunk, split, split_from, forward, validate_gateway_url,
}
use trapchat.Worker.Jobs.MediaChunk.{IsChunked, media_chunk-IsChunked}

-- A coding of bytes as text that serves in the example: `n` times "a" and a "b" for each byte `n`.
tally : ℕ → String → String
tally zero s = String.◌∷◌ "b" s
tally (suc n) s = String.◌∷◌ "a" (tally n s)

to_text : List ℕ → String
unfolding tally
to_text [] = ""
to_text (n ∷ ns) = tally n (to_text ns)

read_tally : String → ℕ → List ℕ
read_tally String.[] n = []
read_tally (String.◌∷◌ c s) n = elim (code c == b'b') [
  | true ↦ n ∷ read_tally s 0
  | false ↦ read_tally s (n + 1)
]

from_text : String → List ℕ
unfolding read_tally
from_text s = read_tally s 0

read_tally-tally : (n m : ℕ) (s : String) → read_tally (tally n s) m ≡ (m + n) ∷ read_tally s 0
unfolding read_tally tally
read_tally-tally zero m s = let e : m + 0 ≡ m = omega arith in rw e refl
read_tally-tally (suc n) m s =
    let e : m + 1 + n ≡ m + suc n = omega arith in
    read_tally-tally n (m + 1) s ∙ ap (λ k. k ∷ read_tally s 0) e

from_text-to_text : (bytes : List ℕ) → from_text (to_text bytes) ≡ bytes
unfolding to_text from_text
from_text-to_text [] = refl
from_text-to_text (n ∷ ns) =
    read_tally-tally n 0 (to_text ns)
    ∙ ap₂ (λ x y. x ∷ y) (let e : 0 + n ≡ n = omega arith in e) (from_text-to_text ns)

abbrev gateway_url : String → Url
gateway_url s = record { protocol = "http:"; hostname = "localhost"; port = "8080" }

abbrev photo : Metadata
photo = record { mime_type = some "image/png"; file_name = none; file_size = some 2 }

-- The bytes 1 and 2, one to a chunk.
abbrev payload : MediaChunkData
payload = record {
  payload = "abaab";
  chunk_size = some 1;
  room_id = "lobby";
  gateway_url = "http://localhost:8080";
  transfer_id = none;
  metadata = photo;
}

abbrev part : ℕ → String → ChunkResult
part n s = record {
  seq = n;
  data_ = s;
  total = 2;
  transfer_id = none;
  room_id = "lobby";
  metadata = photo;
}

-- The job's id stands for that of the transfer.
abbrev post : ℕ → String → Broadcast
post n s = record { transfer_id = "j1"; seq = n; total = 2; metadata = photo; chunk = s }

abbrev parts : Chunked
parts = record {
  result = part 0 "ab" ∷ part 1 "aab" ∷ [];
  broadcasts = post 0 "ab" ∷ post 1 "aab" ∷ [];
}

payload_parts :
    media_chunk from_text to_text ("localhost" ∷ []) (λ s. some (gateway_url s)) "j1" payload
    ≡ ok parts
unfolding media_chunk transfer_id_or broadcasts_of split split_from forward validate_gateway_url
    includes port_of from_text to_text
payload_parts = refl

media_chunk-IsChunked_example :
    IsChunked to_text from_text ("localhost" ∷ []) (λ s. some (gateway_url s)) "j1" payload parts
media_chunk-IsChunked_example =
    media_chunk-IsChunked to_text from_text ("localhost" ∷ []) (λ s. some (gateway_url s)) "j1"
      payload parts from_text-to_text payload_parts
