-- ===== src/Worker/Jobs/MediaChunk.antt =====
-- What the case 'media:chunk' of services/worker/src/worker.js gives back and sends on.
use trapchat.Prelude.{
  ℕ, ◌+◌, ◌≤◌, ◌<◌, ◌≡◌, ◌≢◌, refl, sym, ◌∙◌, ap, ap₂, ◌⊎◌, inl, inr, Bool, true, false, ◌||◌,
  Option, none, some, String, List, [], ◌∷◌, ◌++◌, map, arith, if◌then◌else◌, str_eq, eq_iff,
  length, length-map,
}
use trapchat.Worker.Results.{Url, includes, port_of, web_protocols}
use trapchat.Worker.Jobs.{
  Result, ok, err, Chunk, split, MediaChunkData, ChunkResult, Chunked, Broadcast, transfer_id_or,
  broadcasts_of, chunk_results, forward, media_chunk, validate_gateway_url, allowed_ports,
}
use trapchat.Worker.Jobs.Chunks.{joined, IsCut, split_lem}

-- The URL is one that the allowlists let through.
abbrev pub IsGateway : List String → (String → Option Url) → String → Type 0
IsGateway hosts new_url url =
    (u : Url) × (new_url url ≡ some u)
    × (includes web_protocols u.protocol ≡ true)
    × (includes hosts u.hostname ≡ true)
    × (includes allowed_ports (port_of u) ≡ true)

module _ (hosts : List String) (new_url : String → Option Url) where
  validated-IsGateway :
      (url : String) (u : Url)
      → validate_gateway_url hosts new_url (some url) ≡ ok u
      → IsGateway hosts new_url url
  unfolding validate_gateway_url
  validated-IsGateway url u h = (u, ground arith, ground arith, ground arith, ground arith)

  -- What `forward` gives where it gives anything: nothing to send on, or all of it to an allowed URL.
  abbrev pub Forwards : String → MediaChunkData → List ChunkResult → Chunked → Type 0
  Forwards job_id d rs r =
      (r.result ≡ rs)
      × ((r.broadcasts ≡ [])
          ⊎ ((r.broadcasts ≡ broadcasts_of job_id d rs)
              × (d.room_id ≢ "")
              × IsGateway hosts new_url d.gateway_url))

  forward-Forwards :
      (job_id : String) (d : MediaChunkData) (rs : List ChunkResult) (r : Chunked)
      → forward hosts new_url job_id d rs ≡ ok r
      → Forwards job_id d rs r
  unfolding forward
  forward-Forwards job_id d rs r h = by_test (str_eq d.gateway_url "" || str_eq d.room_id "") refl h
    where
      by_url :
          (v : Result Url)
          → validate_gateway_url hosts new_url (some d.gateway_url) ≡ v
          → str_eq d.gateway_url "" || str_eq d.room_id "" ≡ false
          → (let x : Result Chunked = elim v [
            | err e ↦ err e
            | ok u ↦ ok (record { result = rs; broadcasts = broadcasts_of job_id d rs })
          ] in
              x)
            ≡ ok r
          → Forwards job_id d rs r
      by_url (err e) f t k = cc
      by_url (ok u) f t k =
          (cc, inr (cc, ground (arith, eq_iff d.room_id ""), validated-IsGateway d.gateway_url u f))

      by_test :
          (b : Bool)
          → (str_eq d.gateway_url "" || str_eq d.room_id "") ≡ b
          → (let x : Result Chunked =
                (if b
                  then ok (record { result = rs; broadcasts = [] })
                  else elim (validate_gateway_url hosts new_url (some d.gateway_url)) [
                    | err e ↦ err e
                    | ok u ↦ ok (record { result = rs; broadcasts = broadcasts_of job_id d rs })
                  ]) in
              x)
            ≡ ok r
          → Forwards job_id d rs r
      by_test true t k = (cc, inl cc)
      by_test false t k = by_url (validate_gateway_url hosts new_url (some d.gateway_url)) refl t k

-- What is posted for a result, part by part.
abbrev pub bodies : String → MediaChunkData → List ChunkResult → List Broadcast
bodies job_id d rs =
    map
      (λ r. record {
        transfer_id = transfer_id_or d.transfer_id job_id;
        seq = r.seq;
        total = r.total;
        metadata = d.metadata;
        chunk = r.data_;
      })
      rs

module _ (to_base64 : List ℕ → String) (from_base64 : String → List ℕ) where
  -- The data of the results, decoded and put together.
  abbrev pub decoded : List ChunkResult → List ℕ
  decoded [] = []
  decoded (r ∷ rs) = from_base64 r.data_ ++ decoded rs

  -- Parts that are numbered on from `n`, each with the number of all of them, none of them empty or longer
  -- than `size`, and with the room and the transfer of the job.
  abbrev pub AreParts : MediaChunkData → ℕ → ℕ → ℕ → List ChunkResult → Type 0
  AreParts d size total n [] = Unit
  AreParts d size total n (r ∷ rs) =
      (r.seq ≡ n)
      × (r.total ≡ total)
      × (r.room_id ≡ d.room_id)
      × (r.transfer_id ≡ d.transfer_id)
      × (r.metadata ≡ d.metadata)
      × (0 < length (from_base64 r.data_))
      × (length (from_base64 r.data_) ≤ size)
      × AreParts d size total (n + 1) rs

  -- The result for a chunk.
  abbrev result_of : MediaChunkData → ℕ → Chunk → ChunkResult
  result_of d total c = record {
    seq = c.seq;
    data_ = to_base64 c.bytes;
    total = total;
    transfer_id = d.transfer_id;
    room_id = d.room_id;
    metadata = d.metadata;
  }

  decoded-map :
      ((bytes : List ℕ) → from_base64 (to_base64 bytes) ≡ bytes)
      → (d : MediaChunkData) (n : ℕ) (cs : List Chunk)
      → decoded (map (result_of d n) cs) ≡ joined cs
  decoded-map law d n [] = refl
  decoded-map law d n (c ∷ cs) = ap₂ (λ x y. x ++ y) (law c.bytes) (decoded-map law d n cs)

  map-AreParts :
      ((bytes : List ℕ) → from_base64 (to_base64 bytes) ≡ bytes)
      → (d : MediaChunkData) (size total n : ℕ) (cs : List Chunk) → IsCut size n cs
      → AreParts d size total n (map (result_of d total) cs)
  map-AreParts law d size total n [] i = tt
  map-AreParts law d size total n (c ∷ cs) (s, some_, few, i) = (
    s,
    refl,
    refl,
    refl,
    refl,
    rw (law c.bytes) some_,
    rw (law c.bytes) few,
    map-AreParts law d size total (n + 1) cs i,
  )

  -- What a chunked payload comes to.
  abbrev pub IsChunked :
      List String → (String → Option Url) → String → MediaChunkData → Chunked → Type 0
  IsChunked hosts new_url job_id d r =
      (size : ℕ) × (d.chunk_size ≡ some size)
      × (decoded r.result ≡ from_base64 d.payload)
      × AreParts d size (length r.result) 0 r.result
      × ((r.broadcasts ≡ [])
          ⊎ ((r.broadcasts ≡ bodies job_id d r.result)
              × (d.room_id ≢ "")
              × IsGateway hosts new_url d.gateway_url))

  chunk_results-IsChunked :
      (hosts : List String) (new_url : String → Option Url) (job_id : String)
      → (d : MediaChunkData) (size : ℕ) (r : Chunked)
      → ((bytes : List ℕ) → from_base64 (to_base64 bytes) ≡ bytes)
      → d.chunk_size ≡ some size
      → 0 < size
      → Forwards hosts new_url job_id d
          (chunk_results to_base64 d (split size (from_base64 d.payload)))
          r
      → IsChunked hosts new_url job_id d r
  unfolding chunk_results broadcasts_of
  chunk_results-IsChunked hosts new_url job_id d size r law given pos (e, sent) =
      let (whole, cut) = split_lem size (from_base64 d.payload) pos in
      (
        size,
        given,
        ap decoded e ∙ decoded-map law d n cs ∙ whole,
        rw (e, length-map) (map-AreParts law d size n 0 cs cut),
        elim sent [
          | inl none_ ↦ inl none_
          | inr (all, room, url) ↦ inr (all ∙ ap (bodies job_id d) (sym e), room, url)
        ],
      )
    where
      cs : List Chunk
      cs = split size (from_base64 d.payload)

      n : ℕ
      n = length cs

  -- With a base64 coding that decodes what it encodes, each job of the type 'media:chunk' that
  -- succeeds cuts its payload into parts that, decoded and put together in their order, give the payload
  -- back. They are numbered from 0, each says how many they are and what the job said of the file, none
  -- is empty, and none is longer than the size that the job asks for. They are posted in that order with
  -- their numbers, under the id of the transfer, or of the job where there is none, all of them or none,
  -- and only to a room at a URL that the allowlists let through.
  pub media_chunk-IsChunked :
      (hosts : List String) (new_url : String → Option Url) (job_id : String)
      → (d : MediaChunkData) (r : Chunked)
      → ((bytes : List ℕ) → from_base64 (to_base64 bytes) ≡ bytes)
      → media_chunk from_base64 to_base64 hosts new_url job_id d ≡ ok r
      → IsChunked hosts new_url job_id d r
  unfolding media_chunk
  media_chunk-IsChunked hosts new_url job_id d r law h = by_size d.chunk_size refl
    where
      by_size : (s : Option ℕ) → d.chunk_size ≡ s → IsChunked hosts new_url job_id d r
      by_size none e = ground arith
      by_size (some size) e =
          let rs = chunk_results to_base64 d (split size (from_base64 d.payload)) in
          chunk_results-IsChunked hosts new_url job_id d size r law e (ground arith)
            (forward-Forwards hosts new_url job_id d rs r (ground arith))
