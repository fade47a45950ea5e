-- ===== src/Media/Assembler.antt =====
-- apps/trapchat/src/lib/media.js: class `MediaAssembler`. `handleChunk` waits twice for the cipher, so
-- it is three runs here: `accept` up to the first await, `admit` up to the second, and `finish`. Other
-- events may come in between. What the cipher gives is an argument of the run that it wakes.
pub mod Stored
pub mod Find
pub mod File
pub mod Bounds
pub mod Race
use trapchat.Prelude.{
  ℕ, zero, suc, ◌+◌, Bool, true, false, ◌&&◌, ◌||◌, not, Option, none, some, String, List, [], ◌∷◌,
  ◌++◌, ltb, leb, ◌==◌, if◌then◌else◌, length, str_eq, get_elem?, set, replicate, is_some,
}
use trapchat.Prelude.JsMap.{get, has, put, delete}
use trapchat.Media.FileName.{Name}
use trapchat.Media.Transfer.{
  Bytes, Metadata, Transfer, is_named, empty_transfer, describe, has_chunk, total_size, assemble,
  store_chunk,
}
use trapchat.Media.Mime.{validate_mime_type}

abbrev pub max_file_size : ℕ
max_file_size = 26214400

abbrev pub stale_timeout : ℕ
stale_timeout = 30000

abbrev pub max_chunks : ℕ
max_chunks = 100

abbrev pub max_concurrent_transfers : ℕ
max_concurrent_transfers = 10

-- `heap` has every transfer that was ever made, and `transfers` the places of those in the map. An
-- entry of `timers` is the time at which the pending timer of a transfer fires.
pub record Assembler : Type 0 where
  pub heap : List Transfer
  pub transfers : List (String × ℕ)
  pub timers : List (String × ℕ)

-- A message as it is parsed. An id that is missing is the empty text, a total 0, a chunk `none`.
pub record Message (C : Type 0) : Type 0 where
  pub transfer_id : String
  pub seq : Option ℕ
  pub total : ℕ
  pub chunk : Option C

-- What `handleChunk` resolves to, or that it throws.
pub data Answer : Type 0 where
  ignored threw : Answer
  key_mismatch too_large : String → Answer
  progress : String → ℕ → ℕ → Answer
  complete : String → String → Option Name → Option ℕ → Bytes → Answer

-- The chunk that a message is about, after the first checks.
pub record Request (C : Type 0) : Type 0 where
  pub transfer_id : String
  pub seq : ℕ
  pub total : ℕ
  pub chunk : C

-- `new MediaAssembler()`
abbrev pub new : Assembler
new = record { heap = []; transfers = []; timers = [] }

module _ {C : Type 0} where
  -- The checks before the first await; `none` is a payload that does not parse.
  pub accept : Option (Message C) → Option (Request C)
  accept none = none
  accept (some m) = elim m.seq [
    | none ↦ none
    | some seq ↦ elim m.chunk [
      | none ↦ none
      | some chunk ↦
          if str_eq m.transfer_id "" || m.total == 0 || ltb max_chunks m.total || leb m.total seq
          then none
          else some
              (record { transfer_id = m.transfer_id; seq = seq; total = m.total; chunk = chunk })
    ]
  ]

-- The transfer at a place of the heap is changed.
pub update_at : List Transfer → ℕ → (Transfer → Transfer) → List Transfer
update_at [] i f = []
update_at (t ∷ ts) zero f = f t ∷ ts
update_at (t ∷ ts) (suc i) f = t ∷ update_at ts i f

-- The transfer that a request belongs to: an old one, or a new one if there is room. The result is
-- the place of the transfer.
pub find_transfer : {C : Type 0} → Assembler → Request C → Metadata → Option (ℕ × Assembler)
find_transfer a r meta = elim (get r.transfer_id a.transfers) [
  | some i ↦ some (
    i,
    if r.seq == 0 && is_named meta.mime_type
        then record a { heap = update_at a.heap i (λ t. describe t meta) }
        else a,
  )
  | none ↦
      if leb max_concurrent_transfers (length a.transfers)
      then none
      else some (
        length a.heap,
        record a {
          heap = a.heap ++ empty_transfer r.total ∷ [];
          transfers = put r.transfer_id (length a.heap) a.transfers;
        },
      )
]

pub is_duplicate : List Transfer → ℕ → ℕ → Bool
is_duplicate heap i seq = elim (get_elem? heap i) [ none ↦ false | some t ↦ has_chunk t.chunks seq ]

-- What a run leads to: an answer, or the wait for the bytes for a transfer.
pub data Wait : Type 0 where
  answered : Answer → Wait
  decrypting : ℕ → Wait

-- From the first await to the second. `inner` is what the chunk decrypts to, if it does.
pub admit : {C : Type 0} → Assembler → Request C → Option Metadata → ℕ → Assembler × Wait
admit a r none now = (a, answered (key_mismatch r.transfer_id))
admit a r (some meta) now = elim (find_transfer a r meta) [
  | none ↦ (a, answered ignored)
  | some (i, a') ↦ (
    record a' { timers = put r.transfer_id (now + stale_timeout) a'.timers },
    if is_duplicate a'.heap i r.seq then answered ignored else decrypting i,
  )
]

-- The stale timer, and the transfer in the map, go.
pub clean_up : Assembler → String → Assembler
clean_up a id = record a { transfers = delete id a.transfers; timers = delete id a.timers }

pub finish_transfer : Assembler → Transfer → String → Assembler × Answer
finish_transfer a t id =
    if t.received == t.total
    then if ltb max_file_size (total_size t.chunks)
      then (clean_up a id, too_large id)
      else elim (assemble t.chunks) [
        | none ↦ (a, threw)
        | some bytes ↦ (
          clean_up a id,
          complete id (validate_mime_type t.mime_type bytes) t.file_name t.file_size bytes,
        )
      ]
    else (a, progress id t.received t.total)

-- From the second await to the end, for the transfer at the place `i`. `opened` is what the envelope
-- decrypts to, if it does.
pub finish :
    {C : Type 0} → Assembler → ℕ → Request C → Option (Bytes × Metadata) → Assembler × Answer
finish a i r none = (a, key_mismatch r.transfer_id)
finish a i r (some (b, meta)) = elim (get_elem? a.heap i) [
  | none ↦ (a, ignored)
  | some t ↦
      let t' = store_chunk t r.seq b meta in
      finish_transfer (record a { heap = set a.heap i t' }) t' r.transfer_id
]

-- The stale timer of a transfer fires.
pub expire : Assembler → String → ℕ → Assembler
expire a id now = elim (get id a.timers) [
  | none ↦ a
  | some at ↦ if leb at now then clean_up a id else a
]

pub destroy : Assembler → Assembler
destroy a = record a { transfers = []; timers = [] }

-- `handleChunk` with nothing in between. `inner` and `open_` are what the key makes of a chunk: its
-- metadata, and its bytes with them.
pub after_admit :
    {C : Type 0} → Assembler × Wait → Request C → Option (Bytes × Metadata) → Assembler × Answer
after_admit (a, answered x) r opened = (a, x)
after_admit (a, decrypting i) r opened = finish a i r opened

pub handle_chunk :
    {C : Type 0}
    → (C → Option Metadata)
    → (C → Option (Bytes × Metadata))
    → Assembler
    → Option (Message C)
    → ℕ
    → Assembler × Answer
handle_chunk inner open_ a m now = elim (accept m) [
  | none ↦ (a, ignored)
  | some r ↦ after_admit (admit a r (inner r.chunk) now) r (open_ r.chunk)
]
