-- ===== src/Media/Assembler/Stored.antt =====
-- A transfer that is given the parts of one file (apps/trapchat/src/lib/media.js, the end of
-- `MediaAssembler.handleChunk`).
use trapchat.Prelude.{
  ℕ, suc, ◌+◌, ◌≡◌, refl, Bool, true, false, ◌&&◌, not, some, String, List, length, get_elem?,
  arith, if◌then◌else◌, ◌<◌, ◌≤◌, is_some, lt-length_of_get_elem?,
}
use trapchat.Media.Transfer.{
  Bytes, Metadata, Transfer, is_named, describe, has_chunk, set_chunk, store_chunk,
}
use trapchat.Media.Transfer.Chunks.{
  filled, Agrees, joined, Agrees-length, Agrees-set_chunk, filled-set_chunk, assemble_all,
}
use trapchat.Media.Assembler.{Assembler, progress, complete, max_file_size, finish_transfer}
use trapchat.Media.Mime.{validate_mime_type}

-- The transfer has parts of this file and counts them.
abbrev pub IsTransferOf : List Bytes → Transfer → Type 0
IsTransferOf ps t = Agrees ps t.chunks × (t.received ≡ filled t.chunks) × (t.total ≡ length ps)

pub chunks-store_chunk :
    (t : Transfer) (seq : ℕ) (b : Bytes) (meta : Metadata)
    → (store_chunk t seq b meta).chunks ≡ set_chunk t.chunks seq b
unfolding store_chunk describe
chunks-store_chunk t seq b meta = go (not (is_some t.mime_type) && is_named meta.mime_type)
  where
    go :
        (c : Bool)
        → set_chunk (if c then describe t meta else t).chunks seq b ≡ set_chunk t.chunks seq b
    go true = refl
    go false = refl

-- A new description changes nothing about the chunks.
pub store_chunk-IsTransferOf :
    (ps : List Bytes) (t : Transfer) (seq : ℕ) (b : Bytes) (meta : Metadata)
    → IsTransferOf ps t
    → get_elem? ps seq ≡ some b
    → has_chunk t.chunks seq ≡ false
    → IsTransferOf ps (store_chunk t seq b meta)
      × (filled (store_chunk t seq b meta).chunks ≡ suc (filled t.chunks))
unfolding store_chunk describe
store_chunk-IsTransferOf ps t seq b meta (g, r, n) e h =
    go (not (is_some t.mime_type) && is_named meta.mime_type)
  where
    more : filled (set_chunk t.chunks seq b) ≡ suc (filled t.chunks)
    more =
        filled-set_chunk t.chunks seq b
          (omega (arith, Agrees-length ps t.chunks g, lt-length_of_get_elem? ps seq b e)) h

    counted : t.received + 1 ≡ filled (set_chunk t.chunks seq b)
    counted = omega (arith, more)

    go :
        (c : Bool)
        → let t' = if c then describe t meta else t in
          let u = record t' { chunks = set_chunk t'.chunks seq b; received = t'.received + 1 } in
          IsTransferOf ps u × (filled u.chunks ≡ suc (filled t.chunks))
    go true = ((Agrees-set_chunk ps t.chunks seq b g e, counted, n), more)
    go false = ((Agrees-set_chunk ps t.chunks seq b g e, counted, n), more)

-- A transfer that is complete gives the file, and one that is not says how far it is.
pub finish_transfer_lem :
    (ps : List Bytes) (a : Assembler) (t : Transfer) (id : String)
    → IsTransferOf ps t
    → length (joined ps) ≤ max_file_size
    → (filled t.chunks < length ps
        → finish_transfer a t id ≡ (a, progress id (filled t.chunks) (length ps)))
      × (filled t.chunks ≡ length ps
          → (finish_transfer a t id).1
            ≡ complete id
                (validate_mime_type t.mime_type (joined ps))
                t.file_name
                t.file_size
                (joined ps))
unfolding finish_transfer
finish_transfer_lem ps a t id (g, r, n) s = (
  λ l. ground arith,
  λ e.
      let (all, size) = assemble_all ps t.chunks g (omega (arith, Agrees-length ps t.chunks g)) in
      ground (arith, all, size),
)
