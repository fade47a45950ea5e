-- ===== src/Media/Assembler/Race.antt =====
-- Two copies of one chunk at the same time (apps/trapchat/src/lib/media.js,
-- `MediaAssembler.handleChunk`).
use trapchat.Prelude.{
  ℕ, suc, ◌+◌, ◌≡◌, refl, ap, ◌∙◌, Bool, true, false, ◌&&◌, not, some, String, List, length,
  get_elem?, set, arith, if◌then◌else◌, ◌<◌, ◌≤◌, is_some, get_elem?-set_self,
}
use trapchat.Media.Transfer.{Bytes, Metadata, Transfer, is_named, describe, has_chunk, store_chunk}
use trapchat.Media.Transfer.Chunks.{
  filled, Agrees, joined, Agrees-length, assemble_hole, total_size-le, set_chunk_again,
}
use trapchat.Media.Assembler.{
  Assembler, Request, threw, progress, max_file_size, finish_transfer, finish,
}
use trapchat.Media.Assembler.Stored.{
  IsTransferOf, chunks-store_chunk, store_chunk-IsTransferOf, finish_transfer_lem,
}

received-store_chunk :
    (t : Transfer) (seq : ℕ) (b : Bytes) (meta : Metadata)
    → ((store_chunk t seq b meta).received ≡ t.received + 1)
      × ((store_chunk t seq b meta).total ≡ t.total)
unfolding store_chunk describe
received-store_chunk t seq b meta = go (not (is_some t.mime_type) && is_named meta.mime_type)
  where
    go :
        (c : Bool)
        → let t' = if c then describe t meta else t in
          (t'.received + 1 ≡ t.received + 1) × (t'.total ≡ t.total)
    go true = (refl, refl)
    go false = (refl, refl)

-- A transfer that counts as many chunks as it should have, but with one of them missing, throws.
finish_transfer_hole :
    (ps : List Bytes) (a : Assembler) (t : Transfer) (id : String)
    → Agrees ps t.chunks
    → filled t.chunks < length ps
    → t.received ≡ t.total
    → length (joined ps) ≤ max_file_size
    → (finish_transfer a t id).1 ≡ threw
unfolding finish_transfer
finish_transfer_hole ps a t id g l r s =
    let hole = assemble_hole t.chunks (omega (arith, Agrees-length ps t.chunks g)) in
    ground (arith, hole, total_size-le ps t.chunks g)

-- Two copies of a chunk that both passed the check for duplicates, before either was stored, are
-- both counted. Where one more chunk of the file, of at most 25 MB, is missing, the second copy
-- makes the transfer look complete, and `handleChunk` throws.
pub double_chunk_throws :
    {C : Type 0} (ps : List Bytes) (a : Assembler) (i : ℕ) (r : Request C) (t : Transfer)
    (b : Bytes) (meta : Metadata)
    → get_elem? a.heap i ≡ some t
    → IsTransferOf ps t
    → get_elem? ps r.seq ≡ some b
    → has_chunk t.chunks r.seq ≡ false
    → filled t.chunks + 2 ≡ length ps
    → length (joined ps) ≤ max_file_size
    → let first = finish a i r (some (b, meta)) in
      (first.1 ≡ progress r.transfer_id (suc (filled t.chunks)) (length ps))
      × ((finish first.0 i r (some (b, meta))).1 ≡ threw)
unfolding finish
double_chunk_throws ps a i r t b meta h p part new two fits =
    let t' = store_chunk t r.seq b meta in
    let a' : Assembler = record a { heap = set a.heap i t' } in
    let (q, more) = store_chunk-IsTransferOf ps t r.seq b meta p part new in
    let going = (finish_transfer_lem ps a' t' r.transfer_id q fits).0 (omega (arith, more)) in
    let h' : get_elem? (set a.heap i t') i ≡ some t' = get_elem?-set_self a.heap i t' h in
    let t'' = store_chunk t' r.seq b meta in
    let same : t''.chunks ≡ t'.chunks =
      chunks-store_chunk t' r.seq b meta
      ∙ rw (chunks-store_chunk t r.seq b meta) (set_chunk_again t.chunks r.seq b) in
    let (one_more, total) = received-store_chunk t' r.seq b meta in
    let counted : t''.received ≡ t''.total = omega (arith, one_more, total, q.1, q.2, more) in
    let one : finish a i r (some (b, meta))
        ≡ (a', progress r.transfer_id (filled t'.chunks) (length ps)) =
      rw (h, finish, going) refl in
    let two_ : (finish a' i r (some (b, meta))).1 ≡ threw =
      rw (h', finish)
        (finish_transfer_hole ps (record a' { heap = set a'.heap i t'' }) t'' r.transfer_id
          (rw same q.0) (rw (same, more) (omega arith)) counted fits) in
    rw one (ap (λ n. progress r.transfer_id n (length ps)) more, two_)
