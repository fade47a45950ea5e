-- ===== src/Media/Assembler/File.antt =====
-- How the chunks of one file become the file again (apps/trapchat/src/lib/media.js,
-- `MediaAssembler.handleChunk`).
use trapchat.Prelude.{
  ℕ, suc, ◌+◌, ◌≡◌, refl, ap, ◌∙◌, true, false, Option, some, String, List, length, get_elem?, set,
  arith, ◌<◌, ◌≤◌, inl, inr, ◌⊎◌, Bool-cases, ltb, leb, ◌==◌, ltb→lt, ltb→le, subst, str_eq,
  get_elem?-set_self, lt-length_of_get_elem?,
}
use trapchat.Prelude.JsMap.{get, put}
use trapchat.Media.FileName.{Name}
use trapchat.Media.Transfer.{Bytes, Metadata, Transfer, has_chunk, set_chunk, store_chunk}
use trapchat.Media.Transfer.Chunks.{filled, joined, filled-le, Agrees-length}
use trapchat.Media.Assembler.{
  Assembler, Message, Request, Answer, ignored, progress, complete, stale_timeout, max_chunks,
  max_file_size, accept, find_transfer, is_duplicate, admit, finish, after_admit, handle_chunk,
}
use trapchat.Media.Mime.{validate_mime_type}
use trapchat.Media.Assembler.Stored.{
  IsTransferOf, chunks-store_chunk, store_chunk-IsTransferOf, finish_transfer_lem,
}
use trapchat.Media.Assembler.Find.{IsPending, HasRoom, Finds, find_transfer_old, find_transfer_new}

-- What a chunk of the file leads to. One that is there already is ignored. One that is new is counted
-- while others are missing, and the last one gives the file.
abbrev pub Continues :
    List Bytes → String → List (Option Bytes) → ℕ → Bytes → Assembler × Answer → Type 0
Continues ps id cs seq b (a, answer) =
    ((has_chunk cs seq ≡ true) × (answer ≡ ignored) × IsPending ps id cs a)
    ⊎ (((has_chunk cs seq ≡ false)
          × (suc (filled cs) < length ps)
          × (answer ≡ progress id (suc (filled cs)) (length ps))
          × IsPending ps id (set_chunk cs seq b) a)
        ⊎ ((has_chunk cs seq ≡ false)
            × (suc (filled cs) ≡ length ps)
            × ((type : String) × (name : Option Name) × (size : Option ℕ) × (answer
                  ≡ complete id type name size (joined ps)))))

module _ {C : Type 0} (ps : List Bytes) (r : Request C) (total : r.total ≡ length ps)
    (meta : Metadata) (b : Bytes) (part : get_elem? ps r.seq ≡ some b)
    (fits : length (joined ps) ≤ max_file_size) where
  finish_lem :
      (a : Assembler) (i : ℕ) (t : Transfer)
      → get r.transfer_id a.transfers ≡ some i
      → get_elem? a.heap i ≡ some t
      → IsTransferOf ps t
      → has_chunk t.chunks r.seq ≡ false
      → Continues ps r.transfer_id t.chunks r.seq b (finish a i r (some (b, meta)))
  unfolding finish
  finish_lem a i t g h p new =
      let t' = store_chunk t r.seq b meta in
      let a' = record a { heap = set a.heap i t' } in
      let (q, more) = store_chunk-IsTransferOf ps t r.seq b meta p part new in
      let (going, ends) = finish_transfer_lem ps a' t' r.transfer_id q fits in
      let at_most : filled t'.chunks ≤ length ps =
        omega (arith, filled-le t'.chunks, Agrees-length ps t'.chunks q.0) in
      elim (Bool-cases (ltb (suc (filled t.chunks)) (length ps))) [
        | inl l ↦
            let lt : suc (filled t.chunks) < length ps = ltb→lt _ _ l in
            rw (h, finish, going (omega (arith, more)))
              (inr (
                inl (
                  new,
                  lt,
                  ap (λ n. progress r.transfer_id n (length ps)) more,
                  (
                    i,
                    t',
                    g,
                    get_elem?-set_self a.heap i t' h,
                    chunks-store_chunk t r.seq b meta,
                    q,
                  ),
                )))
        | inr l ↦
            let last : suc (filled t.chunks) ≡ length ps =
              omega (arith, more, at_most, ltb→le _ _ l) in
            rw (h, finish)
              (inr (
                inr (
                  new,
                  last,
                  (
                    validate_mime_type t'.mime_type (joined ps),
                    t'.file_name,
                    t'.file_size,
                    ends (more ∙ last),
                  ),
                )))
      ]

  admit_lem :
      (cs : List (Option Bytes)) (a : Assembler) (now : ℕ)
      → Finds ps r.transfer_id cs (find_transfer a r meta)
      → Continues ps r.transfer_id cs r.seq b
          (after_admit (admit a r (some meta) now) r (some (b, meta)))
  unfolding admit after_admit is_duplicate
  admit_lem cs a now (i, a', t, e, g, h, c, p) =
      let seen : is_duplicate a'.heap i r.seq ≡ has_chunk t.chunks r.seq =
        rw (h, is_duplicate) refl in
      subst
        (λ cs.
          Continues ps r.transfer_id cs r.seq b
            (after_admit (admit a r (some meta) now) r (some (b, meta))))
        c
        (elim (Bool-cases (has_chunk t.chunks r.seq)) [
          | inl d ↦ rw (e, admit, seen ∙ d) (inl (d, refl, (i, t, g, h, refl, p)))
          | inr d ↦
              rw (e, admit, seen ∙ d)
                (finish_lem
                  (record a' { timers = put r.transfer_id (now + stale_timeout) a'.timers }) i t g h
                  p d)
        ])

-- With every chunk of a file that comes under its id, which is not empty, and that the key opens,
-- whatever the order and however often: one that is there already is ignored, one that is new is
-- counted while others are missing, and the one that was missing last gives the file, its parts put
-- together in their order. The file is not over 25 MB and has at most 100 parts, and there is a
-- transfer for it or room for one.
pub handle_chunk-Continues :
    {C : Type 0} (inner : C → Option Metadata) (open_ : C → Option (Bytes × Metadata))
    (ps : List Bytes) (id : String) (cs : List (Option Bytes)) (a : Assembler) (seq : ℕ) (chunk : C)
    (b : Bytes) (meta : Metadata) (now : ℕ)
    → str_eq id "" ≡ false
    → length ps ≤ max_chunks
    → length (joined ps) ≤ max_file_size
    → get_elem? ps seq ≡ some b
    → inner chunk ≡ some meta
    → open_ chunk ≡ some (b, meta)
    → IsPending ps id cs a ⊎ HasRoom ps id cs a
    → let m : Message C = record {
      transfer_id = id;
      seq = some seq;
      total = length ps;
      chunk = some chunk;
    } in
      Continues ps id cs seq b (handle_chunk inner open_ a (some m) now)
unfolding handle_chunk accept
handle_chunk-Continues {C = C} inner open_ ps id cs a seq chunk b meta now named few fits part tells
      opens h =
    let r : Request C = record { transfer_id = id; seq = seq; total = length ps; chunk = chunk } in
    let inside : seq < length ps = lt-length_of_get_elem? ps seq b part in
    let some_total : (length ps == 0) ≡ false = ground arith in
    let not_many : ltb max_chunks (length ps) ≡ false = ground arith in
    let in_range : leb (length ps) seq ≡ false = ground arith in
    let found : Finds ps id cs (find_transfer a r meta) = elim h [
      | inl p ↦ find_transfer_old ps r refl meta cs a p
      | inr p ↦ find_transfer_new ps r refl meta cs a p
    ] in
    let m : Message C = record {
      transfer_id = id;
      seq = some seq;
      total = length ps;
      chunk = some chunk;
    } in
    let accepted : accept (some m) ≡ some r =
      rw (named, some_total, not_many, in_range, accept) refl in
    rw (accepted, handle_chunk, tells, opens) (admit_lem ps r refl meta b part fits cs a now found)
