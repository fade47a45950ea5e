-- ===== src/Media/Assembler/Find.antt =====
-- The transfer that a chunk belongs to (apps/trapchat/src/lib/media.js,
-- `MediaAssembler.handleChunk`).
use trapchat.Prelude.{
  ℕ, zero, suc, ◌≡◌, refl, ap, ◌∙◌, sym, Bool, true, false, ◌&&◌, Option, none, some, String, List,
  [], ◌∷◌, ◌++◌, length, get_elem?, arith, if◌then◌else◌, ◌<◌, replicate, get_elem?-append_length,
  leb, ◌==◌, eq_refl,
}
use mathlib.Core.Option.{some-injective}
use trapchat.Prelude.JsMap.{get, put, get-put}
use trapchat.Media.Transfer.{Bytes, Metadata, Transfer, is_named, empty_transfer, describe}
use trapchat.Media.Transfer.Chunks.{Agrees-replicate}
use trapchat.Media.Assembler.{
  Assembler, Request, max_concurrent_transfers, update_at, find_transfer,
}
use trapchat.Media.Assembler.Stored.{IsTransferOf}

get_elem?-update_at :
    (ts : List Transfer) (i : ℕ) (f : Transfer → Transfer) (t : Transfer)
    → get_elem? ts i ≡ some t
    → get_elem? (update_at ts i f) i ≡ some (f t)
unfolding update_at
get_elem?-update_at [] i f t h = cc
get_elem?-update_at (u ∷ ts) zero f t h = ap some (ap f (some-injective _ _ h))
get_elem?-update_at (u ∷ ts) (suc i) f t h = get_elem?-update_at ts i f t h

-- The assembler has a transfer of the file under this id, and these are the chunks that have come.
abbrev pub IsPending : List Bytes → String → List (Option Bytes) → Assembler → Type 0
IsPending ps id cs a =
    (i : ℕ) × (t : Transfer) × (get id a.transfers ≡ some i)
    × (get_elem? a.heap i ≡ some t)
    × (t.chunks ≡ cs)
    × IsTransferOf ps t

-- It has none yet, and there is room for one.
abbrev pub HasRoom : List Bytes → String → List (Option Bytes) → Assembler → Type 0
HasRoom ps id cs a =
    (get id a.transfers ≡ none)
    × (length a.transfers < max_concurrent_transfers)
    × (cs ≡ replicate (length ps) none)

abbrev pub Finds : List Bytes → String → List (Option Bytes) → Option (ℕ × Assembler) → Type 0
Finds ps id cs o =
    (i : ℕ) × (a : Assembler) × (t : Transfer) × (o ≡ some (i, a))
    × (get id a.transfers ≡ some i)
    × (get_elem? a.heap i ≡ some t)
    × (t.chunks ≡ cs)
    × IsTransferOf ps t

module _ {C : Type 0} (ps : List Bytes) (r : Request C) (total : r.total ≡ length ps)
    (meta : Metadata) where
  pub find_transfer_old :
      (cs : List (Option Bytes)) (a : Assembler)
      → IsPending ps r.transfer_id cs a
      → Finds ps r.transfer_id cs (find_transfer a r meta)
  unfolding find_transfer describe
  find_transfer_old cs a (i, t, g, h, c, p) =
      rw (g, find_transfer) (go (r.seq == 0 && is_named meta.mime_type))
    where
      go :
          (b : Bool)
          → Finds ps r.transfer_id cs (
              some
                (i, if b then record a { heap = update_at a.heap i (λ u. describe u meta) } else a))
      go true = (
        i,
        record a { heap = update_at a.heap i (λ u. describe u meta) },
        describe t meta,
        refl,
        g,
        get_elem?-update_at a.heap i (λ u. describe u meta) t h,
        c,
        p,
      )
      go false = (i, a, t, refl, g, h, c, p)

  pub find_transfer_new :
      (cs : List (Option Bytes)) (a : Assembler)
      → HasRoom ps r.transfer_id cs a
      → Finds ps r.transfer_id cs (find_transfer a r meta)
  unfolding find_transfer
  find_transfer_new cs a (g, l, c) =
      rw (g, find_transfer, room)
        (
          length a.heap,
          a',
          empty_transfer r.total,
          refl,
          get-put r.transfer_id r.transfer_id (length a.heap) a.transfers
              ∙ rw (eq_refl r.transfer_id) refl,
          get_elem?-append_length a.heap [] (empty_transfer r.total),
          ap (λ n. replicate n none) total ∙ sym c,
          (rw total (Agrees-replicate ps).0, rw (total, (Agrees-replicate ps).1) refl, total),
        )
    where
      room : leb max_concurrent_transfers (length a.transfers) ≡ false
      room = ground arith

      a' : Assembler
      a' = record a {
        heap = a.heap ++ empty_transfer r.total ∷ [];
        transfers = put r.transfer_id (length a.heap) a.transfers;
      }
