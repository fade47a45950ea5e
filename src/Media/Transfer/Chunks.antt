-- ===== src/Media/Transfer/Chunks.antt =====
-- The chunks of a transfer (apps/trapchat/src/lib/media.js), as parts of one file.
use trapchat.Prelude.{
  ℕ, zero, suc, ◌≡◌, refl, ap, sym, false, Option, none, some, List, [], ◌∷◌, ◌++◌, length,
  length-append, get_elem?, arith, ◌<◌, ◌≤◌, replicate,
}
use mathlib.Core.Option.{some-injective}
use trapchat.Media.Transfer.{Bytes, has_chunk, set_chunk, total_size, assemble}

-- How many chunks have come.
abbrev pub filled : List (Option Bytes) → ℕ
filled [] = 0
filled (none ∷ cs) = filled cs
filled (some b ∷ cs) = suc (filled cs)

-- Every chunk that has come is the file's part at its place, and there is a place for each part.
abbrev pub Agrees : List Bytes → List (Option Bytes) → Type 0
Agrees [] [] = Unit
Agrees [] (c ∷ cs) = ⊥
Agrees (p ∷ ps) [] = ⊥
Agrees (p ∷ ps) (none ∷ cs) = Agrees ps cs
Agrees (p ∷ ps) (some b ∷ cs) = (b ≡ p) × Agrees ps cs

-- The parts, one after the other.
abbrev pub joined : List Bytes → Bytes
joined [] = []
joined (p ∷ ps) = p ++ joined ps

pub filled-le : (cs : List (Option Bytes)) → filled cs ≤ length cs
filled-le [] = omega arith
filled-le (none ∷ cs) = ground (arith, filled-le cs)
filled-le (some b ∷ cs) = ground (arith, filled-le cs)

pub Agrees-length :
    (ps : List Bytes) (cs : List (Option Bytes)) → Agrees ps cs → length ps ≡ length cs
Agrees-length [] [] h = refl
Agrees-length [] (c ∷ cs) h = ground arith
Agrees-length (p ∷ ps) [] h = ground arith
Agrees-length (p ∷ ps) (none ∷ cs) h = ap suc (Agrees-length ps cs h)
Agrees-length (p ∷ ps) (some b ∷ cs) h = ap suc (Agrees-length ps cs h.1)

-- A part that is stored at its place.
pub Agrees-set_chunk :
    (ps : List Bytes) (cs : List (Option Bytes)) (i : ℕ) (b : Bytes)
    → Agrees ps cs
    → get_elem? ps i ≡ some b
    → Agrees ps (set_chunk cs i b)
unfolding set_chunk
Agrees-set_chunk [] cs i b h e = ground arith
Agrees-set_chunk (p ∷ ps) [] i b h e = ground arith
Agrees-set_chunk (p ∷ ps) (none ∷ cs) zero b h e = (sym (some-injective _ _ e), h)
Agrees-set_chunk (p ∷ ps) (some c ∷ cs) zero b h e = (sym (some-injective _ _ e), h.1)
Agrees-set_chunk (p ∷ ps) (none ∷ cs) (suc i) b h e = Agrees-set_chunk ps cs i b h e
Agrees-set_chunk (p ∷ ps) (some c ∷ cs) (suc i) b h e = (h.0, Agrees-set_chunk ps cs i b h.1 e)

pub filled-set_chunk :
    (cs : List (Option Bytes)) (i : ℕ) (b : Bytes)
    → i < length cs
    → has_chunk cs i ≡ false
    → filled (set_chunk cs i b) ≡ suc (filled cs)
unfolding set_chunk has_chunk
filled-set_chunk [] i b l h = omega arith
filled-set_chunk (none ∷ cs) zero b l h = refl
filled-set_chunk (some c ∷ cs) zero b l h = ground arith
filled-set_chunk (none ∷ cs) (suc i) b l h = filled-set_chunk cs i b (omega arith) h
filled-set_chunk (some c ∷ cs) (suc i) b l h = ap suc (filled-set_chunk cs i b (omega arith) h)

-- All parts are there: what is put together is the file.
pub assemble_all :
    (ps : List Bytes) (cs : List (Option Bytes))
    → Agrees ps cs
    → filled cs ≡ length cs
    → (assemble cs ≡ some (joined ps)) × (total_size cs ≡ length (joined ps))
unfolding assemble total_size
assemble_all [] [] h f = (refl, refl)
assemble_all [] (c ∷ cs) h f = ground arith
assemble_all (p ∷ ps) [] h f = ground arith
assemble_all (p ∷ ps) (none ∷ cs) h f = ground (arith, filled-le cs)
assemble_all (p ∷ ps) (some b ∷ cs) h f =
    let (a, s) = assemble_all ps cs h.1 (omega arith) in
    (rw (a, h.0) refl, rw (s, h.0) (sym (length-append p (joined ps))))

-- Before any chunk has come.
pub Agrees-replicate :
    (ps : List Bytes)
    → Agrees ps (replicate (length ps) none) × (filled (replicate (length ps) none) ≡ 0)
Agrees-replicate [] = (tt, refl)
Agrees-replicate (p ∷ ps) = Agrees-replicate ps

-- Something is missing: nothing can be put together.
pub assemble_hole : (cs : List (Option Bytes)) → filled cs < length cs → assemble cs ≡ none
unfolding assemble
assemble_hole [] h = ground arith
assemble_hole (none ∷ cs) h = refl
assemble_hole (some b ∷ cs) h = rw (assemble_hole cs (omega arith)) refl

pub total_size-le :
    (ps : List Bytes) (cs : List (Option Bytes)) → Agrees ps cs → total_size cs ≤ length (joined ps)
unfolding total_size
total_size-le [] [] h = omega arith
total_size-le [] (c ∷ cs) h = ground arith
total_size-le (p ∷ ps) [] h = ground arith
total_size-le (p ∷ ps) (none ∷ cs) h =
    omega (arith, total_size-le ps cs h, length-append p (joined ps))
total_size-le (p ∷ ps) (some b ∷ cs) h =
    omega (arith, total_size-le ps cs h.1, length-append p (joined ps), ap length h.0)

pub set_chunk_again :
    (cs : List (Option Bytes)) (i : ℕ) (b : Bytes)
    → set_chunk (set_chunk cs i b) i b ≡ set_chunk cs i b
unfolding set_chunk
set_chunk_again [] zero b = refl
set_chunk_again [] (suc i) b = ap (λ r. none ∷ r) (set_chunk_again [] i b)
set_chunk_again (c ∷ cs) zero b = refl
set_chunk_again (c ∷ cs) (suc i) b = ap (λ r. c ∷ r) (set_chunk_again cs i b)
