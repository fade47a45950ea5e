-- ===== src/Worker/Jobs/Chunks.antt =====
-- How services/worker/src/worker.js splits a payload.
use trapchat.Prelude.{
  ℕ, zero, suc, ◌+◌, ◌≤◌, ◌<◌, ◌≡◌, refl, sym, inl, inr, List, [], ◌∷◌, ◌++◌, arith, ltb, tests,
  length, drop, length-take, length-drop, take-append-drop, drop-drop, Bool-cases, drop_all,
}
use trapchat.Worker.Jobs.{Chunk, split_from, split}

-- The chunks put together again.
abbrev pub joined : List Chunk → List ℕ
joined [] = []
joined (c ∷ cs) = c.bytes ++ joined cs

-- Numbered on from `n`, none empty, and none longer than `size`.
abbrev pub IsCut : ℕ → ℕ → List Chunk → Type 0
IsCut size n [] = Unit
IsCut size n (c ∷ cs) =
    (c.seq ≡ n) × (0 < length c.bytes) × (length c.bytes ≤ size) × IsCut size (n + 1) cs

module _ (size : ℕ) (raw : List ℕ) (pos : 0 < size) where
  joined-split_from :
      (fuel i seq : ℕ)
      → length raw ≤ fuel + i
      → joined (split_from fuel size raw i seq) ≡ drop i raw
  unfolding split_from
  joined-split_from zero i seq enough = sym (drop_all i raw (omega arith))
  joined-split_from (suc fuel) i seq enough = elim (Bool-cases (ltb i (length raw))) [
    | inl more ↦
        rw (more, joined-split_from fuel (i + size) (seq + 1) (omega arith), ← drop-drop size i raw)
          (take-append-drop size (drop i raw))
    | inr over ↦ rw over (sym (drop_all i raw (omega tests)))
  ]

  split_from-IsCut : (fuel i seq : ℕ) → IsCut size seq (split_from fuel size raw i seq)
  unfolding split_from
  split_from-IsCut zero i seq = tt
  split_from-IsCut (suc fuel) i seq = elim (Bool-cases (ltb i (length raw))) [
    | inl more ↦
        let taken = length-take size (drop i raw) in
        let left = length-drop i raw in
        rw more (
          refl,
          omega (tests, taken, left),
          omega (arith, taken),
          split_from-IsCut fuel (i + size) (seq + 1),
        )
    | inr over ↦ rw over tt
  ]

-- A payload that is cut by a positive size is the chunks put together in order. They are numbered
-- from 0, and each has at least one byte and at most `size`.
pub split_lem :
    (size : ℕ) (raw : List ℕ)
    → 0 < size
    → (joined (split size raw) ≡ raw) × IsCut size 0 (split size raw)
unfolding split
split_lem size raw pos = (
  joined-split_from size raw pos (length raw) 0 0 (omega arith),
  split_from-IsCut size raw pos (length raw) 0 0,
)
