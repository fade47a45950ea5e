-- ===== src/Worker/Queue/DeadLetters.antt =====
-- The dead letters of services/worker/src/queue.js: how many are kept, and which.
use trapchat.Prelude.{
  ℕ, suc, ◌-◌, ◌≤◌, ◌≡◌, refl, List, [], ◌∷◌, ◌++◌, arith, length, drop, ltb, Bool-cases, inl, inr,
  tests,
}
use trapchat.Worker.Queue.{Job, Queue, DeadLetter, max_dead_letters, evict, dead_letter, failed}

pub length-evict : (n : ℕ) (ds : List DeadLetter) → length (evict n ds) ≤ n
unfolding evict
length-evict n [] = omega arith
length-evict n (d ∷ ds) = ground (arith, length-evict n ds)

pub evict-drop : (n : ℕ) (ds : List DeadLetter) → evict n ds ≡ drop (length ds - n) ds
unfolding evict
evict-drop n [] = let e : 0 - n ≡ 0 = omega arith in rw e
evict-drop n (d ∷ ds) = elim (Bool-cases (ltb n (length (d ∷ ds)))) [
  | inl over ↦
      let e : length (d ∷ ds) - n ≡ suc (length ds - n) = omega tests in
      rw (over, e) (evict-drop n ds)
  | inr fits ↦ let e : length (d ∷ ds) - n ≡ 0 = omega tests in rw (fits, e)
]

pub evict_fits : (n : ℕ) (ds : List DeadLetter) → length ds ≤ n → evict n ds ≡ ds
unfolding evict
evict_fits n [] h = refl
evict_fits n (d ∷ ds) h = ground arith

module _ {D : Type 0} where
  -- A failed job adds one letter at the end. Of the letters the newest 1000 are kept, in order, and
  -- the items stay as they are.
  pub failed_keeps_newest :
      (q : Queue D) (j : Job D) (now : ℕ)
      → let all = q.dead_letters ++ dead_letter j now ∷ [] in
        ((failed q j now).dead_letters ≡ drop (length all - max_dead_letters) all)
        × (length (failed q j now).dead_letters ≤ max_dead_letters)
        × ((failed q j now).items ≡ q.items)
  unfolding failed
  failed_keeps_newest q j now = (evict-drop _ _, length-evict _ _, refl)
