-- ===== src/Worker/Bounded.antt =====
-- The maps of services/worker/src/index.js that are kept within a size: after an insertion, the
-- oldest entry goes if there are too many.
use trapchat.Prelude.{
  ℕ, ◌+◌, ◌≤◌, ◌≡◌, inl, inr, String, List, [], ◌∷◌, arith, ltb, if◌then◌else◌, length, eq_refl,
  tests, Bool-cases,
}
use trapchat.Prelude.JsMap.{put, delete, length-put}

module _ {V : Type 0} where
  delete_first : List (String × V) → List (String × V)
  delete_first [] = []
  delete_first ((k, v) ∷ m) = delete k ((k, v) ∷ m)

  -- if (map.size > limit) map.delete(map.keys().next().value)
  pub evict_oldest : ℕ → List (String × V) → List (String × V)
  unfolding delete_first
  evict_oldest limit m = if ltb limit (length m) then delete_first m else m

  pub evict_oldest_fits :
      (limit : ℕ) (m : List (String × V)) → length m ≤ limit → evict_oldest limit m ≡ m
  unfolding evict_oldest
  evict_oldest_fits limit m h = ground arith

  -- The entry that goes is the first one.
  pub evict_oldest_over :
      (limit : ℕ) (k : String) (v : V) (m : List (String × V))
      → limit ≤ length m
      → evict_oldest limit ((k, v) ∷ m) ≡ m
  unfolding evict_oldest delete
  evict_oldest_over limit k v m h = ground (arith, eq_refl k)

  -- An insertion into a map within the limit leaves one within the limit.
  pub length-evict_oldest :
      (limit : ℕ) (k : String) (v : V) (m : List (String × V))
      → length m ≤ limit
      → length (evict_oldest limit (put k v m)) ≤ limit
  length-evict_oldest limit k v m h = go (put k v m) (omega (arith, at_most_one_more))
    where
      at_most_one_more : length (put k v m) ≤ length m + 1
      at_most_one_more = ground (arith, length-put k v m)

      go : (m' : List (String × V)) → length m' ≤ limit + 1 → length (evict_oldest limit m') ≤ limit
      go [] b = rw (evict_oldest_fits limit [] (omega arith)) (omega arith)
      go ((j, w) ∷ m') b = elim (Bool-cases (ltb limit (length ((j, w) ∷ m')))) [
        | inl over ↦ rw (evict_oldest_over limit j w m' (omega tests)) (omega arith)
        | inr fits ↦ rw (evict_oldest_fits limit ((j, w) ∷ m') (omega tests)) (omega tests)
      ]
