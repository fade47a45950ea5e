-- ===== src/App/Names/Given.antt =====
-- A name can always be made up (apps/trapchat/src/App.jsx).
use trapchat.Prelude.{
  ℕ, zero, suc, ◌%◌, ◌≡◌, ◌<◌, refl, some, String, List, [], ◌∷◌, length, get_elem?, arith,
}
use Prim.Native.String.{◌++◌ as join}
use trapchat.App.Names.{
  adjectives, nouns, secure_random, pick, generate_room_name, generate_nickname,
}

found :
    (words : List String) (i : ℕ) → i < length words → (w : String) × (get_elem? words i ≡ some w)
found [] i h = absurd (omega (arith, h))
found (w ∷ words) zero h = (w, refl)
found (w ∷ words) (suc i) h = found words i (omega (arith, h))

pick_lem :
    (words : List String) (random : ℕ)
    → 0 < length words
    → (w : String) × (pick words random ≡ some w)
unfolding pick secure_random
pick_lem words random h = found words (random % length words) (omega (arith, h))

-- Whatever the random numbers, a room's name and a nickname are made of an adjective and a noun of the two
-- lists, and the number of the room has at most three digits.
pub names_given :
    (decimal : ℕ → String) (capital : String → String) (r₁ r₂ r₃ : ℕ)
    → (adj noun : String) × (n : ℕ) × (n < 1000)
      × (generate_room_name decimal r₁ r₂ r₃
          ≡ some (join adj (join "-" (join noun (join "-" (decimal n))))))
      × (generate_nickname capital r₁ r₂ ≡ some (join adj (capital noun)))
unfolding generate_room_name generate_nickname secure_random
names_given decimal capital r₁ r₂ r₃ =
    let (adj, a) = pick_lem adjectives r₁ (omega arith) in
    let (noun, b) = pick_lem nouns r₂ (omega arith) in
    (adj, noun, r₃ % 1000, omega arith, ground (arith, a, b), ground (arith, a, b))
