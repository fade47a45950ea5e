-- ===== src/App/Names.antt =====
-- apps/trapchat/src/App.jsx: the names that the page makes up. The numbers of `getRandomValues` are
-- arguments, and so is what makes the first letter of a word upper case.
pub mod Given
use trapchat.Prelude.{ℕ, ◌%◌, Option, none, some, String, List, [], ◌∷◌, length, get_elem?, ◌>>=◌}
use Prim.Native.String.{◌++◌ as join}

abbrev pub adjectives : List String
adjectives =
    "swift" ∷ "silent" ∷ "shadow" ∷ "neon" ∷ "ghost" ∷ "lunar" ∷ "cosmic" ∷ "cyber" ∷ "arctic"
    ∷ "ember" ∷ "crystal" ∷ "iron" ∷ "velvet" ∷ "crimson" ∷ "golden" ∷ "hidden" ∷ "storm" ∷ "frost"
    ∷ "dark" ∷ "wild" ∷ "rogue" ∷ "phantom" ∷ "mystic" ∷ "chrome" ∷ "atomic" ∷ "blazing" ∷ "hollow"
    ∷ "vivid" ∷ "ancient" ∷ "static" ∷ "turbo" ∷ "solar" ∷ []

abbrev pub nouns : List String
nouns =
    "wolf" ∷ "hawk" ∷ "viper" ∷ "fox" ∷ "panther" ∷ "cobra" ∷ "raven" ∷ "tiger" ∷ "falcon" ∷ "lynx"
    ∷ "orca" ∷ "jaguar" ∷ "phoenix" ∷ "dragon" ∷ "serpent" ∷ "mantis" ∷ "spark" ∷ "bolt" ∷ "pulse"
    ∷ "flare" ∷ "drift" ∷ "wave" ∷ "blade" ∷ "echo" ∷ "cipher" ∷ "nexus" ∷ "vertex" ∷ "orbit"
    ∷ "prism" ∷ "wraith" ∷ "spectre" ∷ "sigma" ∷ []

-- arr[0] % max
pub secure_random : ℕ → ℕ → ℕ
secure_random random max = random % max

-- `none` is `undefined`.
pub pick : List String → ℕ → Option String
pick words random = get_elem? words (secure_random random (length words))

-- `decimal` writes a number.
pub generate_room_name : (ℕ → String) → ℕ → ℕ → ℕ → Option String
generate_room_name decimal r₁ r₂ r₃ = do
  adj ← pick adjectives r₁
  noun ← pick nouns r₂
  some (join adj (join "-" (join noun (join "-" (decimal (secure_random r₃ 1000))))))

pub generate_nickname : (String → String) → ℕ → ℕ → Option String
generate_nickname capital r₁ r₂ = do
  adj ← pick adjectives r₁
  noun ← pick nouns r₂
  some (join adj (capital noun))
