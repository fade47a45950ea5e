-- ===== src/Hooks/Links.antt =====
-- The links to a room: apps/trapchat/src/hooks/useRoomManager.js writes them and reads the fragment, and
-- apps/trapchat/src/App.jsx reads the room's name from it. Texts are lists of UTF-16 units; what
-- `encodeURIComponent` and `decodeURIComponent` do are parameters.
pub mod Opens
use trapchat.Prelude.{
  ℕ, Bool, true, false, Option, none, some, List, [], ◌∷◌, ◌++◌, ◌==◌, if◌then◌else◌,
}

abbrev pub Text : Type 0
Text = List ℕ

-- hash.includes('/')
unfoldable pub has_slash : Text → Bool
has_slash [] = false
has_slash (c ∷ s) = if c == b'/' then true else has_slash s

-- hash.split('/'): the first piece and the others.
pub split_slash : Text → Text × List Text
split_slash [] = ([], [])
split_slash (c ∷ s) = let r = split_slash s in if c == b'/' then ([], r.0 ∷ r.1) else (c ∷ r.0, r.1)

-- The two pieces of hash.split('/', 2), where both are there and not empty.
pub two_pieces : Text × List Text → Option (Text × Text)
two_pieces ([], r) = none
two_pieces (c ∷ s, []) = none
two_pieces (c ∷ s, [] ∷ r) = none
two_pieces (c ∷ s, (d ∷ t) ∷ r) = some (c ∷ s, d ∷ t)

-- The fragment of a share link, behind the `#`, for a key that is exported.
pub share_fragment : (Text → Text) → Text → Text → Text
share_fragment encode room exported = encode room ++ b'/' ∷ exported

-- The room and its key's text, as they are taken from the fragment when the page is opened.
pub read_fragment : (Text → Text) → Text → Option (Text × Text)
read_fragment decode hash =
    if has_slash hash
    then elim (two_pieces (split_slash hash)) [
      | none ↦ none
      | some (room, key) ↦ some (decode room, key)
    ]
    else none

-- The first room that the page offers; `random` is `generateRoomName()`.
pub initial_room : (Text → Text) → Text → Text → Text
initial_room decode random hash =
    if has_slash hash
    then elim (split_slash hash).0 [ [] ↦ random | c ∷ s ↦ decode (c ∷ s) ]
    else random
