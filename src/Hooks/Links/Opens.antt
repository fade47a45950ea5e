-- ===== src/Hooks/Links/Opens.antt =====
-- Which links open their room (apps/trapchat/src/hooks/useRoomManager.js).
use trapchat.Prelude.{
  ℕ, ◌≡◌, ◌≢◌, ◌↔◌, refl, ◌∙◌, sym, ap, true, false, Option, none, some, [], ◌∷◌, ◌++◌, arith,
}
use trapchat.Hooks.Links.{Text, has_slash, split_slash, two_pieces, share_fragment, read_fragment}

-- What is documented of the two functions: a name comes back, and what is encoded has no slash; only
-- the empty name has no text.
pub record IsUriCoding (encode decode : Text → Text) : Type 0 where
  pub comes_back : (s : Text) → decode (encode s) ≡ s
  pub no_slash : (s : Text) → has_slash (encode s) ≡ false
  pub not_empty : (c : ℕ) (s : Text) → encode (c ∷ s) ≢ []

has_slash-append : (s t : Text) → has_slash (s ++ b'/' ∷ t) ≡ true
unfolding has_slash
has_slash-append [] t = ground arith
has_slash-append (c ∷ s) t = ground (arith, has_slash-append s t)

split_slash-append :
    (s t : Text)
    → has_slash s ≡ false
    → split_slash (s ++ b'/' ∷ t) ≡ (s, (split_slash t).0 ∷ (split_slash t).1)
unfolding has_slash split_slash
split_slash-append [] t h = ground arith
split_slash-append (c ∷ s) t h = ground (arith, split_slash-append s t)

first_piece : (t : Text) → has_slash t ≡ false → (split_slash t).0 ≡ t
unfolding has_slash split_slash
first_piece [] h = refl
first_piece (c ∷ t) h = ground (arith, first_piece t)

first_piece_cut : (t : Text) → (split_slash t).0 ≡ t → has_slash t ≡ false
unfolding has_slash split_slash
first_piece_cut [] h = refl
first_piece_cut (c ∷ t) h = ground (arith, first_piece_cut t)

-- The room with the first piece of its key, if that is not empty.
abbrev with_key : Text → Text → Option (Text × Text)
with_key room [] = none
with_key room (y ∷ ys) = some (room, y ∷ ys)

read_pieces :
    (decode : Text → Text) (name key : Text)
    → name ≢ []
    → has_slash name ≡ false
    → read_fragment decode (name ++ b'/' ∷ key) ≡ with_key (decode name) (split_slash key).0
unfolding read_fragment two_pieces
read_pieces decode [] key n h = absurd (n refl)
read_pieces decode (x ∷ xs) key n h =
    rw (has_slash-append (x ∷ xs) key, split_slash-append (x ∷ xs) key h) (go (split_slash key).0)
  where
    go :
        (q : Text)
        → (elim (two_pieces (x ∷ xs, q ∷ (split_slash key).1)) [
          | none ↦ none
          | some (room, k) ↦ some (decode room, k)
        ])
          ≡ with_key (decode (x ∷ xs)) q
    go [] = refl
    go (y ∷ ys) = refl

-- A share link opens its room with its key exactly if the exported key, which has base64 digits, has no
-- slash among them: the fragment is cut at each slash. The room's name and the key are not empty.
pub link_opens_iff :
    {encode decode : Text → Text}
    → IsUriCoding encode decode
    → (c : ℕ) (room : Text) (d : ℕ) (key : Text)
    → (read_fragment decode (share_fragment encode (c ∷ room) (d ∷ key)) ≡ some (c ∷ room, d ∷ key))
      ↔ (has_slash (d ∷ key) ≡ false)
unfolding share_fragment
link_opens_iff {encode} {decode} u c room d key =
    let e =
      read_pieces decode (encode (c ∷ room)) (d ∷ key) (u.not_empty c room)
        (u.no_slash (c ∷ room)) in
    (
      λ h. first_piece_cut (d ∷ key) (piece_is (split_slash (d ∷ key)).0 (sym e ∙ h)),
      λ h.
          e
          ∙ ap (with_key (decode (encode (c ∷ room)))) (first_piece (d ∷ key) h)
          ∙ ap (λ r. some (r, d ∷ key)) (u.comes_back (c ∷ room)),
    )
  where
    piece_is :
        (q : Text)
        → with_key (decode (encode (c ∷ room))) q ≡ some (c ∷ room, d ∷ key)
        → q ≡ d ∷ key
    piece_is [] h = cc
    piece_is (y ∷ ys) h = cc
