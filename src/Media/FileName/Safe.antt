-- ===== src/Media/FileName/Safe.antt =====
-- What is left of a file's name (apps/trapchat/src/lib/media.js, `sanitizeFileName`).
use trapchat.Prelude.{
  ℕ, ◌≡◌, ◌≢◌, ◌≤◌, refl, ap, ◌∙◌, inl, inr, Bool, true, false, ◌&&◌, ◌||◌, Option, none, some, [],
  ◌∷◌, map, take, length, length-take, zero, suc, arith, All, Bool-cases,
}
use trapchat.Media.FileName.{
  Name, is_dot, strip_dots, is_separator, replace_separator, max_name, default_name, or_default,
  sanitize_file_name,
}

-- The name has two dots in a row.
pub has_dots : Name → Bool
has_dots [] = false
has_dots (a ∷ []) = false
has_dots (a ∷ b ∷ s) = (is_dot a && is_dot b) || has_dots (b ∷ s)

has_dots-cons : (a : ℕ) (s : Name) → is_dot a ≡ false → has_dots (a ∷ s) ≡ has_dots s
unfolding has_dots
has_dots-cons a [] h = refl
has_dots-cons a (b ∷ s) h = ground (arith, h)

-- A unit that is no dot stays in front.
strip_dots-cons : (b : ℕ) (s : Name) → is_dot b ≡ false → strip_dots (b ∷ s) ≡ b ∷ strip_dots s
unfolding strip_dots
strip_dots-cons b [] h = refl
strip_dots-cons b (c ∷ s) h = rw (h, strip_dots) refl

strip_dots_pair :
    (a b : ℕ) (s : Name) → is_dot a ≡ true → is_dot b ≡ true → strip_dots (a ∷ b ∷ s) ≡ strip_dots s
unfolding strip_dots
strip_dots_pair a b s t u = rw (t, u, strip_dots) refl

strip_dots_single :
    (a b : ℕ) (s : Name) → is_dot b ≡ false → strip_dots (a ∷ b ∷ s) ≡ a ∷ b ∷ strip_dots s
unfolding strip_dots
strip_dots_single a b s f = elim (Bool-cases (is_dot a)) [
  | inl t ↦ rw (t, f, strip_dots) (ap (λ r. a ∷ r) (strip_dots-cons b s f))
  | inr t ↦ rw (t, strip_dots) (ap (λ r. a ∷ r) (strip_dots-cons b s f))
]

has_dots_dot :
    (a b : ℕ) (s : Name) → is_dot b ≡ false → has_dots s ≡ false → has_dots (a ∷ b ∷ s) ≡ false
unfolding has_dots
has_dots_dot a b s f h = ground (arith, has_dots-cons b s f)

-- A name without two dots in a row has none after the single passes of `strip_dots`.
has_dots-strip_dots : (s : Name) → has_dots (strip_dots s) ≡ false
unfolding has_dots strip_dots
has_dots-strip_dots [] = refl
has_dots-strip_dots (a ∷ []) = refl
has_dots-strip_dots (a ∷ b ∷ s) = elim (Bool-cases (is_dot a)) [
  | inr f ↦
      rw (strip_dots-cons a (b ∷ s) f, has_dots-cons a (strip_dots (b ∷ s)) f)
        (has_dots-strip_dots (b ∷ s))
  | inl t ↦ elim (Bool-cases (is_dot b)) [
    | inl u ↦ rw (strip_dots_pair a b s t u) (has_dots-strip_dots s)
    | inr f ↦
        rw (strip_dots_single a b s f) (has_dots_dot a b (strip_dots s) f (has_dots-strip_dots s))
  ]
]

is_dot-replace_separator : (c : ℕ) → is_dot (replace_separator c) ≡ is_dot c
unfolding is_dot replace_separator is_separator
is_dot-replace_separator c = ground arith

has_dots-map : (s : Name) → has_dots (map replace_separator s) ≡ has_dots s
unfolding has_dots
has_dots-map [] = refl
has_dots-map (a ∷ []) = refl
has_dots-map (a ∷ b ∷ s) =
    rw (is_dot-replace_separator a, is_dot-replace_separator b, has_dots-map (b ∷ s)) refl

has_dots-take : (n : ℕ) (s : Name) → has_dots s ≡ false → has_dots (take n s) ≡ false
unfolding has_dots
has_dots-take zero s h = refl
has_dots-take (suc n) [] h = refl
has_dots-take (suc zero) (a ∷ []) h = refl
has_dots-take (suc (suc n)) (a ∷ []) h = refl
has_dots-take (suc zero) (a ∷ b ∷ s) h = refl
has_dots-take (suc (suc n)) (a ∷ b ∷ s) h = ground (arith, has_dots-take (suc n) (b ∷ s))

is_separator-replace_separator : (c : ℕ) → is_separator (replace_separator c) ≡ false
unfolding replace_separator is_separator
is_separator-replace_separator c = ground arith

abbrev pub IsPlain : ℕ → Type 0
IsPlain c = is_separator c ≡ false

map-All : (s : Name) → All IsPlain (map replace_separator s)
map-All [] = tt
map-All (c ∷ s) = (is_separator-replace_separator c, map-All s)

take-All : (n : ℕ) (s : Name) → All IsPlain s → All IsPlain (take n s)
take-All zero s h = tt
take-All (suc n) [] h = tt
take-All (suc n) (c ∷ s) h = (h.0, take-All n s h.1)

-- A name that a file can safely have: not empty, not too long, no separator and no two dots in a row.
abbrev pub IsSafe : Name → Type 0
IsSafe name = (name ≢ []) × (length name ≤ max_name) × All IsPlain name × (has_dots name ≡ false)

or_default-IsSafe :
    (name : Name)
    → length name ≤ max_name
    → All IsPlain name
    → has_dots name ≡ false
    → IsSafe (or_default name)
unfolding or_default is_separator has_dots is_dot
or_default-IsSafe [] l p d = (cc, omega arith, (refl, (refl, (refl, (refl, tt)))), refl)
or_default-IsSafe (c ∷ s) l p d = (cc, l, p, d)

-- Whatever a sender calls a file, the name that is kept is not empty, has at most 255 units, and has
-- neither a separator of paths nor two dots in a row.
pub sanitize_file_name-IsSafe : (name : Option Name) → IsSafe (sanitize_file_name name)
unfolding sanitize_file_name or_default has_dots is_dot is_separator
sanitize_file_name-IsSafe none =
    or_default-IsSafe default_name (omega arith) (refl, (refl, (refl, (refl, tt)))) refl
sanitize_file_name-IsSafe (some name) =
    let s = map replace_separator (strip_dots name) in
    or_default-IsSafe (take max_name s) (omega (arith, length-take max_name s))
      (take-All max_name s (map-All (strip_dots name)))
      (has_dots-take max_name s (has_dots-map (strip_dots name) ∙ has_dots-strip_dots name))
