-- ===== src/Worker/Auth.antt =====
-- services/worker/src/index.js, `checkAuth`: the bearer token of a request. Texts are lists of
-- UTF-16 units here. The SHA-256 of `node:crypto` is the parameter `digest`.
use trapchat.Prelude.{
  ℕ, ◌≡◌, refl, ap, sym, ◌∙◌, ◌↔◌, ◌⊎◌, inl, inr, ◌≢◌, Bool, true, false, ◌&&◌, Option, none, some,
  List, [], ◌∷◌, ◌++◌, arith, drop, ◌==◌, if◌then◌else◌, Bool-cases,
}

abbrev pub Text : Type 0
Text = List ℕ

list_eq : Text → Text → Bool
list_eq [] [] = true
list_eq [] (y ∷ ys) = false
list_eq (x ∷ xs) [] = false
list_eq (x ∷ xs) (y ∷ ys) = x == y && list_eq xs ys

list_eq_iff : (xs ys : Text) → (list_eq xs ys ≡ true) ↔ (xs ≡ ys)
unfolding list_eq
list_eq_iff [] [] = ground arith
list_eq_iff [] (y ∷ ys) = ground arith
list_eq_iff (x ∷ xs) [] = ground arith
list_eq_iff (x ∷ xs) (y ∷ ys) = ground (arith, list_eq_iff xs ys)

starts_with : Text → Text → Bool
starts_with [] s = true
starts_with (p ∷ ps) [] = false
starts_with (p ∷ ps) (c ∷ s) = p == c && starts_with ps s

-- "Bearer "
abbrev pub bearer : Text
bearer = b'B' ∷ b'e' ∷ b'a' ∷ b'r' ∷ b'e' ∷ b'r' ∷ b' ' ∷ []

header_text : Option Text → Text
header_text none = []
header_text (some h) = h

is_empty : Text → Bool
is_empty [] = true
is_empty (x ∷ xs) = false

-- header.startsWith('Bearer ') ? header.slice(7) : ''
token_of : Text → Text
unfolding starts_with
token_of header = if starts_with bearer header then drop 7 header else []

-- `false` is the answer 401.
unfoldable pub check_auth : (Text → Text) → Text → Option Text → Bool
unfolding header_text is_empty token_of list_eq
check_auth digest auth_token authorization =
    let token = token_of (header_text authorization) in
    if is_empty auth_token
    then true
    else if is_empty token
    then false
    else list_eq (digest token) (digest auth_token)

starts_with_iff : (p s : Text) → starts_with p s ≡ true → (r : Text) × (s ≡ p ++ r)
unfolding starts_with
starts_with_iff [] s h = (s, refl)
starts_with_iff (p ∷ ps) [] h = cc
starts_with_iff (p ∷ ps) (c ∷ s) h =
    let (r, e) = starts_with_iff ps s (ground arith) in (r, ground arith)

-- The token that is taken from a header, unless it is empty, is what stands behind "Bearer ".
token_of_iff : (header t : Text) → t ≢ [] → (token_of header ≡ t) ↔ (header ≡ bearer ++ t)
unfolding token_of
token_of_iff header t ne = (to, from)
  where
    to : token_of header ≡ t → header ≡ bearer ++ t
    to e = elim (Bool-cases (starts_with bearer header)) [
      | inl h ↦
          let (r, f) = starts_with_iff bearer header h in
          let stripped : token_of header ≡ r = rw (h, token_of) (ap (drop 7) f) in
          f ∙ ap (λ u. bearer ++ u) (sym stripped ∙ e)
      | inr h ↦
          let stripped : token_of header ≡ [] = rw (h, token_of) in absurd (ne (sym e ∙ stripped))
    ]

    from : header ≡ bearer ++ t → token_of header ≡ t
    from e = rw e refl

-- What a digest that never collides gives: the request is let through exactly if no token is
-- configured, or if its header is the configured token behind "Bearer ".
pub check_auth_iff :
    (digest : Text → Text) (auth_token : Text) (authorization : Option Text)
    → ((s t : Text) → digest s ≡ digest t → s ≡ t)
    → (check_auth digest auth_token authorization ≡ true)
      ↔ ((auth_token ≡ []) ⊎ (authorization ≡ some (bearer ++ auth_token)))
unfolding check_auth
check_auth_iff digest [] authorization inj = (λ _. inl refl, λ _. refl)
check_auth_iff digest (c ∷ cs) authorization inj = (to authorization, from)
  where
    auth : Text
    auth = c ∷ cs

    by_token :
        (t : Text)
        → (if is_empty t then false else list_eq (digest t) (digest auth)) ≡ true
        → t ≡ auth
    by_token [] h = cc
    by_token (x ∷ xs) h = inj (x ∷ xs) auth ((list_eq_iff (digest (x ∷ xs)) (digest auth)).0 h)

    to :
        (a : Option Text)
        → check_auth digest auth a ≡ true
        → (auth ≡ []) ⊎ (a ≡ some (bearer ++ auth))
    to none h = cc
    to (some header) h =
        inr (ap some ((token_of_iff header auth (λ e. cc)).0 (by_token (token_of header) h)))

    from :
        (auth ≡ []) ⊎ (authorization ≡ some (bearer ++ auth))
        → check_auth digest auth authorization ≡ true
    from (inl e) = cc
    from (inr e) = rw e ((list_eq_iff (digest auth) (digest auth)).1 refl)
