-- ===== src/Media/Mime/Genuine.antt =====
-- What the check of a type (apps/trapchat/src/lib/media.js, `validateMimeType`) is worth.
use trapchat.Prelude.{
  ℕ, ◌≡◌, All, refl, inl, inr, true, false, Option, none, some, String, List, [], ◌∷◌,
  if◌then◌else◌, str_eq, eq_iff, arith, Option-cases,
}
use trapchat.Prelude.JsMap.{get, has, All-get}
use trapchat.Media.Mime.{
  has_signature, magic_bytes, find_signature, octet_stream, safe_no_magic, starts_with_some,
  validate_mime_type, starts_with,
}

-- No type is listed twice.
abbrev IsNoDup : List (String × List ℕ) → Type 0
IsNoDup [] = Unit
IsNoDup ((mime, sig) ∷ types) = (has mime types ≡ false) × IsNoDup types

has-find_signature :
    (types : List (String × List ℕ)) (bytes : List ℕ) (mime : String)
    → find_signature types bytes ≡ some mime
    → has mime types ≡ true
unfolding find_signature has
has-find_signature [] bytes mime h = ground arith
has-find_signature ((m, sig) ∷ types) bytes mime h =
    ground (arith, eq_iff m mime, has-find_signature types bytes mime)

-- The bytes have the signature of the type that the loop finds.
find_signature_lem :
    (types : List (String × List ℕ)) (bytes : List ℕ) (mime : String) (sig : List ℕ)
    → IsNoDup types
    → get mime types ≡ some sig
    → find_signature types bytes ≡ some mime
    → has_signature sig bytes ≡ true
unfolding find_signature get
find_signature_lem [] bytes mime sig d g h = ground arith
find_signature_lem ((m, s) ∷ types) bytes mime sig (fresh, d) g h = ground (
  arith,
  eq_iff m mime,
  has-find_signature types bytes mime,
  find_signature_lem types bytes mime sig d,
)

-- A type with a signature is none that is let through without one.
abbrev IsBinary : String × List ℕ → Type 0
IsBinary (mime, sig) =
    (starts_with_some safe_no_magic mime ≡ false)
    × (str_eq octet_stream mime ≡ false)
    × (str_eq "video/mp4" mime ≡ false)

magic_bytes-IsBinary : All IsBinary magic_bytes
unfolding starts_with_some starts_with
magic_bytes-IsBinary = (
  (refl, refl, refl),
  ((refl, refl, refl), ((refl, refl, refl), ((refl, refl, refl), ((refl, refl, refl), tt)))),
)

magic_bytes-IsNoDup : IsNoDup magic_bytes
unfolding has
magic_bytes-IsNoDup = (refl, (refl, (refl, (refl, (refl, tt)))))

-- `claimedMime === mime ? claimedMime : mime`
if_same : (claimed mime : String) → (if str_eq claimed mime then claimed else mime) ≡ mime
if_same claimed mime = ground (arith, eq_iff claimed mime)

-- Whatever type a sender claims, the checked type is one of a signature only if the file starts with
-- that signature.
pub validate_mime_type_genuine :
    (claimed : Option String) (bytes : List ℕ) (mime : String) (sig : List ℕ)
    → get mime magic_bytes ≡ some sig
    → validate_mime_type claimed bytes ≡ mime
    → has_signature sig bytes ≡ true
unfolding validate_mime_type
validate_mime_type_genuine none bytes mime sig g =
    let (a, b, c) = All-get IsBinary magic_bytes mime sig magic_bytes-IsBinary g in
    λ h. ground (arith, eq_iff octet_stream mime)
validate_mime_type_genuine (some claimed) bytes mime sig g =
    let (a, b, c) = All-get IsBinary magic_bytes mime sig magic_bytes-IsBinary g in
    elim (Option-cases (find_signature magic_bytes bytes)) [
      | inl n ↦ rw n (λ h. ground (arith, eq_iff octet_stream mime, eq_iff "video/mp4" mime))
      | inr (m, e) ↦ rw e (λ h. ground (
        arith,
        eq_iff octet_stream mime,
        if_same claimed m,
        find_signature_lem magic_bytes bytes mime sig magic_bytes-IsNoDup g,
      ))
    ]
