-- ===== src/Media/Mime.antt =====
-- apps/trapchat/src/lib/media.js: `detectMimeType` and `validateMimeType`, which look at the first
-- bytes of a file.
pub mod Genuine
use Prim.Native.Char.{code}
use Prim.Native.String
use trapchat.Prelude.{
  ℕ, Bool, true, false, ◌&&◌, ◌||◌, Option, none, some, String, List, [], ◌∷◌, ltb, ◌==◌,
  if◌then◌else◌, length, drop, str_eq,
}

-- text.startsWith(prefix)
pub starts_with : String → String → Bool
starts_with String.[] s = true
starts_with (String.◌∷◌ p ps) String.[] = false
starts_with (String.◌∷◌ p ps) (String.◌∷◌ c s) = code p == code c && starts_with ps s

-- sig.every((b, i) => bytes[i] === b)
unfoldable pub has_signature : List ℕ → List ℕ → Bool
has_signature [] bytes = true
has_signature (b ∷ sig) [] = false
has_signature (b ∷ sig) (c ∷ bytes) = b == c && has_signature sig bytes

-- The types with a signature at the start; 'video/mp4' has none.
abbrev pub magic_bytes : List (String × List ℕ)
magic_bytes =
    ("image/png", 137 ∷ 80 ∷ 78 ∷ 71 ∷ [])
    ∷ ("image/jpeg", 255 ∷ 216 ∷ 255 ∷ [])
    ∷ ("image/gif", 71 ∷ 73 ∷ 70 ∷ [])
    ∷ ("image/webp", 82 ∷ 73 ∷ 70 ∷ 70 ∷ [])
    ∷ ("application/pdf", 37 ∷ 80 ∷ 68 ∷ 70 ∷ [])
    ∷ []

-- The loop over MAGIC_BYTES: the first type whose signature the bytes have.
unfoldable pub find_signature : List (String × List ℕ) → List ℕ → Option String
find_signature [] bytes = none
find_signature ((mime, sig) ∷ types) bytes =
    if has_signature sig bytes then some mime else find_signature types bytes

-- 'ftyp'
abbrev pub ftyp : List ℕ
ftyp = 102 ∷ 116 ∷ 121 ∷ 112 ∷ []

-- 'ftyp' at offset 4.
pub is_mp4 : List ℕ → Bool
is_mp4 bytes = has_signature ftyp (drop 4 bytes)

abbrev pub octet_stream : String
octet_stream = "application/octet-stream"

-- `file.type` is empty where the browser knows none.
pub detect_mime_type : String → List ℕ → String
detect_mime_type type bytes =
    if str_eq type ""
    then elim (find_signature magic_bytes bytes) [
      | some mime ↦ mime
      | none ↦ if is_mp4 bytes then "video/mp4" else octet_stream
    ]
    else type

abbrev pub safe_no_magic : List String
safe_no_magic =
    "text/" ∷ "application/json" ∷ "application/xml" ∷ "image/svg+xml" ∷ "application/javascript"
    ∷ "application/x-yaml" ∷ "application/toml" ∷ []

-- prefixes.some(prefix => mime.startsWith(prefix))
pub starts_with_some : List String → String → Bool
starts_with_some [] mime = false
starts_with_some (p ∷ ps) mime = starts_with p mime || starts_with_some ps mime

-- `none` is the claim of a sender that named no type.
unfoldable pub validate_mime_type : Option String → List ℕ → String
validate_mime_type none bytes = octet_stream
validate_mime_type (some claimed) bytes =
    if str_eq claimed "" || ltb (length bytes) 8
    then octet_stream
    else elim (find_signature magic_bytes bytes) [
      | some mime ↦ if str_eq claimed mime then claimed else mime
      | none ↦
          if is_mp4 bytes
          then "video/mp4"
          else if starts_with_some safe_no_magic claimed
          then claimed
          else octet_stream
    ]
