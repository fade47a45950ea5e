-- ===== src/Media/FileName.antt =====
-- apps/trapchat/src/lib/media.js: `sanitizeFileName`, on the list of a name's UTF-16 units.
pub mod Safe
use trapchat.Prelude.{
  ℕ, Bool, true, false, ◌&&◌, ◌||◌, Option, none, some, List, [], ◌∷◌, map, ◌==◌, if◌then◌else◌,
  take,
}

abbrev pub Name : Type 0
Name = List ℕ

pub is_dot : ℕ → Bool
is_dot c = c == b'.'

-- name.replace(/\.\./g, '')
pub strip_dots : Name → Name
strip_dots [] = []
strip_dots (a ∷ []) = a ∷ []
strip_dots (a ∷ b ∷ s) = elim (is_dot a && is_dot b) [
  | true ↦ strip_dots s
  | false ↦ a ∷ strip_dots (b ∷ s)
]

-- /[/\\:\0]/
pub is_separator : ℕ → Bool
is_separator c = c == b'/' || c == b'\\' || c == b':' || c == 0

-- One unit of name.replace(/[/\\:\0]/g, '_')
pub replace_separator : ℕ → ℕ
replace_separator c = if is_separator c then b'_' else c

abbrev pub max_name : ℕ
max_name = 255

-- 'file'
abbrev pub default_name : Name
default_name = b'f' ∷ b'i' ∷ b'l' ∷ b'e' ∷ []

-- name || 'file'
pub or_default : Name → Name
or_default [] = default_name
or_default (c ∷ s) = c ∷ s

-- `none` is what is no text.
pub sanitize_file_name : Option Name → Name
sanitize_file_name none = default_name
sanitize_file_name (some name) =
    or_default (take max_name (map replace_separator (strip_dots name)))
