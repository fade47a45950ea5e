-- ===== src/Media/Transfer.antt =====
-- apps/trapchat/src/lib/media.js: one incoming transfer of `MediaAssembler`, the array of its chunks
-- above all.
pub mod Chunks
use mathlib.Core.Option
use trapchat.Prelude.{
  ℕ, zero, suc, ◌+◌, Bool, true, false, ◌&&◌, ◌||◌, not, Option, none, some, String, List, [], ◌∷◌,
  ◌++◌, ltb, leb, ◌==◌, if◌then◌else◌, length, str_eq, get_elem?, set, replicate, is_some,
}
use trapchat.Media.FileName.{Name, sanitize_file_name}

abbrev pub Bytes : Type 0
Bytes = List ℕ

-- The metadata in a chunk's envelope; those of the first chunk say what the file is.
pub record Metadata : Type 0 where
  pub mime_type : Option String
  pub file_name : Option Name
  pub file_size : Option ℕ

-- One transfer. A chunk that has not come is `none`.
pub record Transfer : Type 0 where
  pub chunks : List (Option Bytes)
  pub received : ℕ
  pub total : ℕ
  pub mime_type : Option String
  pub file_name : Option Name
  pub file_size : Option ℕ

-- if (!mimeType) with a type that is missing or empty
pub is_named : Option String → Bool
is_named none = false
is_named (some s) = not (str_eq s "")

abbrev pub empty_transfer : ℕ → Transfer
empty_transfer total = record {
  chunks = replicate total none;
  received = 0;
  total = total;
  mime_type = none;
  file_name = none;
  file_size = none;
}

unfoldable pub describe : Transfer → Metadata → Transfer
describe t meta = record t {
  mime_type = meta.mime_type;
  file_name = some (sanitize_file_name meta.file_name);
  file_size = meta.file_size;
}

-- The chunk at a place has come.
unfoldable pub has_chunk : List (Option Bytes) → ℕ → Bool
has_chunk [] i = false
has_chunk (c ∷ cs) zero = is_some c
has_chunk (c ∷ cs) (suc i) = has_chunk cs i

-- chunks[seq] = data, where a place behind the end leaves holes.
pub set_chunk : List (Option Bytes) → ℕ → Bytes → List (Option Bytes)
set_chunk [] zero b = some b ∷ []
set_chunk [] (suc i) b = none ∷ set_chunk [] i b
set_chunk (c ∷ cs) zero b = some b ∷ cs
set_chunk (c ∷ cs) (suc i) b = c ∷ set_chunk cs i b

-- chunks.reduce((sum, c) => sum + c.length, 0), which passes over holes.
pub total_size : List (Option Bytes) → ℕ
total_size [] = 0
total_size (none ∷ cs) = total_size cs
total_size (some b ∷ cs) = length b + total_size cs

-- The loop that puts the chunks together; it throws at a hole.
pub assemble : List (Option Bytes) → Option Bytes
assemble [] = some []
assemble (none ∷ cs) = none
assemble (some b ∷ cs) = Option.map (λ rest. b ++ rest) (assemble cs)

-- A transfer with one more chunk.
unfoldable pub store_chunk : Transfer → ℕ → Bytes → Metadata → Transfer
store_chunk t seq b meta =
    let t' = if not (is_some t.mime_type) && is_named meta.mime_type then describe t meta else t in
    record t' { chunks = set_chunk t'.chunks seq b; received = t'.received + 1 }
