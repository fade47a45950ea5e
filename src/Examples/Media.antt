-- ===== src/Examples/Media.antt =====
-- The theorems on apps/trapchat/src/lib/media.js at concrete files.
use trapchat.Prelude.{ℕ, ◌≡◌, ◌≤◌, refl, inr, none, some, List, [], ◌∷◌, ◌++◌, length, arith}
use trapchat.Socket.Client.{Stamp, Client}
use trapchat.Socket.Client as Socket
use trapchat.Prelude.JsMap.{get}
use trapchat.Media.FileName.{Name, sanitize_file_name}
use trapchat.Media.FileName.Safe.{IsSafe, sanitize_file_name-IsSafe}
use trapchat.Media.Mime.{detect_mime_type}
use trapchat.Media.Transfer.{Bytes, Metadata, empty_transfer, has_chunk}
use trapchat.Media.Transfer.Chunks.{joined}
use trapchat.Media.Assembler.{
  Assembler, Message, Request, new, threw, progress, max_chunks, handle_chunk, finish,
}
use trapchat.Media.Assembler.Bounds.{IsValid, admits, step, assembler_step-IsValid}
use trapchat.Media.Assembler.File.{Continues, handle_chunk-Continues}
use trapchat.Media.Assembler.Race.{double_chunk_throws}
use trapchat.Media.Send.{File, Payload, Sent, send_media}
use trapchat.Media.Send.Parts.{sealed, send_media_lem}

-- "../a" as a name.
abbrev bad_name : Name
bad_name = b'.' ∷ b'.' ∷ b'/' ∷ b'a' ∷ []

sanitize_file_name-IsSafe_example : IsSafe (sanitize_file_name (some bad_name))
sanitize_file_name-IsSafe_example = sanitize_file_name-IsSafe (some bad_name)

-- The first eight bytes of a PNG.
abbrev png : Bytes
png = 137 ∷ 80 ∷ 78 ∷ 71 ∷ 13 ∷ 10 ∷ 26 ∷ 10 ∷ []

abbrev nothing_said : Metadata
nothing_said = record { mime_type = none; file_name = none; file_size = none }

abbrev file_parts : List Bytes
file_parts = (1 ∷ 2 ∷ []) ∷ (3 ∷ []) ∷ []

-- A cipher that hides nothing.
abbrev Plain : Type 0
Plain = Bytes × Metadata

abbrev last_message : Message Plain
last_message = record {
  transfer_id = "t";
  seq = some 1;
  total = 2;
  chunk = some (3 ∷ [], nothing_said);
}

handle_chunk-Continues_example :
    Continues file_parts "t"
      (none ∷ none ∷ [])
      1
      (3 ∷ [])
      (handle_chunk (λ c. some c.1) (λ c. some c) new (some last_message) 0)
unfolding get
handle_chunk-Continues_example =
    handle_chunk-Continues (λ c. some c.1) (λ c. some c) file_parts "t" (none ∷ none ∷ []) new 1
      (3 ∷ [], nothing_said) (3 ∷ []) nothing_said 0 refl (omega arith) (omega arith) refl refl refl
      (inr (refl, omega arith, refl))

abbrev last_request : Request Plain
last_request = record { transfer_id = "t"; seq = 1; total = 2; chunk = (3 ∷ [], nothing_said) }

abbrev waiting : Assembler
waiting = record {
  heap = empty_transfer 2 ∷ [];
  transfers = ("t", 0) ∷ [];
  timers = ("t", 30000) ∷ [];
}

double_chunk_throws_example :
    let first = finish waiting 0 last_request (some (3 ∷ [], nothing_said)) in
    (first.1 ≡ progress "t" 1 2)
    × ((finish first.0 0 last_request (some (3 ∷ [], nothing_said))).1 ≡ threw)
unfolding has_chunk
double_chunk_throws_example =
    double_chunk_throws file_parts waiting 0 last_request (empty_transfer 2) (3 ∷ []) nothing_said
      refl (tt, refl, refl) refl refl refl (omega arith)

assembler_step-IsValid_example : IsValid (step new (admits last_request (some nothing_said) 0))
assembler_step-IsValid_example =
    assembler_step-IsValid new (admits last_request (some nothing_said) 0)
      (omega arith, tt, tt, λ id. refl)

abbrev connected : Client (Payload Plain)
connected = record Socket.new { ws = some Socket.opened }

abbrev photo : File
photo = record { name = b'a' ∷ []; type_ = "image/png"; bytes = png }

abbrev stamps : ℕ → Stamp
stamps n = record { id = "m"; msg_id = "m"; now = n }

abbrev seal : ℕ → Bytes → Metadata → Plain
seal n bytes meta = (bytes, meta)

send_media_lem_example :
    (s : Sent seal) × (ps : List Bytes) × (send_media seal connected "room" photo "t" stamps
      ≡ some s)
    × (joined ps ≡ png)
    × (length ps ≤ max_chunks)
    × (s.client.sent
        ≡ connected.sent
          ++ sealed seal photo
              (detect_mime_type "image/png" png)
              "t"
              "room"
              stamps
              (length ps)
              ps
              0)
unfolding Socket.is_open
send_media_lem_example = send_media_lem seal connected "room" photo "t" stamps refl (omega arith)
