-- ===== src/Media/Send/Parts.antt =====
-- The parts that apps/trapchat/src/lib/media.js, `sendMedia`, cuts a file into, and the messages that
-- go out.
use trapchat.Prelude.{
  ℕ, zero, suc, ◌+◌, ◌-◌, ◌*◌, ◌≤◌, ◌≡◌, refl, ap, ap₂, sym, ◌∙◌, min, true, false, none, some,
  String, List, [], ◌∷◌, ◌++◌, append_assoc, append-nil, length, take, drop, take-append-drop,
  drop-drop, drop_all, take_all, length-drop, arith, ltb, leb, leb→le, leb→lt, Bool-cases, inl, inr,
}
use trapchat.Socket.Client.{Client, Message, Stamp, send, transmit, update_rooms, message, is_open}
use trapchat.Media.Mime.{detect_mime_type}
use trapchat.Media.Transfer.{Bytes, Metadata}
use trapchat.Media.Transfer.Chunks.{joined}
use trapchat.Media.Assembler.{max_file_size, max_chunks}
use trapchat.Media.Send.{
  File, Payload, Sent, chunk_size, total_of, slice, chunk_data, chunk_metadata, payload, send_from,
  send_media,
}

-- The chunks from `seq` on.
abbrev pub parts : Bytes → ℕ → ℕ → List Bytes
parts bytes zero seq = []
parts bytes (suc left) seq = chunk_data bytes seq ∷ parts bytes left (suc seq)

length-parts : (bytes : Bytes) (left seq : ℕ) → length (parts bytes left seq) ≡ left
length-parts bytes zero seq = refl
length-parts bytes (suc left) seq = ap suc (length-parts bytes left (suc seq))

take-min : (n : ℕ) (xs : Bytes) → take (min n (length xs)) xs ≡ take n xs
take-min n xs = elim (Bool-cases (leb (length xs) n)) [
  | inl h ↦
      let e : min n (length xs) ≡ length xs = omega (arith, leb→le _ _ h) in
      rw e (take_all _ xs (omega arith) ∙ sym (take_all n xs (leb→le _ _ h)))
  | inr h ↦ let e : min n (length xs) ≡ n = omega (arith, leb→lt _ _ h) in rw e refl
]

take_slice :
    (bytes : Bytes) (start k : ℕ)
    → take (min (start + k) (length bytes) - start) (drop start bytes) ≡ take k (drop start bytes)
take_slice bytes start k =
    let e : min (start + k) (length bytes) - start ≡ min k (length (drop start bytes)) =
      omega (arith, length-drop start bytes) in
    rw e (take-min k (drop start bytes))

-- A chunk, and what comes behind it.
chunk_data_lem :
    (bytes : Bytes) (seq : ℕ)
    → chunk_data bytes seq ++ drop (suc seq * chunk_size) bytes ≡ drop (seq * chunk_size) bytes
unfolding chunk_data slice
chunk_data_lem bytes seq =
    let start = seq * chunk_size in
    let e : suc seq * chunk_size ≡ seq * chunk_size + chunk_size = omega arith in
    ap₂ (λ a b. a ++ b) (take_slice bytes (seq * chunk_size) chunk_size)
      (ap (λ n. drop n bytes) e ∙ sym (drop-drop chunk_size (seq * chunk_size) bytes))
    ∙ take-append-drop chunk_size (drop (seq * chunk_size) bytes)

joined-parts :
    (bytes : Bytes) (left seq : ℕ)
    → length bytes ≤ (seq + left) * chunk_size
    → joined (parts bytes left seq) ≡ drop (seq * chunk_size) bytes
joined-parts bytes zero seq h = sym (drop_all _ bytes (omega arith))
joined-parts bytes (suc left) seq h =
    ap (λ r. chunk_data bytes seq ++ r) (joined-parts bytes left (suc seq) (omega arith))
    ∙ chunk_data_lem bytes seq

total_of_bounds :
    (n : ℕ) → (n ≤ total_of n * chunk_size) × (n ≤ max_file_size → total_of n ≤ max_chunks)
unfolding total_of
total_of_bounds n = (omega arith, λ h. omega arith)

module _ {C : Type 0} (seal : ℕ → Bytes → Metadata → C) (f : File) (mime id room : String)
    (stamps : ℕ → Stamp) where
  -- The messages for parts of a file, from the number `seq` on, as they are sealed.
  abbrev pub sealed : ℕ → List Bytes → ℕ → List (Message (Payload C))
  sealed total [] seq = []
  sealed total (p ∷ ps) seq =
      message "media" room
        (record {
          transfer_id = id;
          seq = seq;
          total = total;
          chunk = seal seq p (chunk_metadata f mime seq);
        })
        none (stamps seq)
      ∷ sealed total ps (suc seq)

  send_open :
      (c : Client (Payload C)) (p : Payload C) (s : Stamp)
      → is_open c.ws ≡ true
      → (send c "media" room p none s).0
        ≡ record c { sent = c.sent ++ message "media" room p none s ∷ [] }
  unfolding send update_rooms transmit
  send_open c p s o = rw o refl

  sent-send_from :
      (c : Client (Payload C)) (total left seq : ℕ)
      → is_open c.ws ≡ true
      → (send_from seal c room f mime id total stamps left seq).sent
        ≡ c.sent ++ sealed total (parts f.bytes left seq) seq
  unfolding send_from payload
  sent-send_from c total zero seq o = sym (append-nil c.sent)
  sent-send_from c total (suc left) seq o =
      let p = payload seal f mime id total seq in
      let m = message "media" room p none (stamps seq) in
      rw (send_open c p (stamps seq) o, send_from)
        (sent-send_from (record c { sent = c.sent ++ m ∷ [] }) total left (suc seq) o
          ∙ append_assoc c.sent (m ∷ []) (sealed total (parts f.bytes left (suc seq)) (suc seq)))

-- A file of at most 25 MB, over an open connection, is sent in at most 100 parts, which put together
-- are the file. They go out in order, each sealed with its number and their total.
pub send_media_lem :
    {C : Type 0} (seal : ℕ → Bytes → Metadata → C) (c : Client (Payload C)) (room : String)
    (f : File) (id : String) (stamps : ℕ → Stamp)
    → is_open c.ws ≡ true
    → length f.bytes ≤ max_file_size
    → (s : Sent seal) × (ps : List Bytes) × (send_media seal c room f id stamps ≡ some s)
      × (joined ps ≡ f.bytes)
      × (length ps ≤ max_chunks)
      × (s.client.sent
          ≡ c.sent
            ++ sealed seal f (detect_mime_type f.type_ f.bytes) id room stamps (length ps) ps 0)
unfolding send_media
send_media_lem seal c room f id stamps o fits =
    let n = total_of (length f.bytes) in
    let mime = detect_mime_type f.type_ f.bytes in
    let (enough, few) = total_of_bounds (length f.bytes) in
    let not_large : ltb max_file_size (length f.bytes) ≡ false = ground arith in
    let ps = parts f.bytes n 0 in
    rw not_large (
      record {
        client = send_from seal c room f mime id n stamps n 0;
        transfer_id = id;
        total = n;
        mime_type = mime;
      },
      ps,
      refl,
      joined-parts f.bytes n 0 (omega arith),
      rw (length-parts f.bytes n 0) (few fits),
      rw (length-parts f.bytes n 0) (sent-send_from seal f mime id room stamps c n n 0 o),
    )
