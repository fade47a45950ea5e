-- ===== src/Webrtc/Tracks/Broadcast.antt =====
-- A stream after the streams before it were removed (apps/trapchat/src/lib/webrtc.js).
use trapchat.Prelude.{
  ℕ, ◌≡◌, refl, ◌∙◌, sym, ap, subst, true, false, Option, none, some, List, [], ◌∷◌, ◌++◌, map,
  if◌then◌else◌, arith, append-nil, append_assoc, Bool-cases, inl, inr,
}
use trapchat.Webrtc.Tracks.{
  Senders, TrackMesh, sends_track, add_tracks, add_local_stream, remove_local_stream,
  broadcast_stream, remove_all_streams,
}

-- The tracks that are sent.
unfoldable pub sent_tracks : List (Option ℕ) → List ℕ
sent_tracks [] = []
sent_tracks (none ∷ s) = sent_tracks s
sent_tracks (some t ∷ s) = t ∷ sent_tracks s

-- No track of the list stands in it twice, or is sent already.
abbrev pub AreNew : List (Option ℕ) → List ℕ → Type 0
AreNew s [] = Unit
AreNew s (t ∷ ts) = (sends_track t s ≡ false) × AreNew (s ++ some t ∷ []) ts

add_tracks_lem :
    (s : List (Option ℕ)) (ts : List ℕ)
    → AreNew s ts
    → add_tracks s ts ≡ some (s ++ map (λ t. some t) ts)
unfolding add_tracks
add_tracks_lem s [] v = ap (λ l. some l) (sym (append-nil s))
add_tracks_lem s (t ∷ ts) (n, v) = rw n (
    add_tracks_lem (s ++ some t ∷ []) ts v
    ∙ ap (λ l. some l) (append_assoc s (some t ∷ []) (map (λ t. some t) ts)))

sent_tracks-append : (s r : List (Option ℕ)) → sent_tracks (s ++ r) ≡ sent_tracks s ++ sent_tracks r
unfolding sent_tracks
sent_tracks-append [] r = refl
sent_tracks-append (none ∷ s) r = sent_tracks-append s r
sent_tracks-append (some t ∷ s) r = ap (λ l. t ∷ l) (sent_tracks-append s r)

sent_tracks-map : (ts : List ℕ) → sent_tracks (map (λ t. some t) ts) ≡ ts
unfolding sent_tracks
sent_tracks-map [] = refl
sent_tracks-map (t ∷ ts) = ap (λ l. t ∷ l) (sent_tracks-map ts)

silent : (s : List (Option ℕ)) → sent_tracks (map (λ t. none) s) ≡ []
unfolding sent_tracks
silent [] = refl
silent (t ∷ s) = silent s

-- Two lists of senders that send the same have the same new tracks.
sends_track-append :
    (t : ℕ) (s r : List (Option ℕ))
    → sends_track t (s ++ r) ≡ (if sends_track t s then true else sends_track t r)
unfolding sends_track
sends_track-append t [] r = refl
sends_track-append t (none ∷ s) r = sends_track-append t s r
sends_track-append t (some u ∷ s) r = ground (arith, sends_track-append t s r)

silent_sends : (t : ℕ) (s : List (Option ℕ)) → sends_track t (map (λ t. none) s) ≡ false
unfolding sends_track
silent_sends t [] = refl
silent_sends t (u ∷ s) = silent_sends t s

AreNew-silent :
    (s r : List (Option ℕ)) (ts : List ℕ) → AreNew r ts → AreNew (map (λ t. none) s ++ r) ts
AreNew-silent s r [] v = tt
AreNew-silent s r (t ∷ ts) (n, v) = (
  sends_track-append t (map (λ t. none) s) r ∙ rw (silent_sends t s) n,
  subst (λ l. AreNew l ts) (sym (append_assoc (map (λ t. none) s) r (some t ∷ [])))
      (AreNew-silent s (r ++ some t ∷ []) ts v),
)

-- The same connections, each of which sends exactly these tracks, if the browser has it.
abbrev pub Send : TrackMesh → TrackMesh → List ℕ → Type 0
Send [] [] ts = Unit
Send [] (q ∷ n) ts = ⊥
Send (p ∷ m) [] ts = ⊥
Send ((i, p) ∷ m) ((j, q) ∷ n) ts =
    (i ≡ j) × (p.has_pc ≡ true → sent_tracks q.senders ≡ ts) × Send m n ts

added :
    (p : Senders) (ts : List ℕ)
    → AreNew [] ts
    → (q : Senders) × (add_local_stream (remove_local_stream p) ts ≡ some q)
      × (p.has_pc ≡ true → sent_tracks q.senders ≡ ts)
unfolding add_local_stream remove_local_stream
added p ts v = elim (Bool-cases p.has_pc) [
  | inl t ↦
      let nones : List (Option ℕ) = map (λ t. none) p.senders in
      let v' : AreNew nones ts =
        subst (λ l. AreNew l ts) (append-nil nones) (AreNew-silent p.senders [] ts v) in
      let e = add_tracks_lem nones ts v' in
      (
        record p { senders = nones ++ map (λ t. some t) ts },
        ground (arith, t, e),
        λ h.
            sent_tracks-append nones (map (λ t. some t) ts)
            ∙ rw (silent p.senders) (sent_tracks-map ts),
      )
  | inr f ↦ (p, ground (arith, f), λ h. ground (arith, f, h))
]

-- Once all streams are removed, a stream whose tracks are different can be sent to the whole mesh,
-- whatever was sent before: `broadcastStream` does not throw, and each connection then sends its tracks
-- and no other.
pub broadcast_after_removal :
    (m : TrackMesh) (ts : List ℕ)
    → AreNew [] ts
    → (n : TrackMesh) × (broadcast_stream (remove_all_streams m) ts ≡ some n) × Send m n ts
unfolding broadcast_stream remove_all_streams
broadcast_after_removal [] ts v = ([], refl, tt)
broadcast_after_removal ((id, p) ∷ m) ts v =
    let (q, e, s) = added p ts v in
    let (n, d, r) = broadcast_after_removal m ts v in
    ((id, q) ∷ n, ground (arith, e, d), (refl, s, r))
