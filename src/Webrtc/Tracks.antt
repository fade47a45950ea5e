-- ===== src/Webrtc/Tracks.antt =====
-- apps/trapchat/src/lib/webrtc.js: the media tracks of the connections of a mesh. A sender of the browser's
-- connection has a track, a number, or none; `addTrack` throws for a track that is sent already.
pub mod Broadcast
use trapchat.Prelude.{
  ℕ, Bool, true, false, Option, none, some, String, List, [], ◌∷◌, ◌++◌, map, ◌==◌, if◌then◌else◌,
}

pub record Senders : Type 0 where
  pub has_pc : Bool
  pub senders : List (Option ℕ)

pub sends_track : ℕ → List (Option ℕ) → Bool
sends_track t [] = false
sends_track t (none ∷ s) = sends_track t s
sends_track t (some u ∷ s) = if u == t then true else sends_track t s

-- `for (const track of stream.getTracks()) this.#pc.addTrack(track, stream)`
pub add_tracks : List (Option ℕ) → List ℕ → Option (List (Option ℕ))
add_tracks s [] = some s
add_tracks s (t ∷ ts) =
    let rest = add_tracks (s ++ some t ∷ []) ts in if sends_track t s then none else rest

-- `none` is where it throws.
pub add_local_stream : Senders → List ℕ → Option Senders
add_local_stream p ts =
    if p.has_pc
    then elim (add_tracks p.senders ts) [ none ↦ none | some s ↦ some (record p { senders = s }) ]
    else some p

-- `removeTrack` leaves the sender, with no track.
pub remove_local_stream : Senders → Senders
remove_local_stream p = if p.has_pc then record p { senders = map (λ t. none) p.senders } else p

abbrev pub TrackMesh : Type 0
TrackMesh = List (String × Senders)

pub broadcast_stream : TrackMesh → List ℕ → Option TrackMesh
broadcast_stream [] ts = some []
broadcast_stream ((id, p) ∷ m) ts =
    let rest = broadcast_stream m ts in
    elim (add_local_stream p ts) [
      | none ↦ none
      | some q ↦ elim rest [ none ↦ none | some n ↦ some ((id, q) ∷ n) ]
    ]

pub remove_all_streams : TrackMesh → TrackMesh
remove_all_streams [] = []
remove_all_streams ((id, p) ∷ m) = (id, remove_local_stream p) ∷ remove_all_streams m
