-- ===== src/Examples/Peers.antt =====
-- The theorems on the hooks for connections, keys and calls (apps/trapchat/src/hooks) at concrete values.
use trapchat.Prelude.{
  ℕ, ◌≡◌, ◌<◌, ◌⊎◌, refl, inl, inr, Bool, true, false, Option, none, some, String, [], ◌∷◌, arith,
  if◌then◌else◌, ◌==◌, Bool-cases,
}
use trapchat.Prelude.JsMap.{get}
use Prim.Native.String.{compare}
use Prim.Native.Nat.Ordering.{lt}
use trapchat.Crypto.Rotator.{start, accept_key, grace_due, decrypt, new as no_rotator}
use trapchat.Crypto.Rotator.Grace.{IsCipher}
use trapchat.Hooks.KeyRotation.{Rotating, on_rotate, handle_key_rotation_message}
use trapchat.Socket.Client.{Stamp, opened as socket_open, is_open, message, new as offline}
use trapchat.Hooks.KeyRotation.Follows.{peer_follows}
use trapchat.Hooks.WebrtcMesh.{
  Meshes, find_other, offers_to, is_offer, handle_presence_mesh, signal, offer_due,
}
use trapchat.Webrtc.Peer.{ice}
use trapchat.Hooks.WebrtcMesh.Election.{one_offers}
use trapchat.Hooks.WebrtcMesh.Late.{late_signal_blocks}
use trapchat.Hooks.CallManager.{Calls, audio}
use trapchat.Hooks.CallManager.Valid as CallManager
use trapchat.Hooks.CallManager.Released.{call_step, mutes, call_step-IsValid}

-- An order of texts, and two peers that hear of each other.
abbrev smaller : String → String → Bool
smaller a b = elim (compare a b) [ lt ↦ true | _ ↦ false ]

abbrev no_meshes : Meshes ℕ
no_meshes = record { meshes = []; prev_counts = []; p2p = [] }

one_offers_example :
    (((handle_presence_mesh smaller no_meshes "lobby" 2 ("b" ∷ "a" ∷ []) "a").1 ≡ some "b")
      × ((handle_presence_mesh smaller no_meshes "lobby" 2 ("b" ∷ "a" ∷ []) "b").1 ≡ none))
    ⊎ (((handle_presence_mesh smaller no_meshes "lobby" 2 ("b" ∷ "a" ∷ []) "a").1 ≡ none)
        × ((handle_presence_mesh smaller no_meshes "lobby" 2 ("b" ∷ "a" ∷ []) "b").1 ≡ some "a"))
unfolding get
one_offers_example =
    one_offers smaller "lobby" "a" "b" ("b" ∷ "a" ∷ []) no_meshes no_meshes (inr refl) refl refl
      refl refl refl refl

late_signal_blocks_example :
    let s = (handle_presence_mesh smaller no_meshes "lobby" 3 ("a" ∷ "b" ∷ "c" ∷ []) "a").0 in
    let t = signal s "lobby" "b" (record { signal_type = ice; candidate = some 4 }) in
    let r = handle_presence_mesh smaller t "lobby" 2 ("a" ∷ "b" ∷ []) "a" in
    (r.1 ≡ offers_to smaller "a" (some "b"))
    × (offer_due r.0 "lobby" "b" ≡ r.0)
    × (get "lobby" (offer_due r.0 "lobby" "b").meshes ≡ some [])
unfolding find_other is_offer
late_signal_blocks_example =
    late_signal_blocks smaller no_meshes "lobby" "a" "b" "b" ("a" ∷ "b" ∷ "c" ∷ []) ("a" ∷ "b" ∷ [])
      3 (record { signal_type = ice; candidate = some 4 }) tt refl refl

-- A key seals a number beside itself; a key is exported as itself.
abbrev seal : ℕ → ℕ → ℕ × ℕ
seal k t = (k, t)

abbrev open_ : ℕ → ℕ × ℕ → Option ℕ
open_ l c = if l == c.0 then some c.1 else none

cipher : IsCipher seal open_
cipher = (
  λ k t. ground arith,
  λ k l t. elim (Bool-cases (l == k)) [ inl e ↦ inr (ground arith) | inr e ↦ inl (ground arith) ],
)

abbrev stamp : Stamp
stamp = record { id = "i"; msg_id = "m"; now = 9 }

abbrev rotating : Rotating ℕ (ℕ × ℕ)
rotating = record {
  rotator = some (start no_rotator 1);
  active_key = some 1;
  client = record offline { ws = some socket_open };
  notices = [];
}

peer_follows_example :
    let sent : ℕ × ℕ = seal 1 2 in
    let s =
      on_rotate seal
        (λ k. k)
        rotating
        "lobby"
        record { new_key = some 2; exported_key = 2; old_key = some 1 }
        stamp in
    let t = handle_key_rotation_message open_ (λ k. some k) rotating sent 100 in
    (s.client.sent ≡ message "key_rotation" "lobby" sent none stamp ∷ [])
    × (s.client.pending_queue ≡ [])
    × (s.active_key ≡ some 2)
    × (t.active_key ≡ some 2)
    × (t.rotator ≡ some (accept_key (start no_rotator 1) 2 100))
    × (200 < 30100
        → (m : ℕ)
        → (decrypt open_ (grace_due (accept_key (start no_rotator 1) 2 100) 200) (seal 1 m)
            ≡ some m)
          × (decrypt open_ (grace_due (accept_key (start no_rotator 1) 2 100) 200) (seal 2 m)
              ≡ some m))
unfolding start is_open
peer_follows_example =
    peer_follows seal open_ cipher (λ k. k) (λ k. some k) (λ k. refl) rotating rotating "lobby" 1 2
      (start no_rotator 1) 100 200 stamp refl refl

-- A call that is active.
abbrev in_call : Calls
in_call = record {
  call_active = true;
  call_type = some audio;
  local_stream = some (record { id = 7; audio_enabled = some true; video_enabled = none });
  remote_streams = ("b", 8) ∷ [];
  call_muted = false;
  call_video_off = false;
  acquired = 7 ∷ [];
  released = [];
  remote_stopped = [];
  sent = [];
  alerts = [];
}

in_call-IsValid : CallManager.IsValid in_call
in_call-IsValid = record {
  with_stream = refl;
  kept = refl;
  shown = (λ e q. ground (arith, q), λ e q. ground (arith, q));
}

call_step-IsValid_example : CallManager.IsValid (call_step in_call mutes)
call_step-IsValid_example = call_step-IsValid in_call mutes in_call-IsValid
