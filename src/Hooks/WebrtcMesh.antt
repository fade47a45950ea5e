-- ===== src/Hooks/WebrtcMesh.antt =====
-- apps/trapchat/src/hooks/useWebRTCMesh.js: which rooms have a mesh, and who offers a connection. The
-- comparison of two ids is a parameter; `p2p` has the updates of a room's
-- `isP2P` by the hook itself, the latest last; those by the connections are left out.
pub mod Election
pub mod Late
use trapchat.Prelude.{
  ℕ, Bool, true, false, ◌&&◌, not, Option, none, some, String, List, [], ◌∷◌, ◌++◌, ◌==◌,
  if◌then◌else◌, str_eq,
}
use trapchat.Prelude.JsMap.{get, has, put, delete}
use trapchat.Webrtc.Peer.{offer, SignalType}
use trapchat.Webrtc.Mesh.{Mesh, Signal, add_peer, handle_signal}

pub record Meshes (C : Type 0) : Type 0 where
  pub meshes : List (String × Mesh C)
  pub prev_counts : List (String × ℕ)
  pub p2p : List (String × Bool)

-- The ids of a presence, `Object.keys(peers)`, and the first that is not one's own.
unfoldable pub find_other : String → List String → Option String
find_other self [] = none
find_other self (pid ∷ pids) = if str_eq pid self then find_other self pids else some pid

-- `selfId && remotePid && selfId < remotePid`
pub offers_to : (String → String → Bool) → String → Option String → Option String
offers_to less self none = none
offers_to less self (some remote) =
    if not (str_eq self "") && not (str_eq remote "") && less self remote then some remote else none

abbrev pub count_of : String → List (String × ℕ) → ℕ
count_of room counts = elim (get room counts) [ none ↦ 0 | some n ↦ n ]

unfoldable pub is_offer : SignalType → Bool
is_offer offer = true
is_offer _ = false

module _ {C : Type 0} where
  close_mesh : Meshes C → String → Meshes C
  close_mesh s room = record s { meshes = delete room s.meshes; p2p = s.p2p ++ (room, false) ∷ [] }

  -- With the peer that a timer is set for, which offers a connection half a second later.
  pub handle_presence_mesh :
      (String → String → Bool)
      → Meshes C
      → String
      → ℕ
      → List String
      → String
      → Meshes C × Option String
  handle_presence_mesh less s room count peers self =
      let s' : Meshes C = record s { prev_counts = put room count s.prev_counts } in
      if count == 2 && not (count_of room s.prev_counts == 2)
      then (s', offers_to less self (find_other self peers))
      else if not (count == 2) && has room s.meshes
      then (close_mesh s' room, none)
      else (s', none)

  create_mesh : Meshes C → String → Meshes C
  create_mesh s room = record s { meshes = put room [] s.meshes }

  -- The timer's callback, to the await of `addPeer`; and where that throws.
  pub offer_due : Meshes C → String → String → Meshes C
  offer_due s room remote =
      if has room s.meshes
      then s
      else record s { meshes = put room (add_peer [] remote true) s.meshes }

  offer_failed : Meshes C → String → Meshes C
  offer_failed s room = record s { meshes = delete room s.meshes }

  -- `handleSignal`; the connection for an offer is added first.
  pub signal : Meshes C → String → String → Signal C → Meshes C
  signal s room from sig =
      let mesh : Mesh C = elim (get room s.meshes) [ none ↦ [] | some m ↦ m ] in
      let mesh' : Mesh C = if is_offer sig.signal_type then add_peer mesh from false else mesh in
      record s { meshes = put room (handle_signal mesh' from sig) s.meshes }

  cleanup_room : Meshes C → String → Meshes C
  cleanup_room s room = record s {
    meshes = delete room s.meshes;
    prev_counts = delete room s.prev_counts;
  }

  cleanup_all : Meshes C → Meshes C
  cleanup_all s = record s { meshes = []; prev_counts = [] }
