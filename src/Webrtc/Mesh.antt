-- ===== src/Webrtc/Mesh.antt =====
-- apps/trapchat/src/lib/webrtc.js: class `PeerMesh`, a map of connections.
pub mod Routing
use trapchat.Prelude.{
  ℕ, Bool, true, false, Option, none, some, String, List, [], ◌∷◌, if◌then◌else◌, map,
}
use trapchat.Prelude.JsMap.{get, has, put, delete}
use trapchat.Webrtc.Peer.{
  Peer, SignalType, offer, answer, ice, create_offer, handle_offer, handle_ice_candidate, close,
}
use trapchat.Webrtc.Peer as Peers

abbrev pub Mesh : Type 0 → Type 0
Mesh C = List (String × Peer C)

-- A signal from a peer. Only that of a candidate has something that is looked at here.
pub record Signal (C : Type 0) : Type 0 where
  pub signal_type : SignalType
  pub candidate : Option C

module _ {C : Type 0} where
  pub add_peer : Mesh C → String → Bool → Mesh C
  add_peer m id is_initiator =
      if has id m then m else put id (if is_initiator then create_offer Peers.new else Peers.new) m

  -- The mesh, and the connection that was closed, which tells its listeners.
  remove_peer : Mesh C → String → Mesh C × Option (Peer C)
  remove_peer m id = elim (get id m) [ none ↦ (m, none) | some p ↦ (delete id m, some (close p)) ]

  -- What a signal does at once to the connection that it is for. An answer waits first.
  pub receive : Peer C → Signal C → Peer C
  receive p s = elim s.signal_type [
    | offer ↦ handle_offer p
    | answer ↦ p
    | ice ↦ handle_ice_candidate p s.candidate
  ]

  unfoldable pub handle_signal : Mesh C → String → Signal C → Mesh C
  handle_signal m from s = elim (get from m) [ none ↦ m | some p ↦ put from (receive p s) m ]

  unfoldable pub connected_peers : Mesh C → List String
  connected_peers [] = []
  connected_peers ((id, p) ∷ m) = if p.connected then id ∷ connected_peers m else connected_peers m

  -- The empty mesh, and the connections that were closed.
  close_all : Mesh C → Mesh C × List (Peer C)
  close_all m = ([], map (λ r. close r.1) m)
