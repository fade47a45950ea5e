-- ===== src/Webrtc/Mesh/Routing.antt =====
-- Which connections the operations of a mesh touch (apps/trapchat/src/lib/webrtc.js, `PeerMesh`).
use trapchat.Prelude.{
  ◌≡◌, refl, ◌∙◌, sym, ap, Bool, true, false, none, some, String, List, [], ◌∷◌, arith,
  if◌then◌else◌, Option-cases, Bool-cases, inl, inr, eq_iff, eq_refl, str_eq,
}
use trapchat.Prelude.JsMap.{get, has, get-put, has-put}
use trapchat.Webrtc.Peer.{Peer, create_offer}
use trapchat.Webrtc.Peer as Peers
use trapchat.Webrtc.Mesh.{Mesh, Signal, add_peer, receive, handle_signal}

has_of_get :
    {V : Type 0} (k : String) (v : V) (m : List (String × V)) → get k m ≡ some v → has k m ≡ true
unfolding get has
has_of_get k v [] e = cc
has_of_get k v ((j, w) ∷ m) e = ground (arith, has_of_get k v m)

module _ {C : Type 0} where
  -- A signal reaches the connection of the peer that it is from, if there is one, and no other.
  pub handle_signal_routes :
      (m : Mesh C) (from j : String) (s : Signal C)
      → get j (handle_signal m from s) ≡ (
          if str_eq from j
          then (elim (get j m) [ none ↦ none | some p ↦ some (receive p s) ])
          else get j m)
  unfolding handle_signal
  handle_signal_routes m from j s = elim (Bool-cases (str_eq from j)) [
    | inl t ↦
        let same : get j m ≡ get from m = ap (λ k. get k m) (sym ((eq_iff from j).0 t)) in
        elim (Option-cases (get from m)) [
          | inl n ↦ rw (n, t, same, n, handle_signal) refl
          | inr (p, e) ↦
              rw (e, t, same, e, handle_signal) (get-put from j (receive p s) m ∙ rw t refl)
        ]
    | inr t ↦ elim (Option-cases (get from m)) [
      | inl n ↦ rw (n, t, handle_signal) refl
      | inr (p, e) ↦ rw (e, t, handle_signal) (get-put from j (receive p s) m ∙ rw t refl)
    ]
  ]

  -- Adding a peer leaves every connection that is there as it is, the peer's own too, and there is one
  -- for the peer afterwards.
  pub add_peer_keeps :
      (m : Mesh C) (id j : String) (is_initiator : Bool) (p : Peer C)
      → get j m ≡ some p
      → (get j (add_peer m id is_initiator) ≡ some p) × (has id (add_peer m id is_initiator) ≡ true)
  unfolding add_peer
  add_peer_keeps m id j is_initiator p e =
      let v : Peer C = if is_initiator then create_offer Peers.new else Peers.new in
      let there : has j m ≡ true = has_of_get j p m e in
      elim (Bool-cases (has id m)) [
        | inl h ↦ rw (h, add_peer) (e, h)
        | inr h ↦
            let other : str_eq id j ≡ false = ground (arith, h, there, eq_iff id j) in
            rw (h, add_peer)
              (get-put id j v m ∙ rw other e, has-put id id v m ∙ rw (eq_refl id) refl)
      ]
