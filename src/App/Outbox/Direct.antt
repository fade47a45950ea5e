-- ===== src/App/Outbox/Direct.antt =====
-- Where a message of one's own goes to a peer (apps/trapchat/src/App.jsx, `conn.send`).
use trapchat.Prelude.{
  ◌≡◌, ◌≢◌, ◌⊎◌, inl, inr, refl, ◌∙◌, ap, Bool, true, false, Option, none, some, String, List, [],
  ◌∷◌, ◌++◌, arith,
}
use trapchat.Prelude.JsMap.{get, put, put-same}
use trapchat.Webrtc.Mesh.{Mesh, connected_peers}
use trapchat.Webrtc.Peer.{Peer, opening, opened, closed}
use trapchat.Webrtc.Peer as Peer
use trapchat.App.Outbox.{send_p2p}

module _ {C : Type 0} where
  -- What becomes of the mesh. A peer took the text: it was handed to the open channel of the first
  -- connected one. None did: the mesh is as before, and that one, if there is one, has no open channel.
  unfoldable pub ToPeer : Option (Mesh C) → Option (Mesh C) → String → Bool → Type 0
  ToPeer before after msg true =
      (m : Mesh C) × (id : String) × (ids : List String) × (conn : Peer C) × (before ≡ some m)
      × (connected_peers m ≡ id ∷ ids)
      × (get id m ≡ some conn)
      × (conn.channel ≡ some opened)
      × (after ≡ some (put id (record conn { sent = conn.sent ++ msg ∷ [] }) m))
  ToPeer before after msg false =
      (after ≡ before)
      × ((m : Mesh C) (id : String) (ids : List String) (conn : Peer C)
          → before ≡ some m
          → connected_peers m ≡ id ∷ ids
          → get id m ≡ some conn
          → conn.channel ≢ some opened)

  -- The two ways that a `send` of a connection goes.
  send-hands :
      (conn : Peer C) (msg : String)
      → ((conn.channel ≡ some opened)
          × (Peer.send conn msg ≡ (record conn { sent = conn.sent ++ msg ∷ [] }, true)))
        ⊎ ((conn.channel ≢ some opened) × (Peer.send conn msg ≡ (conn, false)))
  unfolding Peer.send
  send-hands conn msg = go conn.channel refl
    where
      handed : Peer C
      handed = record conn { sent = conn.sent ++ msg ∷ [] }

      go :
          (o : Option Peer.Channel)
          → conn.channel ≡ o
          → let r : Peer C × Bool = elim o [ some opened ↦ (handed, true) | _ ↦ (conn, false) ] in
            ((conn.channel ≡ some opened) × (r ≡ (handed, true)))
            ⊎ ((conn.channel ≢ some opened) × (r ≡ (conn, false)))
      go none e = inr (λ o. cc, refl)
      go (some opening) e = inr (λ o. ground (arith, e, o), refl)
      go (some opened) e = inl (e, refl)
      go (some closed) e = inr (λ o. ground (arith, e, o), refl)

  first_peer :
      (mesh : Mesh C) (msg id : String) (ids : List String) (conn : Peer C)
      → connected_peers mesh ≡ id ∷ ids
      → get id mesh ≡ some conn
      → let r = Peer.send conn msg in ToPeer (some mesh) (some (put id r.0 mesh)) msg r.1
  unfolding ToPeer
  first_peer mesh msg id ids conn e g = elim (send-hands conn msg) [
    | inl (o, s) ↦ rw s (mesh, id, ids, conn, refl, e, g, o, refl)
    | inr (n, s) ↦ rw s (
      ap some (put-same id conn mesh g),
      λ m i js c a b h o.
          let same : conn ≡ c = ground (arith, e, g, a, b, h) in n (ap (λ k. k.channel) same ∙ o),
    )
  ]

  pub send_p2p-ToPeer :
      (mesh : Option (Mesh C)) (msg : String)
      → ToPeer mesh (send_p2p mesh msg).0 msg (send_p2p mesh msg).1
  unfolding send_p2p ToPeer
  send_p2p-ToPeer none msg = (refl, λ m id ids conn e. cc)
  send_p2p-ToPeer (some mesh) msg = by_peers (connected_peers mesh) refl
    where
      Goes : Option (Mesh C) × Bool → Type 0
      Goes r = ToPeer (some mesh) r.0 msg r.1

      by_peer :
          (id : String) (ids : List String) (o : Option (Peer C))
          → connected_peers mesh ≡ id ∷ ids
          → get id mesh ≡ o
          → let r : Option (Mesh C) × Bool = elim o [
            | none ↦ (some mesh, false)
            | some conn ↦ let s = Peer.send conn msg in (some (put id s.0 mesh), s.1)
          ] in
            Goes r
      by_peer id ids none e g = (refl, λ m i js c a b h. ground (arith, e, g, a, b, h))
      by_peer id ids (some conn) e g = first_peer mesh msg id ids conn e g

      by_peers :
          (l : List String)
          → connected_peers mesh ≡ l
          → let r : Option (Mesh C) × Bool = elim l [
            | [] ↦ (some mesh, false)
            | id ∷ _ ↦ elim (get id mesh) [
              | none ↦ (some mesh, false)
              | some conn ↦ let s = Peer.send conn msg in (some (put id s.0 mesh), s.1)
            ]
          ] in
            Goes r
      by_peers [] e = (refl, λ m i js c a b h. ground (arith, e, a, b))
      by_peers (id ∷ ids) e = by_peer id ids (get id mesh) e refl
