-- ===== src/Hooks/WebrtcMesh/Late.antt =====
-- A signal that comes late (apps/trapchat/src/hooks/useWebRTCMesh.js).
use trapchat.Prelude.{
  ℕ, ◌≡◌, refl, Bool, true, false, some, none, String, List, [], ◌==◌, arith, eq_refl, ◌∙◌,
}
use trapchat.Prelude.JsMap.{get, has, put, get-put, has-put}
use trapchat.Prelude.JsMap.Unique.{IsUnique, get-delete, get-has}
use trapchat.Webrtc.Mesh.{Signal, handle_signal}
use trapchat.Hooks.WebrtcMesh.{
  Meshes, find_other, offers_to, is_offer, count_of, close_mesh, handle_presence_mesh, signal,
  offer_due,
}

module _ {C : Type 0} (less : String → String → Bool) where
  -- A presence of another number than two leaves the room without a mesh.
  crowd_lem :
      (s : Meshes C) (room self : String) (peers : List String) (n : ℕ)
      → IsUnique s.meshes
      → (n == 2) ≡ false
      → let s' = (handle_presence_mesh less s room n peers self).0 in
        (get room s'.meshes ≡ none) × (s'.prev_counts ≡ put room n s.prev_counts)
  unfolding handle_presence_mesh close_mesh
  crowd_lem s room self peers n u more =
      ground (arith, more, get-delete room room s.meshes u, eq_refl room, get-has room s.meshes)

  -- A signal that is no offer, for a room without a mesh, gives it an empty one.
  late_lem :
      (s : Meshes C) (room from : String) (sig : Signal C)
      → is_offer sig.signal_type ≡ false
      → get room s.meshes ≡ none
      → let s' = signal s room from sig in
        (get room s'.meshes ≡ some [])
        × (has room s'.meshes ≡ true)
        × (s'.prev_counts ≡ s.prev_counts)
  unfolding signal handle_signal get
  late_lem s room from sig o e =
      rw (o, e)
        (
          get-put room room [] s.meshes ∙ rw (eq_refl room) refl,
          has-put room room [] s.meshes ∙ rw (eq_refl room) refl,
          refl,
        )

  -- A presence of two after another number, in a room with a mesh.
  pair_lem :
      (t : Meshes C) (room self remote : String) (peers : List String)
      → has room t.meshes ≡ true
      → (count_of room t.prev_counts == 2) ≡ false
      → let r = handle_presence_mesh less t room 2 peers self in
        (r.1 ≡ offers_to less self (find_other self peers))
        × (offer_due r.0 room remote ≡ r.0)
        × (r.0.meshes ≡ t.meshes)
  unfolding handle_presence_mesh offer_due
  pair_lem t room self remote peers h c = rw c (refl, rw h refl, refl)

  -- A third peer comes, so that the mesh of the room is closed; then a signal that is no offer comes from
  -- the old connection; then the third peer leaves. The timer for an offer is set as it should, but when it is
  -- due it does nothing: the room has a mesh, and no connection in it.
  pub late_signal_blocks :
      (s : Meshes C) (room self from remote : String) (crowd pair : List String) (n : ℕ)
      (sig : Signal C)
      → IsUnique s.meshes
      → (n == 2) ≡ false
      → is_offer sig.signal_type ≡ false
      → let s₁ = (handle_presence_mesh less s room n crowd self).0 in
        let r = handle_presence_mesh less (signal s₁ room from sig) room 2 pair self in
        (r.1 ≡ offers_to less self (find_other self pair))
        × (offer_due r.0 room remote ≡ r.0)
        × (get room (offer_due r.0 room remote).meshes ≡ some [])
  late_signal_blocks s room self from remote crowd pair n sig u more o =
      let s₁ : Meshes C = (handle_presence_mesh less s room n crowd self).0 in
      let t = signal s₁ room from sig in
      let (gone, counts) = crowd_lem s room self crowd n u more in
      let (empty, there, same) = late_lem s₁ room from sig o gone in
      let counted : (count_of room t.prev_counts == 2) ≡ false =
        rw (same, counts, count_of, get-put room room n s.prev_counts, eq_refl room) more in
      let (x, y, z) = pair_lem t room self remote pair there counted in (x, y, rw (y, z) empty)
