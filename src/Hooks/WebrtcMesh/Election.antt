-- ===== src/Hooks/WebrtcMesh/Election.antt =====
-- Who offers a connection (apps/trapchat/src/hooks/useWebRTCMesh.js).
use trapchat.Prelude.{
  ◌≡◌, ◌⊎◌, Bool, false, not, none, some, String, List, [], ◌∷◌, ◌==◌, if◌then◌else◌, str_eq,
  eq_iff, eq_refl, arith, inl, inr,
}
use trapchat.Hooks.WebrtcMesh.{Meshes, find_other, offers_to, count_of, handle_presence_mesh}

module _ {C : Type 0} (less : String → String → Bool) where
  -- A presence of the two that comes after one of another count.
  presence-offers :
      (s : Meshes C) (room a b : String) (peers : List String)
      → (peers ≡ a ∷ b ∷ []) ⊎ (peers ≡ b ∷ a ∷ [])
      → str_eq a b ≡ false
      → str_eq a "" ≡ false
      → str_eq b "" ≡ false
      → (count_of room s.prev_counts == 2) ≡ false
      → (handle_presence_mesh less s room 2 peers a).1 ≡ (if less a b then some b else none)
  unfolding handle_presence_mesh find_other offers_to
  presence-offers s room a b peers (inl e) d n m p =
      rw e (ground (arith, d, n, m, p, eq_iff a b, eq_iff b a, eq_refl a))
  presence-offers s room a b peers (inr e) d n m p =
      rw e (ground (arith, d, n, m, p, eq_iff a b, eq_iff b a, eq_refl a))

  -- Two peers with different ids, one of them the smaller, that are alone in a room: when both hear of it,
  -- whichever order the ids come in, exactly one of them sets its timer for an offer, to the other.
  pub one_offers :
      (room a b : String) (peers : List String) (s t : Meshes C)
      → (peers ≡ a ∷ b ∷ []) ⊎ (peers ≡ b ∷ a ∷ [])
      → str_eq a b ≡ false
      → str_eq a "" ≡ false
      → str_eq b "" ≡ false
      → less b a ≡ not (less a b)
      → (count_of room s.prev_counts == 2) ≡ false
      → (count_of room t.prev_counts == 2) ≡ false
      → let r = (handle_presence_mesh less s room 2 peers a).1 in
        let q = (handle_presence_mesh less t room 2 peers b).1 in
        ((r ≡ some b) × (q ≡ none)) ⊎ ((r ≡ none) × (q ≡ some a))
  one_offers room a b peers s t e d n m o p q =
      let swap : (peers ≡ b ∷ a ∷ []) ⊎ (peers ≡ a ∷ b ∷ []) = elim e [
        | inl x ↦ inr x
        | inr x ↦ inl x
      ] in
      ground (
        arith,
        presence-offers s room a b peers e d n m p,
        presence-offers t room b a peers swap (ground (arith, d, eq_iff a b, eq_iff b a)) m n q,
        o,
      )
