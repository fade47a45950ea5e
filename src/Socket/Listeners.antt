-- ===== src/Socket/Listeners.antt =====
-- apps/trapchat/src/socket/client.js: the registry of listeners of `TrapChatClient`. A listener is a
-- number, by which functions are told apart; a set has its members in the order of insertion.
pub mod Calls
use trapchat.Prelude.{
  ℕ, Bool, true, false, Option, none, some, String, List, [], ◌∷◌, ◌++◌, ◌==◌, if◌then◌else◌, map,
}
use trapchat.Prelude.JsMap.{get, put}
use Prim.Native.String.{◌++◌ as join}

abbrev pub Registry : Type 0
Registry = List (String × List ℕ)

-- Set.prototype.add
pub add : ℕ → List ℕ → List ℕ
add f [] = f ∷ []
add f (g ∷ s) = if g == f then g ∷ s else g ∷ add f s

-- Set.prototype.delete
pub remove : ℕ → List ℕ → List ℕ
remove f [] = []
remove f (g ∷ s) = if g == f then s else g ∷ remove f s

pub listeners_of : Registry → String → List ℕ
listeners_of r event = elim (get event r) [ none ↦ [] | some s ↦ s ]

-- `on`
pub on : Registry → String → ℕ → Registry
on r event f = put event (add f (listeners_of r event)) r

-- The function that `on` gives back.
pub unsubscribe : Registry → String → ℕ → Registry
unsubscribe r event f = elim (get event r) [ none ↦ r | some s ↦ put event (remove f s) r ]

-- `#emit` and `emit`: the calls that it makes, each with what is told. The listeners do not change the
-- registry on the way.
pub emit : {D : Type 0} → Registry → String → D → List (ℕ × D)
emit r event data_ = map (λ f. (f, data_)) (listeners_of r event)

pub emit_p2p : {D : Type 0} → Registry → String → D → List (ℕ × D)
emit_p2p r event data_ = emit r (join "p2p:" event) data_
