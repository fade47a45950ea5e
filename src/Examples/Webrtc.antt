-- ===== src/Examples/Webrtc.antt =====
-- The theorems on apps/trapchat/src/lib/webrtc.js at concrete connections.
use trapchat.Prelude.{ℕ, ◌+◌, ◌≡◌, true, some, [], ◌∷◌}
use trapchat.Webrtc.Peer.{Peer, candidate, step, new}
use trapchat.Webrtc.Peer.Candidates.{weight, weight-step}

-- A connection with the candidates 4 and 5 waiting.
abbrev waiting : Peer ℕ
waiting = record new { has_pc = true; pending_candidates = 4 ∷ 5 ∷ [] }

weight-step_example :
    weight (λ c. c) (step waiting (candidate (some 6))) ≡ weight (λ c. c) waiting + 6
weight-step_example = weight-step (λ c. c) waiting (candidate (some 6))
