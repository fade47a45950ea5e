-- ===== src/Webrtc/Peer/Candidates.antt =====
-- What becomes of the candidates that a peer sends (apps/trapchat/src/lib/webrtc.js,
-- `PeerConnection`).
use trapchat.Prelude.{
  ℕ, ◌+◌, ◌≡◌, refl, ◌∙◌, none, some, String, [], ◌∷◌, arith, get_elem?, set, if◌then◌else◌, sum_by,
  sum_by-append, sum_by-set, Option-cases, inl, inr,
}
use trapchat.Webrtc.Peer.{
  Peer, opening, opened, closed, Event, creates_offer, comes_offer, described, arrives, opens,
  closes_channel, loses, closes, signals_out, candidate, flushes, sends, step, create_offer,
  send_signal, handle_offer, remote_described, add_candidate, handle_ice_candidate, flush_next,
  notify, channel_arrives, channel_opens, channel_closes, connection_lost, send, close,
}

module _ {C : Type 0} (w : C → ℕ) where
  -- The weight of all the candidates that a connection holds, gave to the browser or lost. With weight
  -- one for one candidate it says how often that one is there.
  abbrev pub weight : Peer C → ℕ
  weight p =
      sum_by w p.pending_candidates
      + sum_by (sum_by w) p.flushing
      + sum_by w p.added
      + sum_by w p.lost

  -- The weight of a candidate that an event brings, if there is a connection to take it.
  abbrev pub arriving : Peer C → Event C → ℕ
  arriving p (candidate (some c)) = if p.has_pc then w c else 0
  arriving p _ = 0

  weight-add_candidate : (p : Peer C) (c : C) → weight (add_candidate p c) ≡ weight p + w c
  unfolding add_candidate
  weight-add_candidate p c =
      ground (arith, sum_by-append w p.added (c ∷ []), sum_by-append w p.lost (c ∷ []))

  weight-send : (p : Peer C) (d : String) → weight (send p d).0 ≡ weight p
  unfolding send
  weight-send p d = elim (Option-cases p.channel) [
    | inl e ↦ rw (e, send) refl
    | inr (opening, e) ↦ rw (e, send) refl
    | inr (opened, e) ↦ rw (e, send) refl
    | inr (closed, e) ↦ rw (e, send) refl
  ]

  weight-flush_next : (p : Peer C) (i : ℕ) → weight (flush_next p i) ≡ weight p
  unfolding flush_next
  weight-flush_next p i = elim (Option-cases (get_elem? p.flushing i)) [
    | inl e ↦ rw (e, flush_next) refl
    | inr ([], e) ↦ rw (e, flush_next) refl
    | inr (c ∷ cs, e) ↦
        rw (e, flush_next)
          (weight-add_candidate (record p { flushing = set p.flushing i cs }) c
            ∙ omega (arith, sum_by-set (sum_by w) p.flushing i (c ∷ cs) cs e))
  ]

  -- The candidates that wait, were given to the browser or were lost with a warning are after any event
  -- those from before, none twice and none missing, and the one that the event brings, where there is
  -- a connection to take it. One that comes where there is no connection is dropped without a trace.
  pub weight-step : (p : Peer C) (e : Event C) → weight (step p e) ≡ weight p + arriving p e
  unfolding step create_offer send_signal handle_offer remote_described handle_ice_candidate notify
      channel_arrives channel_opens channel_closes connection_lost close
  weight-step p creates_offer = omega arith
  weight-step p comes_offer = ground arith
  weight-step p described =
      omega (arith, sum_by-append (sum_by w) p.flushing (p.pending_candidates ∷ []))
  weight-step p arrives = omega arith
  weight-step p opens = omega arith
  weight-step p closes_channel = omega arith
  weight-step p loses = ground arith
  weight-step p closes = omega arith
  weight-step p (signals_out s) = omega arith
  weight-step p (candidate none) = omega arith
  weight-step p (candidate (some c)) =
      ground
        (arith, sum_by-append w p.added (c ∷ []), sum_by-append w p.pending_candidates (c ∷ []))
  weight-step p (flushes i) = omega (arith, weight-flush_next p i)
  weight-step p (sends d) = omega (arith, weight-send p d)
